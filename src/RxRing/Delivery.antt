-- ===== src/RxRing/Delivery.antt =====
-- e1000.c: e1000_recv() gives each full buffer to net_rx() once, in the order of the ring.
use cs3500_os.Base.{
  ℕ, zero, suc, ◌+◌, ◌-◌, ◌%◌, ◌≤◌, ◌<◌, ◌≡◌, ◌≢◌, refl, ◌∙◌, ap, subst, ◌⊎◌, inl, inr, Bool, true,
  false, ◌||◌, not, List, [], ◌∷◌, ◌==◌, update, arith, Bool-cases, ==→eq, ne→==,
}
use cs3500_os.RxRing.{Ring, Delivered, recv_loop, e1000_recv}

-- n buffers of the ring from i on
pub stretch : ℕ → ℕ → (ℕ → ℕ) → List ℕ
stretch zero i bufs = []
stretch (suc n) i bufs = bufs i ∷ stretch n ((i + 1) % 16) bufs

stretch_other :
    (n i p v : ℕ) (bufs : ℕ → ℕ)
    → i < 16
    → p < 16
    → n ≤ (p + 16 - i) % 16
    → stretch n i (update bufs p v) ≡ stretch n i bufs
unfolding stretch
stretch_other zero i p v bufs lt at le = refl
stretch_other (suc n) i p v bufs lt at le =
    let rest = stretch_other n ((i + 1) % 16) p v bufs (omega arith) at (omega arith) in
    rw (ne→== p i (omega arith)) (ap (λ xs. bufs i ∷ xs) rest)

-- From descriptor idx on the first k that are done are given away, up to the base or one that is not done.
abbrev pub Delivers : ℕ → ℕ → Ring → Delivered → Type 0
Delivers base idx r d =
    (k : ℕ) × (k ≤ (base + 16 - idx) % 16)
    × (d.given ≡ stretch k idx r.bufs)
    × ((j : ℕ) → j < k → r.done ((idx + j) % 16) ≡ true)
    × ((k ≡ (base + 16 - idx) % 16) ⊎ (r.done ((idx + k) % 16) ≡ false))
    × (d.ring.rdt ≡ (idx + k + 15) % 16)

recv_loop-Delivers :
    (page : ℕ → ℕ) (fuel base idx : ℕ) (r : Ring)
    → ((i : ℕ) → page i ≢ 0)
    → base < 16
    → idx < 16
    → (base + 16 - idx) % 16 < fuel
    → Delivers base idx r (recv_loop page fuel base idx r)
unfolding recv_loop stretch
recv_loop-Delivers page zero base idx r pages lb li enough = absurd (omega arith)
recv_loop-Delivers page (suc fuel) base idx r pages lb li enough =
    elim (Bool-cases (idx == base || not (r.done idx))) [
      | inl stop ↦
          rw stop (0, omega arith, refl, (λ j lt. absurd (omega arith)), stops stop, omega arith)
      | inr go_on ↦
          let apart : idx ≢ base = ground (arith, go_on) in
          let renewed : Ring = record r {
            done = update r.done idx false;
            bufs = update r.bufs idx (page idx);
          } in
          let (k, le, given, all, end, rdt) =
            recv_loop-Delivers page fuel base ((idx + 1) % 16) renewed pages lb (omega arith)
              (omega arith) in
          rw (go_on, ne→== (page idx) 0 (pages idx))
            (
              suc k,
              omega arith,
              ap (λ xs. r.bufs idx ∷ xs)
                  (given
                    ∙ stretch_other k ((idx + 1) % 16) idx (page idx) r.bufs (omega arith) li
                        (omega arith)),
              (λ j lt. elim (Bool-cases (j == 0)) [
                | inl zero_j ↦
                    subst (λ i. r.done i ≡ true) (at_start j (==→eq j 0 zero_j))
                      (ground (arith, go_on))
                | inr later ↦
                    let pos : 0 < j = ground (arith, later) in
                    let e : ((idx + 1) % 16 + (j - 1)) % 16 ≡ (idx + j) % 16 = omega arith in
                    kept ((idx + j) % 16) true (omega arith)
                      (subst (λ i. update r.done idx false i ≡ true) e (all (j - 1) (omega arith)))
              ]),
              elim end [
                | inl whole ↦ inl (omega arith)
                | inr busy ↦
                    let e : ((idx + 1) % 16 + k) % 16 ≡ (idx + suc k) % 16 = omega arith in
                    inr (
                      kept ((idx + suc k) % 16) false (omega arith)
                        (subst (λ i. update r.done idx false i ≡ false) e busy))
              ],
              rdt ∙ omega arith,
            )
    ]
  where
    at_start : (j : ℕ) → j ≡ 0 → idx ≡ (idx + j) % 16
    at_start j z = omega arith

    stops :
        (idx == base || not (r.done idx)) ≡ true
        → (0 ≡ (base + 16 - idx) % 16) ⊎ (r.done ((idx + 0) % 16) ≡ false)
    stops stop = elim (Bool-cases (idx == base)) [
      | inl same ↦ let e = ==→eq idx base same in inl (omega arith)
      | inr other ↦
          inr (subst (λ i. r.done i ≡ false) (at_start 0 refl) (ground (arith, stop, other)))
    ]

    kept : (q : ℕ) (b : Bool) → q ≢ idx → update r.done idx false q ≡ b → r.done q ≡ b
    kept q b other h = ground (arith, other, h)

-- With the tail register below 16, and a kalloc that finds a page for each descriptor: e1000_recv
-- returns, has given to net_rx, in the order of the ring, the buffers of the first k descriptors
-- behind the tail, which are done, and k is 15 or the next one is not done; the tail register is
-- then at the last of them.
pub e1000_recv-Delivers :
    (page : ℕ → ℕ) (r : Ring)
    → ((i : ℕ) → page i ≢ 0)
    → r.rdt < 16
    → Delivers r.rdt ((r.rdt + 1) % 16) r (e1000_recv page r)
unfolding e1000_recv
e1000_recv-Delivers page r pages lt =
    recv_loop-Delivers page 16 r.rdt ((r.rdt + 1) % 16) r pages lt (omega arith) (omega arith)
