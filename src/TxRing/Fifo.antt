-- ===== src/TxRing/Fifo.antt =====
-- e1000.c: the buffers that wait in the ring are a queue.
use cs3500_os.Base.{
  ℕ, zero, suc, ◌+◌, ◌-◌, ◌%◌, ◌<◌, ◌≡◌, ◌≢◌, refl, ◌∙◌, ap, subst, ◌⊎◌, inl, inr, true, false,
  List, [], ◌∷◌, ◌++◌, update, arith, Bool-cases, eq→==, ne→==, ◌==◌, if◌then◌else◌,
}
use cs3500_os.TxRing.{Ring, Transmitted, is_full, e1000_transmit}

-- n buffers of the ring from i on
unfoldable pub window : ℕ → ℕ → (ℕ → ℕ) → List ℕ
window zero i bufs = []
window (suc n) i bufs = bufs i ∷ window n ((i + 1) % 16) bufs

-- How many descriptors the card has still to send.
abbrev pub waiting : Ring → ℕ
waiting r = (r.tdt + 16 - r.tdh) % 16

-- The buffers that are not yet sent, the next one first.
abbrev pub pending : Ring → List ℕ
pending r = window (waiting r) r.tdh r.bufs

pub record IsRing (r : Ring) : Type 0 where
  pub head : r.tdh < 16
  pub tail : r.tdt < 16

-- A buffer behind the window makes it longer.
window_last :
    (n i v : ℕ) (bufs : ℕ → ℕ)
    → i < 16
    → n < 16
    → window (suc n) i (update bufs ((i + n) % 16) v) ≡ window n i bufs ++ v ∷ []
unfolding window
window_last zero i v bufs lt small =
    let e : (i + 0) % 16 ≡ i = omega arith in rw (eq→== ((i + 0) % 16) i e) refl
window_last (suc n) i v bufs lt small =
    let e : ((i + 1) % 16 + n) % 16 ≡ (i + suc n) % 16 = omega arith in
    let rest =
      subst
        (λ k.
          window (suc n) ((i + 1) % 16) (update bufs k v) ≡ window n ((i + 1) % 16) bufs ++ v ∷ [])
        e (window_last n ((i + 1) % 16) v bufs (omega arith) (omega arith)) in
    rw (ne→== ((i + suc n) % 16) i (omega arith)) (ap (λ xs. bufs i ∷ xs) rest)

-- What e1000_transmit() does to the queue.
abbrev pub Transmits : ℕ → Ring → Transmitted → Type 0
Transmits buf r x =
    ((x.accepted ≡ false)
      × (x.freed ≡ buf ∷ [])
      × (x.ring ≡ r)
      × ((r.done r.tdt ≡ false) ⊎ (waiting r ≡ 15)))
    ⊎ ((x.accepted ≡ true)
        × (r.done r.tdt ≡ true)
        × (waiting r < 15)
        × (x.freed ≡ (if r.bufs r.tdt == 0 then [] else r.bufs r.tdt ∷ []))
        × ((k : ℕ) → x.ring.done k ≡ (if k == r.tdt then false else r.done k))
        × (pending x.ring ≡ pending r ++ buf ∷ [])
        × (waiting x.ring ≡ waiting r + 1)
        × IsRing x.ring)

full_reason : (r : Ring) → IsRing r → is_full r ≡ true → (r.done r.tdt ≡ false) ⊎ (waiting r ≡ 15)
full_reason r v full = elim (Bool-cases (r.done r.tdt)) [
  | inl free ↦
      let e : r.tdh ≡ (r.tdt + 1) % 16 = ground (arith, full, free) in
      let lt = v.tail in inr (omega arith)
  | inr busy ↦ inl busy
]

waiting_more :
    (r : Ring)
    → IsRing r
    → r.tdh ≢ (r.tdt + 1) % 16
    → ((r.tdt + 1) % 16 + 16 - r.tdh) % 16 ≡ waiting r + 1
waiting_more r v apart = let a = v.head in let b = v.tail in omega arith

waiting_less : (r : Ring) → IsRing r → r.tdh ≢ (r.tdt + 1) % 16 → waiting r < 15
waiting_less r v apart = let a = v.head in let b = v.tail in omega arith

grown :
    (r : Ring) (buf : ℕ)
    → IsRing r
    → ((r.tdt + 1) % 16 + 16 - r.tdh) % 16 ≡ waiting r + 1
    → window (((r.tdt + 1) % 16 + 16 - r.tdh) % 16) r.tdh (update r.bufs r.tdt buf)
      ≡ pending r ++ buf ∷ []
grown r buf v more =
    let a = v.head in
    let b = v.tail in
    let e : (r.tdh + waiting r) % 16 ≡ r.tdt = omega arith in
    let n : ((r.tdt + 1) % 16 + 16 - r.tdh) % 16 ≡ suc (waiting r) = omega arith in
    ap (λ k. window k r.tdh (update r.bufs r.tdt buf)) n
    ∙ subst (λ k. window (suc (waiting r)) r.tdh (update r.bufs k buf) ≡ pending r ++ buf ∷ []) e
        (window_last (waiting r) r.tdh buf r.bufs v.head (omega arith))

-- With head and tail below 16, e1000_transmit either fails, frees the buffer and leaves the ring,
-- and then the descriptor at the tail is not done or 15 buffers are not yet sent; or it succeeds,
-- and then the descriptor at the tail was done and less than 15 buffers were not yet sent; what it
-- frees is the old buffer of that descriptor, if any; of the descriptors only that one is no
-- longer done; the buffer stands behind the buffers that are not yet sent, in their order, head
-- and tail are below 16, and one more is not yet sent.
pub e1000_transmit-Transmits :
    (buf : ℕ) (r : Ring) → IsRing r → Transmits buf r (e1000_transmit buf r)
unfolding e1000_transmit
e1000_transmit-Transmits buf r v = elim (Bool-cases (is_full r)) [
  | inl full ↦ rw full (inl (refl, refl, refl, full_reason r v full))
  | inr room ↦
      let apart : r.tdh ≢ (r.tdt + 1) % 16 = ground (arith, room) in
      let more = waiting_more r v apart in
      rw room (
        inr (
          refl,
          ground (arith, room),
          waiting_less r v apart,
          refl,
          λ k. ground arith,
          grown r buf v more,
          more,
          record { head = v.head; tail = omega arith },
        ))
]
