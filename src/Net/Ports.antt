-- ===== src/Net/Ports.antt =====
-- net.c: find_bound_port() in a table that changes.
use cs3500_os.Base.{
  ℕ, zero, suc, ◌+◌, ◌≤◌, ◌<◌, ◌≡◌, ◌≢◌, refl, sym, ◌∙◌, ap, inl, inr, false, Option, none, some,
  List, arith, ◌==◌, if◌then◌else◌, update, Bool-cases, ==→eq, ==→ne, ne→==, subst,
}
use cs3500_os.Net.{PendingPacket, BoundPort, UdpTable, find_loop, find_bound_port}

-- What the loop answers of the entries from i on.
abbrev pub Finds : ℕ → ℕ → ℕ → (ℕ → BoundPort) → Option ℕ → Type 0
Finds n i port ports none = (k : ℕ) → i ≤ k → k < i + n → (ports k).port ≢ port
Finds n i port ports (some j) = (i ≤ j) × (j < i + n) × ((ports j).port ≡ port)

pub find_loop-Finds :
    (n i port : ℕ) (ports : ℕ → BoundPort) → Finds n i port ports (find_loop n i port ports)
unfolding find_loop
find_loop-Finds zero i port ports = λ k lo hi. absurd (omega arith)
find_loop-Finds (suc n) i port ports = elim (Bool-cases ((ports i).port == port)) [
  | inl here ↦ rw here (omega arith, omega arith, ==→eq _ port here)
  | inr not_here ↦
      rw not_here
        (widen (find_loop n (i + 1) port ports) not_here (find_loop-Finds n (i + 1) port ports))
]
  where
    widen :
        (o : Option ℕ)
        → ((ports i).port == port) ≡ false
        → Finds n (i + 1) port ports o
        → Finds (suc n) i port ports o
    widen none not_here h = λ k lo hi. elim (Bool-cases (k == i)) [
      | inl same ↦ ground (arith, same, not_here)
      | inr later ↦ h k (ground (arith, later)) (omega arith)
    ]
    widen (some j) not_here (lo, hi, e) = (omega arith, omega arith, e)

-- Entries of the same ports are found alike.
pub find_loop-ext :
    (n i port : ℕ) (p q : ℕ → BoundPort)
    → ((k : ℕ) → (p k).port ≡ (q k).port)
    → find_loop n i port p ≡ find_loop n i port q
unfolding find_loop
find_loop-ext zero i port p q e = refl
find_loop-ext (suc n) i port p q e =
    let rest = find_loop-ext n (i + 1) port p q e in ground (arith, e i, rest)

-- The answer of the entries before k, and behind them the new entry k.
abbrev pub or_last : Option ℕ → ℕ → BoundPort → ℕ → Option ℕ
or_last (some j) port bp k = some j
or_last none port bp k = if bp.port == port then some k else none

pub find_loop_last :
    (n i k port : ℕ) (ports : ℕ → BoundPort) (bp : BoundPort)
    → k ≡ i + n
    → find_loop (suc n) i port (update ports k bp) ≡ or_last (find_loop n i port ports) port bp k
unfolding find_loop
find_loop_last zero i k port ports bp e = ground (arith, e)
find_loop_last (suc n) i k port ports bp e =
    let rest = find_loop_last n (i + 1) k port ports bp (omega arith) in
    elim (Bool-cases ((ports i).port == port)) [
      | inl here ↦ ground (arith, here, e)
      | inr other ↦ rw (ne→== k i (omega arith), other) rest
    ]

-- The packets that wait for a port, if it is bound.
abbrev pub waiting_at : UdpTable → Option ℕ → Option (List PendingPacket)
waiting_at t none = none
waiting_at t (some i) = some (t.ports i).pending

abbrev pub queues : UdpTable → ℕ → Option (List PendingPacket)
queues t port = waiting_at t (find_bound_port port t)

suc_last : (n : ℕ) → suc n ≡ n + 1
suc_last n = omega arith

other_entry :
    (t : UdpTable) (port i q : ℕ) (bp : BoundPort) (o : Option ℕ)
    → (t.ports i).port ≡ port
    → q ≢ port
    → Finds t.port_count 0 q t.ports o
    → waiting_at (record t { ports = update t.ports i bp }) o ≡ waiting_at t o
other_entry t port i q bp none at_i other h = refl
other_entry t port i q bp (some j) at_i other (lo, hi, at_j) = elim (Bool-cases (i == j)) [
  | inl same ↦
      let e = subst (λ k. (t.ports k).port ≡ port) (==→eq i j same) at_i in
      absurd (other (sym at_j ∙ e))
  | inr differ ↦ rw differ refl
]

pub found_port :
    (t : UdpTable) (port i : ℕ)
    → find_bound_port port t ≡ some i
    → (i < t.port_count) × ((t.ports i).port ≡ port)
unfolding find_bound_port
found_port t port i found =
    let (lo, hi, e) =
      subst (Finds t.port_count 0 port t.ports) found
        (find_loop-Finds t.port_count 0 port t.ports) in
    (omega arith, e)

-- An entry gets other packets.
pub queues-update :
    (t : UdpTable) (port i : ℕ) (bp : BoundPort)
    → bp.port ≡ (t.ports i).port
    → find_bound_port port t ≡ some i
    → (q : ℕ)
    → queues (record t { ports = update t.ports i bp }) q
      ≡ (if q == port then some bp.pending else queues t q)
unfolding find_bound_port
queues-update t port i bp same found q =
    let t' : UdpTable = record t { ports = update t.ports i bp } in
    let e = find_loop-ext t.port_count 0 q t'.ports t.ports (λ k. ground (arith, same)) in
    ap (waiting_at t') e
    ∙ elim (Bool-cases (q == port))
        as (λ _.
          waiting_at t' (find_loop t.port_count 0 q t.ports)
          ≡ (if q == port then some bp.pending else queues t q)) [
            | inl here ↦
                let f =
                  subst (λ r. find_loop t.port_count 0 r t.ports ≡ some i) (sym (==→eq q port here))
                    found in
                rw (f, here) (ground arith)
            | inr other ↦ rw other (
                other_entry t port i q bp (find_loop t.port_count 0 q t.ports)
                  (found_port t port i found).1 (==→ne q port other)
                  (find_loop-Finds t.port_count 0 q t.ports))
          ]

bound_entry :
    (t : UdpTable) (bp : BoundPort) (q : ℕ) (o : Option ℕ)
    → Finds t.port_count 0 q t.ports o
    → (q ≡ bp.port → o ≡ none)
    → waiting_at
        (record t { ports = update t.ports t.port_count bp; port_count = t.port_count + 1 })
        (or_last o q bp t.port_count)
      ≡ (if q == bp.port then some bp.pending else waiting_at t o)
bound_entry t bp q none h free = ground arith
bound_entry t bp q (some j) (lo, hi, e) free = elim (Bool-cases (q == bp.port)) [
  | inl same ↦ absurd (ground (arith, free (==→eq q bp.port same)))
  | inr other ↦ ground (arith, hi, other)
]

-- Another entry is bound.
pub queues_bind :
    (t : UdpTable) (bp : BoundPort)
    → find_bound_port bp.port t ≡ none
    → (q : ℕ)
    → queues (record t { ports = update t.ports t.port_count bp; port_count = t.port_count + 1 }) q
      ≡ (if q == bp.port then some bp.pending else queues t q)
unfolding find_bound_port
queues_bind t bp free q =
    let t' : UdpTable = record t {
      ports = update t.ports t.port_count bp;
      port_count = t.port_count + 1;
    } in
    let e : find_bound_port q t' ≡ or_last (find_bound_port q t) q bp t.port_count =
      subst (λ n. find_loop n 0 q t'.ports ≡ or_last (find_bound_port q t) q bp t.port_count)
        (suc_last t.port_count)
        (find_loop_last t.port_count 0 t.port_count q t.ports bp (omega arith)) in
    ap (waiting_at t') e
    ∙ bound_entry t bp q (find_loop t.port_count 0 q t.ports)
        (find_loop-Finds t.port_count 0 q t.ports)
        (λ same. subst (λ r. find_loop t.port_count 0 r t.ports ≡ none) (sym same) free)
