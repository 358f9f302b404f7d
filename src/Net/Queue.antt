-- ===== src/Net/Queue.antt =====
-- net.c: a bound port is a queue of at most 16 packets, first in, first out.
use cs3500_os.Base.{
  ℕ, ◌%◌, ◌^◌, ◌≤◌, ◌<◌, ◌≡◌, ◌≢◌, refl, ◌∙◌, ap, ◌⊎◌, inl, inr, Bool, true, false, ◌||◌, not,
  Option, none, some, Option-cases, List, [], ◌∷◌, ◌++◌, length, arith, leb, min, ◌==◌,
  if◌then◌else◌, Bool-cases, ==→eq, subst,
}
use cs3500_os.Net.{
  PendingPacket, UdpTable, find_bound_port, max_ports, sys_bind, Frame, to_packet, too_short,
  enqueue, ip_rx, Received, not_bound, killed, sleeps, takes, take_packet, sys_recv,
}
use cs3500_os.Net.Ports.{waiting_at, queues, queues-update, queues_bind, found_port}

-- Every entry counts its packets, and no entry has more than 16.
pub record IsTable (t : UdpTable) : Type 0 where
  pub fits : t.port_count ≤ 64
  pub counts : (i : ℕ) → i < t.port_count → (t.ports i).pending_count ≡ length (t.ports i).pending
  pub bounded : (i : ℕ) → i < t.port_count → length (t.ports i).pending ≤ 16

-- What bind() promises.
abbrev pub Binds : ℕ → UdpTable → Bool × UdpTable → Type 0
Binds p t (false, t') = (t' ≡ t) × ((queues t p ≢ none) ⊎ (64 ≤ t.port_count))
Binds p t (true, t') =
    (queues t p ≡ none)
    × (t.port_count < 64)
    × ((q : ℕ) → queues t' q ≡ (if q == p then some [] else queues t q))

-- sys_bind of a port, taken modulo 2^16, either fails, with the port bound already or 64 ports
-- bound, and changes nothing; or the port was not bound and has now an empty queue, and the queues
-- of all other ports are as before.
pub sys_bind-Binds : (port : ℕ) (t : UdpTable) → Binds (port % 2 ^ 16) t (sys_bind port t)
unfolding sys_bind
sys_bind-Binds port t = elim (Option-cases (find_bound_port (port % 2 ^ 16) t)) [
  | inl free ↦ elim (Bool-cases (leb max_ports t.port_count)) [
    | inl full ↦ rw (sys_bind, free, full) (refl, inr (ground (arith, full)))
    | inr room ↦
        rw (sys_bind, free, room)
          (ap (waiting_at t) free, ground (arith, room), λ q. queues_bind t _ free q)
  ]
  | inr (i, taken) ↦ rw (sys_bind, taken) (refl, inl (λ e. let x = ap (waiting_at t) taken in cc))
]

-- What a frame does to the queue of its port.
abbrev pub delivered : Bool → Frame → Option (List PendingPacket) → Option (List PendingPacket)
delivered mem a none = none
delivered mem a (some ps) =
    if too_short a || (leb 16 (length ps) || not mem)
    then some ps
    else some (ps ++ to_packet a ∷ [])

-- On a well-formed table, ip_rx appends the packet of the frame to the queue of its port, if that
-- is bound and holds fewer than 16 packets, the lengths in the frame are right and kalloc finds
-- two pages; all other queues, and in all other cases this one, are as before.
pub queues-ip_rx :
    (mem : Bool) (a : Frame) (t : UdpTable)
    → IsTable t
    → (q : ℕ)
    → queues (ip_rx mem a t).1 q
      ≡ (if q == a.dport then delivered mem a (queues t q) else queues t q)
unfolding ip_rx
queues-ip_rx mem a t v q = elim (Option-cases (find_bound_port a.dport t)) [
  | inl unbound ↦
      rw (ip_rx, unbound)
        (elim (Bool-cases (q == a.dport)) [
          | inl here ↦ rw (here, at_port q none here unbound) refl
          | inr other ↦ rw other refl
        ])
  | inr (i, found) ↦
      elim (Bool-cases (too_short a || (leb 16 (t.ports i).pending_count || not mem))) [
        | inl refused ↦
            rw (ip_rx, found, refused)
              (elim (Bool-cases (q == a.dport)) [
                | inl here ↦
                    rw (here, at_port q (some i) here found, counted i found true refused) refl
                | inr other ↦ rw other refl
              ])
        | inr taken ↦
            rw (ip_rx, found, taken)
              (queues-update t a.dport i (enqueue (to_packet a) (t.ports i)) refl found q
                ∙ elim (Bool-cases (q == a.dport)) [
                  | inl here ↦
                      rw (here, at_port q (some i) here found, counted i found false taken) refl
                  | inr other ↦ rw other refl
                ])
      ]
]
  where
    counted :
        (i : ℕ)
        → find_bound_port a.dport t ≡ some i
        → (b : Bool) → (too_short a || (leb 16 (t.ports i).pending_count || not mem)) ≡ b
        → (too_short a || (leb 16 (length (t.ports i).pending) || not mem)) ≡ b
    counted i found b e =
        subst (λ n. (too_short a || (leb 16 n || not mem)) ≡ b)
          (v.counts i (found_port t a.dport i found).0) e

    at_port :
        (q : ℕ) (o : Option ℕ)
        → (q == a.dport) ≡ true
        → find_bound_port a.dport t ≡ o
        → queues t q ≡ waiting_at t o
    at_port q o same e = ap (queues t) (==→eq q a.dport same) ∙ ap (waiting_at t) e

-- What recv() promises, of the queue of its port.
abbrev pub Receives :
    Bool → Bool → ℕ → ℕ → UdpTable → Option (List PendingPacket) → Received × UdpTable → Type 0
Receives is_killed copied p maxlen t none r = r ≡ (not_bound, t)
Receives is_killed copied p maxlen t (some []) r = r ≡ (if is_killed then killed else sleeps, t)
Receives is_killed copied p maxlen t (some (pp ∷ rest)) (r, t') =
    (r ≡ takes pp (if copied then some (min (length pp.bytes) maxlen) else none))
    × ((q : ℕ) → queues t' q ≡ (if q == p then some rest else queues t q))

-- A round of sys_recv fails if the port is not bound; if its queue is empty it fails for a killed
-- process and sleeps otherwise, and changes nothing; else it takes the oldest packet off the
-- queue, with at most maxlen bytes copied, and leaves the other queues as they were.
pub sys_recv-Receives :
    (is_killed copied : Bool) (port maxlen : ℕ) (t : UdpTable)
    → Receives is_killed copied
        (port % 2 ^ 16)
        maxlen
        t
        (queues t (port % 2 ^ 16))
        (sys_recv is_killed copied port maxlen t)
unfolding sys_recv
sys_recv-Receives is_killed copied port maxlen t =
    elim (Option-cases (find_bound_port (port % 2 ^ 16) t)) [
      | inl unbound ↦ rw (sys_recv, unbound) refl
      | inr (i, found) ↦ rw (sys_recv, found) (taking i (t.ports i).pending found refl)
    ]
  where
    p : ℕ
    p = port % 2 ^ 16

    taking :
        (i : ℕ) (ps : List PendingPacket)
        → find_bound_port p t ≡ some i
        → (t.ports i).pending ≡ ps
        → Receives is_killed copied p maxlen t
            (some ps)
            (take_packet is_killed copied maxlen i t ps)
    taking i [] found e = refl
    taking i (pp ∷ rest) found e = (refl, λ q. queues-update t p i _ refl found q)
