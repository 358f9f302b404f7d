-- ===== src/Net/Bounds.antt =====
-- net.c: the table of ports stays well-formed, and its queues stay short.
use cs3500_os.Base.{
  ℕ, ◌+◌, ◌-◌, ◌%◌, ◌^◌, ◌≤◌, ◌<◌, ◌≡◌, refl, ap, inl, inr, Bool, ◌||◌, not, Option-cases, List, [],
  ◌∷◌, length, length-append, arith, leb, ◌==◌, update, Bool-cases,
}
use cs3500_os.Net.{
  PendingPacket, BoundPort, UdpTable, find_bound_port, max_ports, sys_bind, Frame, to_packet,
  too_short, enqueue, ip_rx, take_packet, sys_recv,
}
use cs3500_os.Net.Ports.{found_port}
use cs3500_os.Net.Queue.{IsTable}

put-IsTable :
    (t : UdpTable) (i : ℕ) (bp : BoundPort)
    → bp.pending_count ≡ length bp.pending
    → length bp.pending ≤ 16
    → IsTable t
    → IsTable (record t { ports = update t.ports i bp })
put-IsTable t i bp counted few v = record {
  fits = v.fits;
  counts = λ j lt. elim (Bool-cases (i == j)) [
    | inl here ↦ rw here counted
    | inr other ↦ rw other (v.counts j lt)
  ];
  bounded = λ j lt. elim (Bool-cases (i == j)) [
    | inl here ↦ rw here few
    | inr other ↦ rw other (v.bounded j lt)
  ];
}

grow-IsTable :
    (t : UdpTable) (bp : BoundPort)
    → bp.pending_count ≡ length bp.pending
    → length bp.pending ≤ 16
    → t.port_count < 64
    → IsTable t
    → IsTable (record t { ports = update t.ports t.port_count bp; port_count = t.port_count + 1 })
grow-IsTable t bp counted few room v = record {
  fits = omega arith;
  counts = λ j lt. elim (Bool-cases (t.port_count == j)) [
    | inl here ↦ rw here counted
    | inr other ↦ rw other (v.counts j (ground (arith, other, lt)))
  ];
  bounded = λ j lt. elim (Bool-cases (t.port_count == j)) [
    | inl here ↦ rw here few
    | inr other ↦ rw other (v.bounded j (ground (arith, other, lt)))
  ];
}

pub sys_bind-IsTable : (port : ℕ) (t : UdpTable) → IsTable t → IsTable (sys_bind port t).1
unfolding sys_bind
sys_bind-IsTable port t v = elim (Option-cases (find_bound_port (port % 2 ^ 16) t)) [
  | inl free ↦ elim (Bool-cases (leb max_ports t.port_count)) [
    | inl full ↦ rw (sys_bind, free, full) v
    | inr room ↦
        rw (sys_bind, free, room)
          (grow-IsTable t (record { port = port % 2 ^ 16; pending_count = 0; pending = [] }) refl
            (omega arith) (ground (arith, room)) v)
  ]
  | inr (i, taken) ↦ rw (sys_bind, taken) v
]

pub ip_rx-IsTable : (mem : Bool) (a : Frame) (t : UdpTable) → IsTable t → IsTable (ip_rx mem a t).1
unfolding ip_rx
ip_rx-IsTable mem a t v = elim (Option-cases (find_bound_port a.dport t)) [
  | inl unbound ↦ rw (ip_rx, unbound) v
  | inr (i, found) ↦
      elim (Bool-cases (too_short a || (leb 16 (t.ports i).pending_count || not mem))) [
        | inl refused ↦ rw (ip_rx, found, refused) v
        | inr taken ↦
            let c = v.counts i (found_port t a.dport i found).0 in
            let n = length-append (t.ports i).pending (to_packet a ∷ []) in
            rw (ip_rx, found, taken)
              (put-IsTable t i (enqueue (to_packet a) (t.ports i)) (omega arith)
                (ground (arith, n, c, taken)) v)
      ]
]

pub sys_recv-IsTable :
    (is_killed copied : Bool) (port maxlen : ℕ) (t : UdpTable)
    → IsTable t
    → IsTable (sys_recv is_killed copied port maxlen t).1
unfolding sys_recv
sys_recv-IsTable is_killed copied port maxlen t v =
    elim (Option-cases (find_bound_port (port % 2 ^ 16) t)) [
      | inl unbound ↦ rw (sys_recv, unbound) v
      | inr (i, found) ↦
          rw (sys_recv, found) (taking i (t.ports i).pending (found_port t _ i found).0 refl)
    ]
  where
    taking :
        (i : ℕ) (ps : List PendingPacket)
        → i < t.port_count
        → (t.ports i).pending ≡ ps
        → IsTable (take_packet is_killed copied maxlen i t ps).1
    taking i [] lt e = v
    taking i (pp ∷ rest) lt e =
        let c = v.counts i lt in
        let n = v.bounded i lt in
        let l = ap length e in
        put-IsTable t i
          (record (t.ports i) { pending_count = (t.ports i).pending_count - 1; pending = rest })
          (omega arith) (omega arith) v

-- sys_bind, ip_rx and sys_recv keep the table well-formed: at most 64 ports are bound, each counts
-- its pending packets, and none has more than 16.
pub udp_keeps :
    (port maxlen : ℕ) (is_killed copied mem : Bool) (a : Frame) (t : UdpTable)
    → IsTable t
    → IsTable (sys_bind port t).1
      × IsTable (ip_rx mem a t).1
      × IsTable (sys_recv is_killed copied port maxlen t).1
udp_keeps port maxlen is_killed copied mem a t v = (
  sys_bind-IsTable port t v,
  ip_rx-IsTable mem a t v,
  sys_recv-IsTable is_killed copied port maxlen t v,
)
