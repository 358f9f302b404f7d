-- ===== src/Net.antt =====
-- labs/week6/xv6-labs-2024/kernel/net.c, net.h: the packets that wait for each bound UDP port, and the
-- checksum. The list of pending packets holds its nodes from head on, of which tail is the last. The
-- pages of the packets are left out: whether kalloc() finds one is an argument, and ip_rx() says whether it
-- frees the page of its buffer. maxlen is not negative.
pub mod Ports
pub mod Queue
pub mod Bounds
pub mod Checksum
mod Tests
use cs3500_os.Base.{
  ℕ, zero, suc, ◌+◌, ◌-◌, ◌*◌, ◌/◌, ◌%◌, ◌^◌, Bool, true, false, ◌&&◌, ◌||◌, not, Option, none,
  some, List, [], ◌∷◌, ◌++◌, length, ltb, leb, ◌==◌, if◌then◌else◌, update, min,
}

abbrev pub max_pending_packets : ℕ
max_pending_packets = 16

abbrev pub max_ports : ℕ
max_ports = 64

pub record PendingPacket : Type 0 where
  pub bytes : List ℕ
  pub src_ip : ℕ
  pub src_port : ℕ

pub record BoundPort : Type 0 where
  pub port : ℕ
  pub pending_count : ℕ
  pub pending : List PendingPacket

-- Entries from port_count on are not in use.
pub record UdpTable : Type 0 where
  pub ports : ℕ → BoundPort
  pub port_count : ℕ

-- The loop of find_bound_port() from entry i on: the entry, or none.
pub find_loop : ℕ → ℕ → ℕ → (ℕ → BoundPort) → Option ℕ
find_loop zero i port ports = none
find_loop (suc n) i port ports =
    let rest = find_loop n (i + 1) port ports in if (ports i).port == port then some i else rest

pub find_bound_port : ℕ → UdpTable → Option ℕ
find_bound_port port t = find_loop t.port_count 0 port t.ports

-- sys_bind(): 0 or -1 as a Boolean. The argument is taken modulo 2^16, as a uint16, before it is compared.
pub sys_bind : ℕ → UdpTable → Bool × UdpTable
sys_bind port t =
    let p = port % 2 ^ 16 in
    let fresh : BoundPort = record { port = p; pending_count = 0; pending = [] } in
    elim (find_bound_port p t) [
      | some i ↦ (false, t)
      | none ↦ if leb max_ports t.port_count then (false, t) else (
        true,
        record t { ports = update t.ports t.port_count fresh; port_count = t.port_count + 1 },
      )
    ]

-- A frame in the buffer of ip_rx(): its length, and the fields in host order that are read of it.
pub record Frame : Type 0 where
  pub len : ℕ
  pub ulen : ℕ
  pub dport : ℕ
  pub ip_src : ℕ
  pub sport : ℕ
  pub payload : ℕ → ℕ

-- memmove() of n bytes
abbrev pub moved : ℕ → (ℕ → ℕ) → List ℕ
moved zero bytes = []
moved (suc n) bytes = bytes 0 ∷ moved n (λ i. bytes (i + 1))

-- The packet that ip_rx() queues. The headers have 14, 20 and 8 bytes.
abbrev pub to_packet : Frame → PendingPacket
to_packet a = record { bytes = moved (a.ulen - 8) a.payload; src_ip = a.ip_src; src_port = a.sport }

abbrev pub too_short : Frame → Bool
too_short a = ltb a.len 42 || (ltb a.ulen 8 || ltb a.len (34 + a.ulen))

-- *tail = pp and pending_count++
abbrev pub enqueue : PendingPacket → BoundPort → BoundPort
enqueue pp bp = record bp { pending_count = bp.pending_count + 1; pending = bp.pending ++ pp ∷ [] }

-- ip_rx(): whether it frees buf, and the table. `mem` says whether both calls of kalloc() find a page.
pub ip_rx : Bool → Frame → UdpTable → Bool × UdpTable
ip_rx mem a t = elim (find_bound_port a.dport t) as (λ o. Bool × UdpTable) [
  | none ↦ (not (too_short a), t)
  | some i ↦ (
    not (too_short a),
    if too_short a || (leb max_pending_packets (t.ports i).pending_count || not mem)
        then t
        else record t { ports = update t.ports i (enqueue (to_packet a) (t.ports i)) },
  )
]

-- What a call of sys_recv() ends with: -1 at once, a sleep, or a packet with the length that is copied,
-- which is -1 as none if a copyout() fails.
pub data Received : Type 0 where
  not_bound : Received
  killed : Received
  sleeps : Received
  takes : (packet : PendingPacket) (copied : Option ℕ) → Received

-- sys_recv() from the loop on, with the packets of entry i
abbrev pub take_packet : Bool → Bool → ℕ → ℕ → UdpTable → List PendingPacket → Received × UdpTable
take_packet is_killed copied maxlen i t [] = (if is_killed then killed else sleeps, t)
take_packet is_killed copied maxlen i t (pp ∷ rest) = (
  takes pp (if copied then some (min (length pp.bytes) maxlen) else none),
  record t {
    ports =
        update t.ports i
          (record (t.ports i) { pending_count = (t.ports i).pending_count - 1; pending = rest });
  },
)

-- sys_recv() up to a sleep. `copied` is the success of the three calls of copyout().
pub sys_recv : Bool → Bool → ℕ → ℕ → UdpTable → Received × UdpTable
sys_recv is_killed copied port maxlen t = elim (find_bound_port (port % 2 ^ 16) t) [
  | none ↦ (not_bound, t)
  | some i ↦ take_packet is_killed copied maxlen i t (t.ports i).pending
]

-- bswaps() and bswapl()
pub bswaps : ℕ → ℕ
bswaps val = val % 2 ^ 8 * 2 ^ 8 + val / 2 ^ 8 % 2 ^ 8

pub bswapl : ℕ → ℕ
bswapl val =
    val % 2 ^ 8 * 2 ^ 24
    + val / 2 ^ 8 % 2 ^ 8 * 2 ^ 16
    + val / 2 ^ 16 % 2 ^ 8 * 2 ^ 8
    + val / 2 ^ 24 % 2 ^ 8

-- The loop of in_cksum(): the sum of the 16-bit words, the low byte first, and of an odd last byte.
pub sum_words : List ℕ → ℕ → ℕ
sum_words [] sum = sum
sum_words (a ∷ []) sum = (sum + a) % 2 ^ 32
sum_words (a ∷ b ∷ bytes) sum = sum_words bytes ((sum + (a + b * 2 ^ 8)) % 2 ^ 32)

pub in_cksum : List ℕ → ℕ
in_cksum bytes =
    let sum = sum_words bytes 0 in
    let once = sum % 2 ^ 16 + sum / 2 ^ 16 in
    let twice = (once + once / 2 ^ 16) % 2 ^ 32 in (2 ^ 32 - 1 - twice) % 2 ^ 16
