-- ===== src/RxRing.antt =====
-- labs/week6/xv6-labs-2024/kernel/e1000.c: the ring of buffers that the card fills. A buffer is its
-- address, and a call of net_rx() is noted by its buffer. The answers of kalloc(), one for each descriptor,
-- are an argument.
pub mod Delivery
mod Tests
use cs3500_os.Base.{
  ℕ, zero, suc, ◌+◌, ◌%◌, Bool, true, false, ◌||◌, not, List, [], ◌∷◌, ◌==◌, if◌then◌else◌, update,
}

abbrev pub rx_ring_size : ℕ
rx_ring_size = 16

-- E1000_RDT, the done bits of rx_ring[], and rx_bufs[].
pub record Ring : Type 0 where
  pub rdt : ℕ
  pub done : ℕ → Bool
  pub bufs : ℕ → ℕ

-- The buffers given to net_rx(), in order, and the ring.
pub record Delivered : Type 0 where
  pub given : List ℕ
  pub ring : Ring

-- The loop of e1000_recv() at descriptor idx, with fuel.
pub recv_loop : (ℕ → ℕ) → ℕ → ℕ → ℕ → Ring → Delivered
recv_loop page zero base idx r = record { given = []; ring = r }
recv_loop page (suc fuel) base idx r =
    let renewed : Ring = record r {
      done = update r.done idx false;
      bufs = update r.bufs idx (page idx);
    } in
    let rest = recv_loop page fuel base ((idx + 1) % rx_ring_size) renewed in
    if idx == base || not (r.done idx)
    then record { given = []; ring = record r { rdt = (idx + 15) % rx_ring_size } }
    else if page idx == 0
    then record { given = r.bufs idx ∷ []; ring = record r { bufs = update r.bufs idx 0 } }
    else record { given = r.bufs idx ∷ rest.given; ring = rest.ring }

-- e1000_recv(). The loop ends before it has passed 16 descriptors.
pub e1000_recv : (ℕ → ℕ) → Ring → Delivered
e1000_recv page r = recv_loop page rx_ring_size r.rdt ((r.rdt + 1) % rx_ring_size) r
