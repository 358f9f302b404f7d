-- ===== src/TxRing.antt =====
-- labs/week6/xv6-labs-2024/kernel/e1000.c: the ring of buffers to send. A buffer is its address. The card
-- sends the descriptors from TDH up to TDT and marks them as done.
pub mod Fifo
mod Tests
use cs3500_os.Base.{
  ℕ, ◌+◌, ◌%◌, Bool, true, false, ◌&&◌, ◌||◌, not, List, [], ◌∷◌, ◌==◌, if◌then◌else◌, update,
}

abbrev pub tx_ring_size : ℕ
tx_ring_size = 16

-- E1000_TDH, E1000_TDT, the done bits of tx_ring[], and tx_bufs[].
pub record Ring : Type 0 where
  pub tdh : ℕ
  pub tdt : ℕ
  pub done : ℕ → Bool
  pub bufs : ℕ → ℕ

-- What e1000_transmit() returns, 0 or -1 as a Boolean, the buffers that it frees, and the ring.
pub record Transmitted : Type 0 where
  pub accepted : Bool
  pub freed : List ℕ
  pub ring : Ring

abbrev pub is_full : Ring → Bool
is_full r = not (r.done r.tdt) || not (not (r.tdh == (r.tdt + 1) % tx_ring_size))

pub e1000_transmit : ℕ → Ring → Transmitted
e1000_transmit buf r =
    if is_full r then record { accepted = false; freed = buf ∷ []; ring = r } else record {
      accepted = true;
      freed = if r.bufs r.tdt == 0 then [] else r.bufs r.tdt ∷ [];
      ring = record {
        tdh = r.tdh;
        tdt = (r.tdt + 1) % tx_ring_size;
        done = update r.done r.tdt false;
        bufs = update r.bufs r.tdt buf;
      };
    }
