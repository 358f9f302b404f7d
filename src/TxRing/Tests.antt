-- ===== src/TxRing/Tests.antt =====
-- e1000.c: a ring that is about to wrap.
use cs3500_os.Base.{◌≡◌, refl, true, [], ◌∷◌, arith}
use cs3500_os.TxRing.{Ring, e1000_transmit}
use cs3500_os.TxRing.Fifo.{window, pending, Transmits, e1000_transmit-Transmits}

abbrev one_waits : Ring
one_waits = record { tdh = 14; tdt = 15; done = λ i. true; bufs = λ i. 4096 }

e1000_transmit-Transmits_example : Transmits 8192 one_waits (e1000_transmit 8192 one_waits)
e1000_transmit-Transmits_example =
    e1000_transmit-Transmits 8192 one_waits (record { head = omega arith; tail = omega arith })

two_wait : pending (e1000_transmit 8192 one_waits).ring ≡ 4096 ∷ 8192 ∷ []
unfolding e1000_transmit window
two_wait = refl
