-- ===== src/RxRing/Tests.antt =====
-- e1000.c: two buffers have arrived, across the end of the ring.
use cs3500_os.Base.{◌≡◌, refl, ◌==◌, ◌||◌, [], ◌∷◌, ◌+◌, arith}
use cs3500_os.RxRing.{Ring, e1000_recv, recv_loop}
use cs3500_os.RxRing.Delivery.{Delivers, e1000_recv-Delivers}

abbrev two_arrived : Ring
two_arrived = record { rdt = 14; done = λ i. i == 15 || i == 0; bufs = λ i. 100 + i }

e1000_recv-Delivers_example : Delivers 14 15 two_arrived (e1000_recv (λ i. 500) two_arrived)
e1000_recv-Delivers_example =
    e1000_recv-Delivers (λ i. 500) two_arrived (λ i. omega arith) (omega arith)

gives_two : (e1000_recv (λ i. 500) two_arrived).given ≡ 115 ∷ 100 ∷ []
unfolding e1000_recv recv_loop
gives_two = refl
