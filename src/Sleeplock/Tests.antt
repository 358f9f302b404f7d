-- ===== src/Sleeplock/Tests.antt =====
-- sleeplock.c: a process waits for another.
use cs3500_os.Base.{ℕ, ◌≡◌, refl, true, false, update}
use cs3500_os.Sleeplock.{initsleeplock, acquiresleep_turn, holdingsleep}
use cs3500_os.Sleeplock.Waiters.{Waiters, takes, waits, Reach, start, next, one_holder}

-- Process 3 has the lock, and 5 sleeps on it.
abbrev one_waits : Waiters
one_waits = record {
  lock = record { locked = true; pid = 3 };
  asleep = update (λ p. false) 5 true;
  inside = update (λ p. false) 3 true;
}

reached : Reach one_waits
unfolding acquiresleep_turn initsleeplock
reached =
    next (next start (takes 3 (record { locked = true; pid = 3 }) refl refl refl))
      (waits 5 refl refl refl)

one_holder_example :
    ((p : ℕ) → one_waits.inside p ≡ holdingsleep p one_waits.lock)
    × ((p q : ℕ) → one_waits.inside p ≡ true → one_waits.inside q ≡ true → p ≡ q)
    × ((p : ℕ) → one_waits.asleep p ≡ true → (q : ℕ) × (one_waits.inside q ≡ true))
one_holder_example = one_holder one_waits reached
