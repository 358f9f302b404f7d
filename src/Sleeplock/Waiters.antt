-- ===== src/Sleeplock/Waiters.antt =====
-- sleeplock.c: one holder, and nobody sleeps on a free lock.
use cs3500_os.Base.{
  ℕ, ◌≡◌, refl, ◌⊎◌, inl, inr, Bool, true, false, none, some, arith, update, Bool-cases,
}
use cs3500_os.Sleeplock.{Sleeplock, initsleeplock, acquiresleep_turn, releasesleep, holdingsleep}

-- The lock, who sleeps on it, and who has acquired it and not released it.
pub record Waiters : Type 0 where
  pub lock : Sleeplock
  pub asleep : ℕ → Bool
  pub inside : ℕ → Bool

pub data Step (w w' : Waiters) : Type 0 where
  takes :
      (me : ℕ) (lk : Sleeplock)
      → w.asleep me ≡ false
      → acquiresleep_turn me w.lock ≡ some lk
      → w' ≡ record w { lock = lk; inside = update w.inside me true }
      → Step w w'
  waits :
      (me : ℕ)
      → w.inside me ≡ false
      → acquiresleep_turn me w.lock ≡ none
      → w' ≡ record w { asleep = update w.asleep me true }
      → Step w w'
  leaves :
      (me : ℕ)
      → w.inside me ≡ true
      → w' ≡ record {
        lock = (releasesleep w.lock w.asleep).0;
        asleep = (releasesleep w.lock w.asleep).1;
        inside = update w.inside me false;
      }
      → Step w w'

pub data Reach : Waiters → Type 0 where
  start : Reach (record { lock = initsleeplock; asleep = λ p. false; inside = λ p. false })
  next : {w w' : Waiters} → Reach w → Step w w' → Reach w'

record IsHeld (w : Waiters) : Type 0 where
  held : (p : ℕ) → w.inside p ≡ holdingsleep p w.lock
  queued : (p : ℕ) → (w.asleep p ≡ false) ⊎ (w.lock.locked ≡ true)

turn_taken :
    (me : ℕ) (lk lk' : Sleeplock)
    → acquiresleep_turn me lk ≡ some lk'
    → (lk.locked ≡ false) × (record { locked = true; pid = me } ≡ lk')
unfolding acquiresleep_turn
turn_taken me lk lk' e = elim (Bool-cases lk.locked) [
  | inl taken ↦ absurd (ground (arith, e, taken))
  | inr free ↦ (free, ground (arith, e, free))
]

turn_refused : (me : ℕ) (lk : Sleeplock) → acquiresleep_turn me lk ≡ none → lk.locked ≡ true
unfolding acquiresleep_turn
turn_refused me lk e = ground (arith, e)

Step-IsHeld : (w w' : Waiters) → IsHeld w → Step w w' → IsHeld w'
unfolding holdingsleep releasesleep
Step-IsHeld w w' v (takes me lk awake e f) =
    let (free, same) = turn_taken me w.lock lk e in
    rw f (record {
      held = λ p. ground (arith, v.held p, free, same);
      queued = λ p. inr (ground (arith, same));
    })
Step-IsHeld w w' v (waits me out e f) =
    let taken = turn_refused me w.lock e in rw f (record { held = v.held; queued = λ p. inr taken })
Step-IsHeld w w' v (leaves me is_in f) =
    rw f (record { held = λ p. ground (arith, v.held p, v.held me, is_in); queued = λ p. inl refl })

Reach-IsHeld : (w : Waiters) → Reach w → IsHeld w
unfolding initsleeplock holdingsleep
Reach-IsHeld w start = record { held = λ p. refl; queued = λ p. inl refl }
Reach-IsHeld w (next {w = before} r st) = Step-IsHeld before w (Reach-IsHeld before r) st

-- In each state that turns of acquiresleep and calls of releasesleep by holders reach from
-- initsleeplock: the processes that have acquired the lock and not released it are those for which
-- holdingsleep is true, there is at most one, and there is one if a process sleeps on the lock.
pub one_holder :
    (w : Waiters)
    → Reach w
    → ((p : ℕ) → w.inside p ≡ holdingsleep p w.lock)
      × ((p q : ℕ) → w.inside p ≡ true → w.inside q ≡ true → p ≡ q)
      × ((p : ℕ) → w.asleep p ≡ true → (q : ℕ) × (w.inside q ≡ true))
unfolding holdingsleep
one_holder w r =
    let v = Reach-IsHeld w r in
    (
      v.held,
      (λ p q a b. ground (arith, v.held p, v.held q, a, b)),
      λ p sleeping. (w.lock.pid, ground (arith, v.held w.lock.pid, v.queued p, sleeping)),
    )
