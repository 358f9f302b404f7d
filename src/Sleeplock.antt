-- ===== src/Sleeplock.antt =====
-- labs/week7/EE23B102/xv6-riscv/kernel/sleeplock.c: a lock on which processes sleep. A process is its pid.
-- One turn of the loop of acquiresleep() is a step; `none` where the lock is taken and the process sleeps.
pub mod Waiters
mod Tests
use cs3500_os.Base.{ℕ, Bool, true, false, ◌&&◌, Option, none, some, ◌==◌, if◌then◌else◌, update}

pub record Sleeplock : Type 0 where
  pub locked : Bool
  pub pid : ℕ

pub initsleeplock : Sleeplock
initsleeplock = record { locked = false; pid = 0 }

pub acquiresleep_turn : ℕ → Sleeplock → Option Sleeplock
acquiresleep_turn me lk = if lk.locked then none else some (record { locked = true; pid = me })

-- releasesleep(), with who still sleeps on the lock after its wakeup()
pub releasesleep : Sleeplock → (ℕ → Bool) → Sleeplock × (ℕ → Bool)
releasesleep lk asleep = (record { locked = false; pid = 0 }, λ p. false)

pub holdingsleep : ℕ → Sleeplock → Bool
holdingsleep me lk = lk.locked && lk.pid == me
