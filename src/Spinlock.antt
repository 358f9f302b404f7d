-- ===== src/Spinlock.antt =====
-- labs/week7/EE23B102/xv6-riscv/kernel/spinlock.c: a CPU's nesting of disabled interrupts, and spinlocks. A
-- CPU is its number + 1, so that 0 is the null cpu of a free lock. The
-- swap and the release of the lock's word are steps of their own, apart from the stores of lk->cpu.
pub mod Nesting
pub mod Steps
pub mod Owned
pub mod Exclusion
mod Tests
use cs3500_os.Base.{
  ℕ, ◌+◌, ◌-◌, Bool, true, false, ◌&&◌, not, ltb, ◌==◌, if◌then◌else◌, Outcome, ok, panic, ◌>>◌,
  panic_if,
}

-- struct cpu's noff and intena, and whether interrupts are on
pub record Cpu : Type 0 where
  pub noff : ℕ
  pub intena : Bool
  pub intr : Bool

pub record Lock : Type 0 where
  pub locked : Bool
  pub cpu : ℕ

pub push_off : Cpu → Cpu
push_off c = record {
  noff = c.noff + 1;
  intena = if c.noff == 0 then c.intr else c.intena;
  intr = false;
}

pub pop_off : Cpu → Outcome Cpu
pop_off c =
    panic_if c.intr
    >> (panic_if (ltb c.noff 1)
        >> ok (record c { noff = c.noff - 1; intr = c.noff - 1 == 0 && c.intena }))

pub holding : ℕ → Lock → Bool
holding me lk = lk.locked && lk.cpu == me

-- The start of acquire().
pub acquire_start : ℕ → Lock → Cpu → Outcome Cpu
unfolding push_off holding
acquire_start me lk c = panic_if (holding me lk) >> ok (push_off c)

-- __sync_lock_test_and_set(&lk->locked, 1): the word before, and the lock. acquire() goes on spinning
-- while the word was set.
pub acquire_swap : Lock → Bool × Lock
acquire_swap lk = (lk.locked, record { locked = true; cpu = lk.cpu })

-- lk->cpu = mycpu()
pub acquire_record : ℕ → Lock → Lock
acquire_record me lk = record { locked = lk.locked; cpu = me }

-- release() up to lk->cpu = 0
pub release_start : ℕ → Lock → Outcome Lock
unfolding holding
release_start me lk = panic_if (not (holding me lk)) >> ok (record { locked = lk.locked; cpu = 0 })

-- __sync_lock_release(&lk->locked); pop_off() follows.
pub release_word : Lock → Lock
release_word lk = record { locked = false; cpu = lk.cpu }
