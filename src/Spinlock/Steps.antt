-- ===== src/Spinlock/Steps.antt =====
-- spinlock.c: the CPUs in acquire() and release() of one lock, interleaved.
use cs3500_os.Base.{ℕ, ◌<◌, ◌≡◌, ◌⊎◌, Bool, true, false, update, ok}
use cs3500_os.Spinlock.{
  Cpu, Lock, pop_off, acquire_start, acquire_swap, acquire_record, release_start, release_word,
}

-- Where a CPU is: in the loop of acquire(), behind the swap that found the word free, behind the
-- store of lk->cpu, in release() behind lk->cpu = 0, or behind the release of the word.
pub data Phase : Type 0 where
  outside : Phase
  spinning : Phase
  got : Phase
  inside : Phase
  clearing : Phase
  popping : Phase

abbrev pub has_word : Phase → Bool
has_word outside = false
has_word spinning = false
has_word got = true
has_word inside = true
has_word clearing = true
has_word popping = false

abbrev pub is_inside : Phase → Bool
is_inside outside = false
is_inside spinning = false
is_inside got = false
is_inside inside = true
is_inside clearing = false
is_inside popping = false

abbrev pub is_busy : Phase → Bool
is_busy outside = false
is_busy spinning = true
is_busy got = true
is_busy inside = true
is_busy clearing = true
is_busy popping = true

-- Interrupts are off, by an open push_off().
abbrev pub IsOff : Cpu → Type 0
IsOff c = (c.intr ≡ false) × (0 < c.noff)

-- The lock, where each CPU is, and its state.
pub record World : Type 0 where
  pub lock : Lock
  pub phase : ℕ → Phase
  pub cpus : ℕ → Cpu

abbrev pub at_phase : World → ℕ → Phase → Lock → World
at_phase w me p lk = record { lock = lk; phase = update w.phase me p; cpus = w.cpus }

abbrev pub at_cpu : World → ℕ → Phase → Cpu → World
at_cpu w me p c = record { lock = w.lock; phase = update w.phase me p; cpus = update w.cpus me c }

-- A step of one CPU. What it does outside, and with other locks inside, is `works`.
pub data Step (w w' : World) : Type 0 where
  starts :
      (me : ℕ) (c : Cpu)
      → w.phase me ≡ outside
      → acquire_start me w.lock (w.cpus me) ≡ ok c
      → w' ≡ at_cpu w me spinning c
      → Step w w'
  spins :
      (me : ℕ)
      → w.phase me ≡ spinning
      → (acquire_swap w.lock).0 ≡ true
      → w' ≡ at_phase w me spinning (acquire_swap w.lock).1
      → Step w w'
  takes :
      (me : ℕ)
      → w.phase me ≡ spinning
      → (acquire_swap w.lock).0 ≡ false
      → w' ≡ at_phase w me got (acquire_swap w.lock).1
      → Step w w'
  records :
      (me : ℕ) → w.phase me ≡ got → w' ≡ at_phase w me inside (acquire_record me w.lock) → Step w w'
  clears :
      (me : ℕ) (lk : Lock)
      → w.phase me ≡ inside
      → release_start me w.lock ≡ ok lk
      → w' ≡ at_phase w me clearing lk
      → Step w w'
  frees :
      (me : ℕ)
      → w.phase me ≡ clearing
      → w' ≡ at_phase w me popping (release_word w.lock)
      → Step w w'
  pops :
      (me : ℕ) (c : Cpu)
      → w.phase me ≡ popping
      → pop_off (w.cpus me) ≡ ok c
      → w' ≡ at_cpu w me outside c
      → Step w w'
  works :
      (me : ℕ) (c : Cpu)
      → (w.phase me ≡ outside) ⊎ ((w.phase me ≡ inside) × IsOff c)
      → w' ≡ at_cpu w me (w.phase me) c
      → Step w w'

-- From a free lock and all CPUs outside, in any state of theirs.
pub data Reach : World → Type 0 where
  start :
      (cs : ℕ → Cpu)
      → Reach
          (record { lock = record { locked = false; cpu = 0 }; phase = λ c. outside; cpus = cs })
  next : {w w' : World} → Reach w → Step w w' → Reach w'
