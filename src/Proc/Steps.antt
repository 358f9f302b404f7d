-- ===== src/Proc/Steps.antt =====
-- proc.c: the steps that the processes and the CPUs take, in any order.
use cs3500_os.Base.{ℕ, ◌+◌, ◌<◌, ◌^◌, ◌≡◌, ◌≢◌, Bool, true, ok}
use cs3500_os.Proc.{
  used, Sys, procinit, userinit, fork_begin, fork_finish, wakeup, kexit, sleep, sleep_end, yield,
  run_slot, reaped, kwait, kkill, setkilled,
}

-- `init` is the slot of initproc. A caller of kfork() holds the slot that it has allocated until it
-- finishes. nextpid does not wrap.
pub data Step (init : ℕ) (s s' : Sys) : Type 0 where
  begins :
      (memory copied : Bool)
      → s.nextpid + 1 < 2 ^ 32
      → s' ≡ (fork_begin memory copied s).1
      → Step init s s'
  finishes :
      (c np : ℕ)
      → s.current c ≢ 0
      → (s.proc np).state ≡ used
      → s' ≡ fork_finish (s.current c) np s
      → Step init s s'
  exits : (c status : ℕ) → s.current c ≢ 0 → kexit init c status s ≡ ok s' → Step init s s'
  sleeps : (c chan : ℕ) → s.current c ≢ 0 → s' ≡ sleep c chan s → Step init s s'
  wakes_up : (c : ℕ) → s.current c ≢ 0 → s' ≡ sleep_end c s → Step init s s'
  yields : (c : ℕ) → s.current c ≢ 0 → s' ≡ yield c s → Step init s s'
  runs : (c i : ℕ) → s.current c ≡ 0 → s' ≡ run_slot c i s → Step init s s'
  wakes : (me chan : ℕ) → s' ≡ record s { proc = wakeup me chan s.proc } → Step init s s'
  reaps :
      (c pid status : ℕ) (copied : Bool)
      → s.current c ≢ 0
      → kwait c copied s ≡ reaped pid status s'
      → Step init s s'
  kills : (pid : ℕ) → s' ≡ (kkill pid s).1 → Step init s s'
  marks : (i : ℕ) → s' ≡ setkilled i s → Step init s s'

-- From the state that userinit() leaves, with the first slot for init.
pub data Reach : Sys → Type 0 where
  boot : Reach (userinit true procinit).1
  next : {s s' : Sys} → Reach s → Step 1 s s' → Reach s'
