-- ===== src/Proc.antt =====
-- labs/week7/EE23B102/xv6-riscv/kernel/proc.c: the process table and the state of a process. A pointer
-- into proc[] is the slot's number from 1 on, and null is 0. A function here is what the code does from
-- the lock to its release, or through the switch to the scheduler's c->proc = 0. The answers of the code
-- below, whether allocproc() finds memory, uvmcopy() and copyout() succeed, are arguments. Page tables,
-- open files and the mapped areas are left to other modules.
pub mod Loops
pub mod Wakeups
pub mod Waits
pub mod Steps
pub mod Family
pub mod Generations
pub mod Lineage
pub mod Cpus
pub mod Reaches
pub mod Exits
mod Tests
use cs3500_os.Base.{
  ℕ, zero, suc, ◌+◌, ◌-◌, ◌%◌, ◌^◌, Bool, true, false, ◌&&◌, ◌||◌, not, Option, none, some, ltb,
  ◌==◌, if◌then◌else◌, update, Outcome, ok, panic, ◌>>◌, panic_if,
}

abbrev pub nproc : ℕ
nproc = 64

pub data ProcState : Type 0 where
  unused used sleeping runnable running zombie : ProcState

pub record Proc : Type 0 where
  pub state : ProcState
  pub chan : ℕ
  pub killed : Bool
  pub xstate : ℕ
  pub pid : ℕ
  pub parent : ℕ

abbrev pub Table : Type 0
Table = ℕ → Proc

-- The table, nextpid, and c->proc of each CPU c.
pub record Sys : Type 0 where
  pub proc : Table
  pub nextpid : ℕ
  pub current : ℕ → ℕ

abbrev pub is_unused : ProcState → Bool
is_unused unused = true
is_unused _ = false

abbrev pub is_sleeping : ProcState → Bool
is_sleeping sleeping = true
is_sleeping _ = false

abbrev pub is_runnable : ProcState → Bool
is_runnable runnable = true
is_runnable _ = false

abbrev pub is_zombie : ProcState → Bool
is_zombie zombie = true
is_zombie _ = false

-- for(p = proc; p < &proc[NPROC]; p++) over the slots from i on, where the body goes on
pub for_slots : ℕ → ℕ → (ℕ → Table → Table) → Table → Table
for_slots zero i body t = t
for_slots (suc n) i body t = for_slots n (i + 1) body (body i t)

-- The same, where the body stops at the first slot that passes the test; 0 if none does.
pub first_slot : ℕ → ℕ → (Proc → Bool) → Table → ℕ
first_slot zero i test t = 0
first_slot (suc n) i test t =
    let rest = first_slot n (i + 1) test t in if test (t i) then i else rest

-- procinit() on a table of zeros
pub procinit : Sys
procinit = record {
  proc = λ i. record { state = unused; chan = 0; killed = false; xstate = 0; pid = 0; parent = 0 };
  nextpid = 1;
  current = λ c. 0;
}

pub freeproc : Proc → Proc
freeproc p = record { state = unused; chan = 0; killed = false; xstate = 0; pid = 0; parent = 0 }

-- allocproc(); `memory` says whether the trapframe and the page table could be allocated. A pid is the
-- 32-bit pattern of the int, which from 2^31 on is that of a negative number.
pub allocproc : Bool → Sys → ℕ × Sys
allocproc memory s =
    let i = first_slot nproc 1 (λ p. is_unused p.state) s.proc in
    let p : Proc = record (s.proc i) { pid = s.nextpid; state = used } in
    if i == 0 then (0, s) else (
      if memory then i else 0,
      record s {
        proc = update s.proc i (if memory then p else freeproc p);
        nextpid = (s.nextpid + 1) % 2 ^ 32;
      },
    )

-- userinit(): the first process, of which initproc is set to the slot
pub userinit : Bool → Sys → ℕ × Sys
userinit memory s =
    let (i, s') = allocproc memory s in
    (i, record s' { proc = update s'.proc i (record (s'.proc i) { state = runnable }) })

-- kfork() to the release of np->lock; `copied` is the success of uvmcopy().
pub fork_begin : Bool → Bool → Sys → ℕ × Sys
fork_begin memory copied s =
    let (np, s') = allocproc memory s in
    if np == 0
    then (0, s')
    else if copied
    then (np, s')
    else (0, record s' { proc = update s'.proc np (freeproc (s'.proc np)) })

-- np->parent = p and np->state = RUNNABLE
pub fork_finish : ℕ → ℕ → Sys → Sys
fork_finish me np s = record s {
  proc = update s.proc np (record (s.proc np) { parent = me; state = runnable });
}

-- The body of wakeup()'s loop.
pub wake_slot : ℕ → ℕ → ℕ → Table → Table
wake_slot me chan i t =
    if not (i == me) && (is_sleeping (t i).state && (t i).chan == chan)
    then update t i (record (t i) { state = runnable })
    else t

pub wakeup : ℕ → ℕ → Table → Table
unfolding for_slots wake_slot
wakeup me chan t = for_slots nproc 1 (wake_slot me chan) t

-- The body of reparent()'s loop.
pub reparent_slot : ℕ → ℕ → ℕ → Table → Table
reparent_slot init me i t =
    if (t i).parent == me then wakeup me init (update t i (record (t i) { parent = init })) else t

pub reparent : ℕ → ℕ → Table → Table
unfolding for_slots reparent_slot
reparent init me t = for_slots nproc 1 (reparent_slot init me) t

-- kexit() of the process on CPU c, from reparent() on to c->proc = 0 in the scheduler.
pub kexit : ℕ → ℕ → ℕ → Sys → Outcome Sys
kexit init c status s =
    let me = s.current c in
    let t = reparent init me s.proc in
    let t' = wakeup me (t me).parent t in
    panic_if (me == init)
    >> ok (record s {
      proc = update t' me (record (t' me) { xstate = status; state = zombie });
      current = update s.current c 0;
    })

-- sleep() of the process on CPU c, to c->proc = 0 in the scheduler.
pub sleep : ℕ → ℕ → Sys → Sys
sleep c chan s =
    let me = s.current c in
    record s {
      proc = update s.proc me (record (s.proc me) { chan = chan; state = sleeping });
      current = update s.current c 0;
    }

-- sleep() after the switch back.
pub sleep_end : ℕ → Sys → Sys
sleep_end c s =
    let me = s.current c in record s { proc = update s.proc me (record (s.proc me) { chan = 0 }) }

pub yield : ℕ → Sys → Sys
yield c s =
    let me = s.current c in
    record s {
      proc = update s.proc me (record (s.proc me) { state = runnable });
      current = update s.current c 0;
    }

-- The body of scheduler()'s loop at slot i, to the switch to the process.
pub run_slot : ℕ → ℕ → Sys → Sys
run_slot c i s =
    if is_runnable (s.proc i).state
    then record s {
      proc = update s.proc i (record (s.proc i) { state = running });
      current = update s.current c i;
    }
    else s

-- What a round of kwait() ends with: a child's pid, -1, or a sleep.
pub data Waited : Type 0 where
  reaped : (pid status : ℕ) → Sys → Waited
  failed : Sys → Waited
  waits : Sys → Waited

-- The scan finds the first child that is a zombie. `copied` is the success of copyout(), or addr == 0.
pub kwait : ℕ → Bool → Sys → Waited
kwait c copied s =
    let me = s.current c in
    let z = first_slot nproc 1 (λ p. p.parent == me && is_zombie p.state) s.proc in
    let kid = first_slot nproc 1 (λ p. p.parent == me) s.proc in
    if not (z == 0)
    then (if copied
        then reaped (s.proc z).pid (s.proc z).xstate
            (record s { proc = update s.proc z (freeproc (s.proc z)) })
        else failed s)
    else if kid == 0 || (s.proc me).killed
    then failed s
    else waits (sleep c me s)

-- kkill(): 0 or -1 as a Boolean.
pub kkill : ℕ → Sys → Bool × Sys
kkill pid s =
    let i = first_slot nproc 1 (λ p. p.pid == pid) s.proc in
    let p = s.proc i in
    if i == 0 then (false, s) else (
      true,
      record s {
        proc =
            update s.proc i (record p {
              killed = true;
              state = if is_sleeping p.state then runnable else p.state;
            });
      },
    )

pub setkilled : ℕ → Sys → Sys
setkilled i s = record s { proc = update s.proc i (record (s.proc i) { killed = true }) }
