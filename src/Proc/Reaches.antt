-- ===== src/Proc/Reaches.antt =====
-- proc.c: what holds of the process table in every state that is reached.
use cs3500_os.Base.{ℕ, ◌≡◌, refl, ap, ◌⊎◌, inl, inr, true, arith, subst}
use cs3500_os.Proc.{
  Sys, first_slot, allocproc, procinit, userinit, fork_finish, sleep, sleep_end, yield, setkilled,
}
use cs3500_os.Proc.Wakeups.{wakeup-Touched}
use cs3500_os.Proc.Family.{kind, IsFamily}
use cs3500_os.Proc.Generations.{kexit_ok}
use cs3500_os.Proc.Cpus.{
  IsScheduled, Keeps-IsScheduled, leaves-IsScheduled, run-IsScheduled, begin-Keeps, kill-Keeps,
  reap-Keeps, exited-IsScheduled, Touched-running,
}
use cs3500_os.Proc.Lineage.{Step-IsFamily}
use cs3500_os.Proc.Steps.{
  Step, begins, finishes, exits, sleeps, wakes_up, yields, runs, wakes, reaps, kills, marks, Reach,
  boot, next,
}

pub Step-IsScheduled :
    (init : ℕ) (s s' : Sys) → IsFamily init s → IsScheduled s → Step init s s' → IsScheduled s'
unfolding sleep sleep_end yield setkilled fork_finish
Step-IsScheduled init s s' f v (begins memory copied small e) =
    rw e (Keeps-IsScheduled s _ (begin-Keeps memory copied s) v)
Step-IsScheduled init s s' f v (finishes c np on new e) =
    rw e (Keeps-IsScheduled s _ (λ d. refl, λ i h. ground (arith, h, new)) v)
Step-IsScheduled init s s' f v (exits c status on e) =
    subst IsScheduled (kexit_ok init s s' c status e).1 (exited-IsScheduled init s c status on v)
Step-IsScheduled init s s' f v (sleeps c chan on e) =
    rw e (leaves-IsScheduled s c _ on (λ i other h. ground (arith, other, h)) v)
Step-IsScheduled init s s' f v (wakes_up c on e) =
    rw e (Keeps-IsScheduled s _ (λ d. refl, λ i h. ground (arith, h)) v)
Step-IsScheduled init s s' f v (yields c on e) =
    rw e (leaves-IsScheduled s c _ on (λ i other h. ground (arith, other, h)) v)
Step-IsScheduled init s s' f v (runs c i off e) =
    rw e (run-IsScheduled s c i off (ground (arith, f.slots 0)) v)
Step-IsScheduled init s s' f v (wakes me chan e) = rw e (
    Keeps-IsScheduled s _
      (λ d. refl, λ i h. Touched-running chan (s.proc i) _ (wakeup-Touched me chan s.proc i) h) v)
Step-IsScheduled init s s' f v (reaps c pid status copied on e) =
    Keeps-IsScheduled s s' (reap-Keeps s s' c pid status copied e) v
Step-IsScheduled init s s' f v (kills pid e) = rw e (Keeps-IsScheduled s _ (kill-Keeps pid s) v)
Step-IsScheduled init s s' f v (marks i e) =
    rw e (Keeps-IsScheduled s _ (λ d. refl, λ j h. ground (arith, h)) v)

pub boot-IsFamily : IsFamily 1 (userinit true procinit).1
unfolding userinit procinit allocproc first_slot
boot-IsFamily = record {
  slots = λ i. ground arith;
  free = λ i. ground arith;
  pids = λ i. ground arith;
  distinct = λ i j. ground arith;
  parents = λ i. ground arith;
  root = refl;
  counts = omega arith;
}

boot-IsScheduled : IsScheduled (userinit true procinit).1
unfolding userinit procinit allocproc first_slot
boot-IsScheduled = record { runs_it = λ c. inl refl; apart = λ c d. inr (inl refl) }

running_alive :
    (s : Sys)
    → IsScheduled s
    → (c : ℕ) → (s.current c ≡ 0) ⊎ (kind (s.proc (s.current c)).state ≡ 2)
running_alive s v c = elim (v.runs_it c) [ inl off ↦ inl off | inr on ↦ inr (ap kind on) ]

-- In each state that the steps of processes and CPUs reach from the state after userinit, while
-- nextpid does not wrap: slots in use hold distinct positive pids below nextpid, each process that
-- is alive or a zombie, but for init, has a parent that is alive, and init is alive; each CPU that
-- is not idle runs a process that is RUNNING, and no two CPUs run the same one.
pub Reach-IsSound : (s : Sys) → Reach s → IsFamily 1 s × IsScheduled s
Reach-IsSound s boot = (boot-IsFamily, boot-IsScheduled)
Reach-IsSound s (next {s = before} r st) =
    let (f, v) = Reach-IsSound before r in
    (
      Step-IsFamily 1 before s f (λ c. running_alive before v c) st,
      Step-IsScheduled 1 before s f v st,
    )
