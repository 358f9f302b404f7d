-- ===== src/Proc/Tests.antt =====
-- proc.c: runs of the process table, and its theorems at them.
use cs3500_os.Base.{◌≡◌, refl, true, arith, ==→ne}
use cs3500_os.Proc.{
  runnable, Sys, first_slot, allocproc, procinit, userinit, fork_begin, fork_finish, kexit, sleep,
  run_slot, kwait, kkill,
}
use cs3500_os.Proc.Waits.{Waits, kwait-Waits}
use cs3500_os.Proc.Family.{IsFamily}
use cs3500_os.Proc.Cpus.{IsScheduled}
use cs3500_os.Proc.Reaches.{Reach-IsSound, boot-IsFamily}
use cs3500_os.Proc.Generations.{exited}
use cs3500_os.Proc.Exits.{pid_zero, kexit_wakes_parent, kkill_zero}
use cs3500_os.Proc.Steps.{begins, finishes, exits, sleeps, runs, Reach, boot, next}

-- Process 1 runs on CPU 0, forks process 2, which runs on CPU 1, waits for it, and it exits.
abbrev booted : Sys
booted = (userinit true procinit).1

abbrev ran : Sys
ran = run_slot 0 1 booted

abbrev begun : Sys
begun = (fork_begin true true ran).1

abbrev forked : Sys
forked = fork_finish 1 2 begun

abbrev both_run : Sys
both_run = run_slot 1 2 forked

abbrev waiting : Sys
waiting = sleep 0 1 both_run

abbrev child_gone : Sys
child_gone = exited 1 1 7 waiting

reached : Reach child_gone
unfolding userinit procinit allocproc first_slot run_slot fork_begin fork_finish sleep kexit
reached =
    next
      (next
        (next
          (next (next (next boot (runs 0 1 refl refl)) (begins true true (omega arith) refl))
            (finishes 0 2 (==→ne 1 0 refl) refl refl))
          (runs 1 2 refl refl))
        (sleeps 0 1 (==→ne 1 0 refl) refl))
      (exits 1 7 (==→ne 2 0 refl) refl)

Reach-IsSound_example : IsFamily 1 child_gone × IsScheduled child_gone
Reach-IsSound_example = Reach-IsSound child_gone reached

kexit_wakes_parent_example : (child_gone.proc 1).state ≡ runnable
unfolding userinit procinit allocproc first_slot run_slot fork_begin fork_finish sleep kexit
kexit_wakes_parent_example =
    kexit_wakes_parent 1 1 7 1 waiting child_gone refl refl (==→ne 1 2 refl) refl refl refl

kkill_zero_example :
    ((allocproc true (kkill 0 booted).1).1.proc (allocproc true (kkill 0 booted).1).0).killed ≡ true
unfolding userinit procinit allocproc first_slot kkill
kkill_zero_example = kkill_zero booted (pid_zero 1 booted boot-IsFamily) refl

kwait-Waits_example : Waits 0 true both_run (kwait 0 true both_run)
kwait-Waits_example = kwait-Waits 0 true both_run
