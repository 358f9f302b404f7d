-- ===== src/Spinlock/Tests.antt =====
-- Tests of spinlock.c: CPU 1 has taken the lock and not yet stored lk->cpu, while CPU 2 spins.
use cs3500_os.Base.{◌≡◌, refl, true, false, ==→ne}
use cs3500_os.Spinlock.{Cpu, Lock, push_off, holding, acquire_start, acquire_swap, acquire_record}
use cs3500_os.Spinlock.Steps.{
  outside, spinning, got, inside, is_inside, World, at_phase, at_cpu, Reach, start, next, starts,
  spins, takes, records,
}
use cs3500_os.Spinlock.Exclusion.{HasOwner, Proceeds, Reach-HasOwner}

abbrev running : Cpu
running = record { noff = 0; intena = false; intr = true }

abbrev booted : World
booted = record {
  lock = record { locked = false; cpu = 0 };
  phase = λ c. outside;
  cpus = λ c. running;
}

abbrev both_spin : World
both_spin = at_cpu (at_cpu booted 1 spinning (push_off running)) 2 spinning (push_off running)

abbrev taken : Lock
taken = record { locked = true; cpu = 0 }

abbrev one_took : World
one_took = at_phase (at_phase both_spin 1 got taken) 2 spinning taken

one_took-Reach : Reach one_took
unfolding acquire_start acquire_swap holding
one_took-Reach =
    next
      (next
        (next (next (start (λ c. running)) (starts 1 (push_off running) refl refl refl))
          (starts 2 (push_off running) refl refl refl))
        (takes 1 refl refl refl))
      (spins 2 refl refl refl)

-- Then CPU 1 stores lk->cpu.
abbrev one_inside : World
one_inside = at_phase one_took 1 inside (record { locked = true; cpu = 1 })

one_inside-Reach : Reach one_inside
unfolding acquire_record
one_inside-Reach = next one_took-Reach (records 1 refl refl)

Reach-HasOwner_example :
    HasOwner one_inside
    × (holding 1 one_inside.lock ≡ is_inside (one_inside.phase 1))
    × Proceeds one_inside 1 (one_inside.phase 1)
Reach-HasOwner_example = Reach-HasOwner one_inside 1 one_inside-Reach (==→ne 1 0 refl)
