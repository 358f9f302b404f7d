-- ===== src/Proc/Cpus.antt =====
-- proc.c: which process each CPU runs.
use cs3500_os.Base.{
  ℕ, ◌≡◌, ◌≢◌, refl, sym, ◌∙◌, ◌⊎◌, inl, inr, Bool, arith, ◌==◌, if◌then◌else◌, update, Bool-cases,
  subst, ne→==,
}
use cs3500_os.Proc.{
  running, Proc, Table, Sys, nproc, is_runnable, first_slot, freeproc, allocproc, fork_begin,
  wakeup, reparent, run_slot, reaped, kwait, kkill,
}
use cs3500_os.Proc.Wakeups.{is_slot, Touched, adopted, reparent-Touched, wakeup-Touched}
use cs3500_os.Proc.Waits.{Allocates, no_slot, no_memory, makes, allocproc-Allocates, kwait-reaped}
use cs3500_os.Proc.Family.{kind}
use cs3500_os.Proc.Generations.{exited}

-- The process of a CPU is running, and no other CPU has it.
pub record IsScheduled (s : Sys) : Type 0 where
  pub runs_it : (c : ℕ) → (s.current c ≡ 0) ⊎ ((s.proc (s.current c)).state ≡ running)
  pub apart : (c d : ℕ) → (c ≡ d) ⊎ (s.current c ≡ 0) ⊎ (s.current c ≢ s.current d)

-- Every running process keeps running.
abbrev pub Keeps : Sys → Sys → Type 0
Keeps s s' =
    ((c : ℕ) → s'.current c ≡ s.current c)
    × ((i : ℕ) → (s.proc i).state ≡ running → (s'.proc i).state ≡ running)

pub Keeps-IsScheduled : (s s' : Sys) → Keeps s s' → IsScheduled s → IsScheduled s'
Keeps-IsScheduled s s' (same, keeps) v = record {
  runs_it = λ c. elim (v.runs_it c) [
    | inl off ↦ inl (same c ∙ off)
    | inr on ↦
        inr (subst (λ i. (s'.proc i).state ≡ running) (sym (same c)) (keeps (s.current c) on))
  ];
  apart = λ c d. ground (arith, v.apart c d, same c, same d);
}

-- CPU c gives up its process, and every other running process keeps running.
pub leaves-IsScheduled :
    (s : Sys) (c : ℕ) (t : Table)
    → s.current c ≢ 0
    → ((i : ℕ) → i ≢ s.current c → (s.proc i).state ≡ running → (t i).state ≡ running)
    → IsScheduled s
    → IsScheduled (record s { proc = t; current = update s.current c 0 })
leaves-IsScheduled s c t on keeps v = record {
  runs_it = λ d. elim (Bool-cases (c == d)) [
    | inl same ↦ rw same (inl refl)
    | inr other ↦ rw other (elim (v.runs_it d) [
      | inl off ↦ inl off
      | inr runs_d ↦ elim (v.apart d c) [
        | inl e ↦ absurd (ground (arith, e, other))
        | inr (inl off) ↦ inl off
        | inr (inr differ) ↦ inr (keeps (s.current d) differ runs_d)
      ]
    ])
  ];
  apart = λ d e. ground (arith, v.apart d e);
}

pub run-IsScheduled :
    (s : Sys) (c i : ℕ)
    → s.current c ≡ 0
    → kind (s.proc 0).state ≡ 0
    → IsScheduled s
    → IsScheduled (run_slot c i s)
unfolding run_slot
run-IsScheduled s c i off idle v = elim (Bool-cases (is_runnable (s.proc i).state)) [
  | inl can ↦ rw can (record {
    runs_it = λ d. ground (arith, v.runs_it d, can, idle);
    apart = λ d e. ground (arith, v.apart d e, v.runs_it d, v.runs_it e, can);
  })
  | inr cannot ↦ rw cannot v
]

pub begin-Keeps : (memory copied : Bool) (s : Sys) → Keeps s (fork_begin memory copied s).1
unfolding fork_begin freeproc
begin-Keeps memory copied s = go (allocproc memory s) (allocproc-Allocates memory s)
  where
    start : ℕ × Sys → ℕ × Sys
    start r =
        let (np, s') = r in
        if np == 0
        then (0, s')
        else if copied
        then (np, s')
        else (0, record s' { proc = update s'.proc np (freeproc (s'.proc np)) })

    go : (r : ℕ × Sys) → Allocates memory s r → Keeps s (start r).1
    go r (no_slot h) = (λ c. refl, λ i h. h)
    go r (no_memory i slot free m) = (λ c. refl, λ j h. ground (arith, free, h))
    go r (makes i slot free m) = elim (Bool-cases copied) [
      | inl good ↦
          rw (ne→== i 0 (ground (arith, slot)), good) (λ c. refl, λ j h. ground (arith, free, h))
      | inr bad ↦
          rw (ne→== i 0 (ground (arith, slot)), bad) (λ c. refl, λ j h. ground (arith, free, h))
    ]

pub kill-Keeps : (pid : ℕ) (s : Sys) → Keeps s (kkill pid s).1
unfolding kkill
kill-Keeps pid s = elim (Bool-cases (i == 0)) [
  | inl none_here ↦ rw none_here (λ c. refl, λ j h. h)
  | inr found ↦ rw found (λ c. refl, λ j h. ground (arith, h))
]
  where
    i : ℕ
    i = first_slot nproc 1 (λ p. p.pid == pid) s.proc

pub reap-Keeps :
    (s s' : Sys) (c pid status : ℕ) (copied : Bool)
    → kwait c copied s ≡ reaped pid status s'
    → Keeps s s'
unfolding freeproc
reap-Keeps s s' c pid status copied e =
    let (z, slot, dead, _, _, _, after) = kwait-reaped c pid status copied s s' e in
    rw after (λ c. refl, λ j h. ground (arith, dead, h))

pub Touched-running :
    (chan : ℕ) (p p' : Proc) → Touched chan p p' → p.state ≡ running → p'.state ≡ running
Touched-running chan p p' (inl e) h = rw e h
Touched-running chan p p' (inr (on, e)) h = absurd (ground (arith, on, h))

pub exited-IsScheduled :
    (init : ℕ) (s : Sys) (c status : ℕ)
    → s.current c ≢ 0
    → IsScheduled s
    → IsScheduled (exited init c status s)
exited-IsScheduled init s c status on v =
    leaves-IsScheduled s c _ on
      (λ i other h.
        let t : Table = reparent init (s.current c) s.proc in
        let a =
          Touched-running init (adopted init (s.current c) (is_slot i) (s.proc i)) (t i)
            (reparent-Touched init (s.current c) s.proc i) (ground (arith, h)) in
        let b =
          Touched-running (t (s.current c)).parent (t i)
            (wakeup (s.current c) (t (s.current c)).parent t i)
            (wakeup-Touched (s.current c) (t (s.current c)).parent t i) a in
        ground (arith, b, other))
      v
