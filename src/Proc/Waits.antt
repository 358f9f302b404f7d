-- ===== src/Proc/Waits.antt =====
-- proc.c: what kwait() and allocproc() find in the table.
use cs3500_os.Base.{
  ℕ, ◌+◌, ◌%◌, ◌^◌, ◌≤◌, ◌<◌, ◌≡◌, refl, ◌⊎◌, inl, inr, Bool, true, false, ◌&&◌, ◌||◌, not, arith,
  ◌==◌, if◌then◌else◌, update, Bool-cases, subst, ne→==, eq→==,
}
use cs3500_os.Proc.{
  used, Proc, Table, Sys, nproc, is_unused, is_zombie, first_slot, freeproc, allocproc, sleep,
  Waited, reaped, failed, waits, kwait,
}
use cs3500_os.Proc.Loops.{Found, first_slot-Found}
use cs3500_os.Proc.Wakeups.{is_slot}

-- A child of `me` that has exited.
abbrev pub is_dead_child : ℕ → Proc → Bool
is_dead_child me p = p.parent == me && is_zombie p.state

abbrev pub is_child : ℕ → Proc → Bool
is_child me p = p.parent == me

-- No slot passes the test.
abbrev pub NoSlot : (Proc → Bool) → Table → Type 0
NoSlot test t = (k : ℕ) → 1 ≤ k → k < 65 → test (t k) ≡ false

-- What a round of kwait() does.
abbrev pub Waits : ℕ → Bool → Sys → Waited → Type 0
Waits c copied s (reaped pid status s') =
    (z : ℕ) × (is_slot z ≡ true)
    × (is_dead_child (s.current c) (s.proc z) ≡ true)
    × (copied ≡ true)
    × (pid ≡ (s.proc z).pid)
    × (status ≡ (s.proc z).xstate)
    × (s' ≡ record s { proc = update s.proc z (freeproc (s.proc z)) })
Waits c copied s (failed s') =
    (s' ≡ s)
    × ((copied ≡ false)
        ⊎ (NoSlot (is_child (s.current c)) s.proc
            ⊎ (NoSlot (is_dead_child (s.current c)) s.proc
                × ((s.proc (s.current c)).killed ≡ true))))
Waits c copied s (waits s') =
    (s' ≡ sleep c (s.current c) s)
    × NoSlot (is_dead_child (s.current c)) s.proc
    × ((k : ℕ) × (is_slot k ≡ true) × (is_child (s.current c) (s.proc k) ≡ true))
    × ((s.proc (s.current c)).killed ≡ false)

-- A round of kwait frees a slot in which a child of the caller is a zombie and answers its pid and
-- status, with a copyout that succeeds; or it changes nothing and fails, and the copyout failed,
-- or the caller has no children, or no child is a zombie and the caller is killed; or it sleeps on
-- the caller, which is not killed and has a child, of which none is a zombie.
pub kwait-Waits : (c : ℕ) (copied : Bool) (s : Sys) → Waits c copied s (kwait c copied s)
unfolding kwait
kwait-Waits c copied s =
    go (first_slot nproc 1 (is_dead_child me) s.proc)
      (first_slot-Found 64 1 (is_dead_child me) s.proc) (first_slot nproc 1 (is_child me) s.proc)
      (first_slot-Found 64 1 (is_child me) s.proc)
  where
    me : ℕ
    me = s.current c

    go :
        (z : ℕ)
        → Found 64 1 (is_dead_child me) s.proc z
        → (kid : ℕ) → Found 64 1 (is_child me) s.proc kid
        → Waits c copied s (
            if not (z == 0)
            then (if copied
                then reaped
                    (s.proc z).pid
                    (s.proc z).xstate
                    (record s { proc = update s.proc z (freeproc (s.proc z)) })
                else failed s)
            else if kid == 0 || (s.proc me).killed
            then failed s
            else waits (sleep c me s))
    go z (inr (lo, hi, dead)) kid g = elim (Bool-cases copied) [
      | inl good ↦
          simp (ne→== z 0 (omega arith), good) (z, ground arith, dead, refl, refl, refl, refl)
      | inr bad ↦ simp (ne→== z 0 (omega arith), bad) (refl, inl refl)
    ]
    go z (inl (e, alive)) kid (inl (e', childless)) =
        simp (eq→== z 0 e, eq→== kid 0 e') (refl, inr (inl childless))
    go z (inl (e, alive)) kid (inr (lo, hi, child)) = elim (Bool-cases (s.proc me).killed) [
      | inl killed ↦
          simp (eq→== z 0 e, ne→== kid 0 (omega arith), killed) (refl, inr (inr (alive, refl)))
      | inr live ↦
          simp (eq→== z 0 e, ne→== kid 0 (omega arith), live)
            (refl, alive, (kid, ground arith, child), refl)
    ]

pub kwait-reaped :
    (c pid status : ℕ) (copied : Bool) (s s' : Sys)
    → kwait c copied s ≡ reaped pid status s'
    → Waits c copied s (reaped pid status s')
kwait-reaped c pid status copied s s' e = subst (Waits c copied s) e (kwait-Waits c copied s)

-- The states that allocproc() may leave.
abbrev pub made : Sys → ℕ → Sys
made s i = record s {
  proc = update s.proc i (record (s.proc i) { pid = s.nextpid; state = used });
  nextpid = (s.nextpid + 1) % 2 ^ 32;
}

abbrev pub spoilt : Sys → ℕ → Sys
spoilt s i = record s {
  proc = update s.proc i (freeproc (record (s.proc i) { pid = s.nextpid; state = used }));
  nextpid = (s.nextpid + 1) % 2 ^ 32;
}

pub data Allocates (memory : Bool) (s : Sys) : ℕ × Sys → Type 0 where
  no_slot : NoSlot (λ p. is_unused p.state) s.proc → Allocates memory s (0, s)
  no_memory :
      (i : ℕ)
      → is_slot i ≡ true
      → is_unused (s.proc i).state ≡ true
      → memory ≡ false
      → Allocates memory s (0, spoilt s i)
  makes :
      (i : ℕ)
      → is_slot i ≡ true
      → is_unused (s.proc i).state ≡ true
      → memory ≡ true
      → Allocates memory s (i, made s i)

pub allocproc-Allocates : (memory : Bool) (s : Sys) → Allocates memory s (allocproc memory s)
unfolding allocproc
allocproc-Allocates memory s = elim (first_slot-Found 64 1 (λ p. is_unused p.state) s.proc) [
  | inl (e, h) ↦ rw (eq→== _ 0 e) (no_slot h)
  | inr (lo, hi, free) ↦ elim (Bool-cases memory) [
    | inl good ↦
        rw (ne→== (first_slot 64 1 (λ p. is_unused p.state) s.proc) 0 (omega arith), good)
          (makes _ (ground arith) free refl)
    | inr bad ↦
        rw (ne→== (first_slot 64 1 (λ p. is_unused p.state) s.proc) 0 (omega arith), bad)
          (no_memory _ (ground arith) free refl)
  ]
]
