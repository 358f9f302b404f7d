-- ===== src/Proc/Exits.antt =====
-- proc.c: kexit() wakes the parent, and kkill(0) marks a free slot.
use cs3500_os.Base.{
  ℕ, zero, suc, ◌+◌, ◌≡◌, ◌≢◌, refl, sym, ap, ◌∙◌, ◌⊎◌, inl, inr, Bool, true, arith, ◌==◌,
  if◌then◌else◌, update, Bool-cases, ok, subst, ne→==, ==→ne,
}
use cs3500_os.Proc.{
  sleeping, runnable, Proc, Table, Sys, nproc, is_unused, is_sleeping, first_slot, allocproc,
  wakeup, reparent, kexit, kkill,
}
use cs3500_os.Proc.Wakeups.{is_slot, wakeup_slots, Touched, adopted, reparent-Touched}
use cs3500_os.Proc.Waits.{made}
use cs3500_os.Proc.Family.{IsFamily, Touched-Alike}
use cs3500_os.Proc.Generations.{kexit_ok}

-- A sleeper on the channel is woken, whoever else is not the caller.
wakeup_wakes :
    (me chan : ℕ) (t : Table) (j : ℕ)
    → is_slot j ≡ true
    → j ≢ me
    → ((t j).state ≡ runnable) ⊎ (((t j).state ≡ sleeping) × ((t j).chan ≡ chan))
    → (wakeup me chan t j).state ≡ runnable
wakeup_wakes me chan t j slot other h =
    ap (λ p. p.state) (wakeup_slots me chan t j) ∙ ground (arith, slot, other, h)

-- After reparent() a sleeper still sleeps on its channel, or it has been woken.
sleeper :
    (init me : ℕ) (b : Bool) (chan : ℕ) (p p' : Proc)
    → p.state ≡ sleeping
    → p.chan ≡ chan
    → Touched init (adopted init me b p) p'
    → (p'.state ≡ runnable) ⊎ ((p'.state ≡ sleeping) × (p'.chan ≡ chan))
sleeper init me b chan p p' asleep on (inl e) =
    rw e (inr (ground (arith, asleep), ground (arith, on)))
sleeper init me b chan p p' asleep on (inr (a, e)) = rw e (inl refl)

-- If kexit of the process on a CPU returns, and the parent of the process is another slot of the
-- table that sleeps on its own channel, as in kwait, then the parent is RUNNABLE afterwards.
pub kexit_wakes_parent :
    (init c status j : ℕ) (s s' : Sys)
    → kexit init c status s ≡ ok s'
    → (s.proc (s.current c)).parent ≡ j
    → j ≢ s.current c
    → is_slot j ≡ true
    → (s.proc j).state ≡ sleeping
    → (s.proc j).chan ≡ j
    → (s'.proc j).state ≡ runnable
kexit_wakes_parent init c status j s s' e par other slot asleep chan =
    let me = s.current c in
    let t : Table = reparent init me s.proc in
    let mine =
      Touched-Alike init init (adopted init me (is_slot me) (s.proc me)) (t me)
        (reparent-Touched init me s.proc me) in
    let up : (t me).parent ≡ j = mine.1 ∙ ground (arith, par, other) in
    let woke = wakeup_wakes me (t me).parent t j slot other (
      sleeper init me (is_slot j) (t me).parent (s.proc j) (t j) asleep (chan ∙ sym up)
        (reparent-Touched init me s.proc j)) in
    subst (λ u. (u.proc j).state ≡ runnable) (kexit_ok init s s' c status e).1
      (ground (arith, woke, other))

-- Two tests that agree on every slot stop the loop at the same slot.
first_slot-ext :
    (f g : Proc → Bool) (t u : Table)
    → ((i : ℕ) → f (t i) ≡ g (u i))
    → (n i : ℕ) → first_slot n i f t ≡ first_slot n i g u
unfolding first_slot
first_slot-ext f g t u same zero i = refl
first_slot-ext f g t u same (suc n) i =
    ground (arith, same i, first_slot-ext f g t u same n (i + 1))

pub pid_zero :
    (init : ℕ) (s : Sys)
    → IsFamily init s
    → (i : ℕ) → is_unused (s.proc i).state ≡ ((s.proc i).pid == 0)
pid_zero init s v i = ground (arith, v.free i, v.pids i)

allocproc_at :
    (s : Sys) (i : ℕ)
    → first_slot nproc 1 (λ p. is_unused p.state) s.proc ≡ i
    → i ≢ 0
    → allocproc true s ≡ (i, made s i)
unfolding allocproc
allocproc_at s i e some_slot = rw (e, ne→== i 0 some_slot) refl

kkill-true :
    (pid : ℕ) (s : Sys)
    → (kkill pid s).0 ≡ true
    → let i = first_slot nproc 1 (λ p. p.pid == pid) s.proc in
      (i ≢ 0)
      × ((kkill pid s).1 ≡ record s {
        proc = update s.proc i (record (s.proc i) {
          killed = true;
          state = if is_sleeping (s.proc i).state then runnable else (s.proc i).state;
        });
      })
unfolding kkill
kkill-true pid s e = elim (Bool-cases (first_slot nproc 1 (λ p. p.pid == pid) s.proc == 0)) [
  | inl none_here ↦ absurd (ground (arith, e, none_here))
  | inr found ↦ (==→ne _ 0 found, rw found refl)
]

kept :
    (s : Sys) (i j : ℕ)
    → let p = s.proc i in
      is_unused
        (update s.proc i
          (record p { killed = true; state = if is_sleeping p.state then runnable else p.state })
          j).state
      ≡ is_unused (s.proc j).state
kept s i j = ground arith

-- In a state where exactly the free slots have pid 0: if kkill(0) answers 0, then the next process
-- that allocproc makes is killed from the start.
pub kkill_zero :
    (s : Sys)
    → ((i : ℕ) → is_unused (s.proc i).state ≡ (s.proc i).pid == 0)
    → (kkill 0 s).0 ≡ true
    → ((allocproc true (kkill 0 s).1).1.proc (allocproc true (kkill 0 s).1).0).killed ≡ true
kkill_zero s v e =
    let i = first_slot nproc 1 (λ p. p.pid == 0) s.proc in
    let (some_slot, after) = kkill-true 0 s e in
    let same =
      first_slot-ext (λ p. is_unused p.state) (λ p. p.pid == 0) (kkill 0 s).1.proc s.proc
        (λ j. rw after (kept s i j) ∙ v j) 64 1 in
    let alloc = allocproc_at (kkill 0 s).1 i same some_slot in rw (alloc, after) (ground arith)
