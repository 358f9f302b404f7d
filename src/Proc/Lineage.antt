-- ===== src/Proc/Lineage.antt =====
-- proc.c: every step keeps the pids and parents in order.
use cs3500_os.Base.{ℕ, ◌≡◌, refl, sym, ◌⊎◌, inl, inr, Bool, arith, ◌==◌, update, Bool-cases, subst}
use cs3500_os.Proc.{
  running, Proc, Sys, nproc, is_runnable, first_slot, sleep, sleep_end, yield, run_slot, reaped,
  kwait, kkill, setkilled,
}
use cs3500_os.Proc.Wakeups.{wakeup-Touched}
use cs3500_os.Proc.Waits.{kwait-reaped}
use cs3500_os.Proc.Family.{
  kind, IsFamily, Alike, Alike-IsFamily, update-Alike, kind_awake, kind_runnable, kind_zombie,
  Touched-Alike, free-IsFamily, fork_finish-IsFamily,
}
use cs3500_os.Proc.Generations.{begin-IsFamily, kexit_ok, exited-IsFamily}
use cs3500_os.Proc.Steps.{
  Step, begins, finishes, exits, sleeps, wakes_up, yields, runs, wakes, reaps, kills, marks,
}

module _ (init : ℕ) where
  -- A slot's state changes within its kind.
  same_kind :
      (s : Sys) (i : ℕ) (p : Proc) (f : ℕ → ℕ)
      → IsFamily init s
      → Alike init (s.proc i) p
      → IsFamily init (record s { proc = update s.proc i p; current = f })
  same_kind s i p f v a = Alike-IsFamily init s _ refl (update-Alike init s.proc i p a) v

  run-IsFamily : (s : Sys) (c i : ℕ) → IsFamily init s → IsFamily init (run_slot c i s)
  unfolding run_slot
  run-IsFamily s c i v = elim (Bool-cases (is_runnable (s.proc i).state)) [
    | inl can ↦
        let k = kind_runnable init (s.proc i).state can in
        rw can (same_kind s i (record (s.proc i) { state = running }) _ v (refl, refl, sym k))
    | inr cannot ↦ rw cannot v
  ]

  kill-IsFamily : (s : Sys) (pid : ℕ) → IsFamily init s → IsFamily init (kkill pid s).1
  unfolding kkill
  kill-IsFamily s pid v = elim (Bool-cases (i == 0)) [
    | inl none_here ↦ rw none_here v
    | inr found ↦
        rw found (same_kind s i _ s.current v (refl, refl, kind_awake init (s.proc i).state))
  ]
    where
      i : ℕ
      i = first_slot nproc 1 (λ p. p.pid == pid) s.proc

  reap-IsFamily :
      (s s' : Sys) (c pid status : ℕ) (copied : Bool)
      → IsFamily init s
      → kwait c copied s ≡ reaped pid status s'
      → IsFamily init s'
  reap-IsFamily s s' c pid status copied v e =
      let (z, slot, dead, _, _, _, after) = kwait-reaped c pid status copied s s' e in
      let k = kind_zombie init (s.proc z).state (ground (arith, dead)) in
      subst (IsFamily init) (sym after)
        (free-IsFamily init s z s.nextpid v (ground (arith, k)) (omega arith))

  pub Step-IsFamily :
      (s s' : Sys)
      → IsFamily init s
      → ((c : ℕ) → (s.current c ≡ 0) ⊎ (kind (s.proc (s.current c)).state ≡ 2))
      → Step init s s'
      → IsFamily init s'
  unfolding sleep sleep_end yield setkilled
  Step-IsFamily s s' v alive (begins memory copied small e) =
      rw e (begin-IsFamily init memory copied s v small)
  Step-IsFamily s s' v alive (finishes c np on new e) =
      rw e (fork_finish-IsFamily init s (s.current c) np v (ground (arith, alive c)) new)
  Step-IsFamily s s' v alive (exits c status on e) =
      let (other, after) = kexit_ok init s s' c status e in
      subst (IsFamily init) after
        (exited-IsFamily init s c status v (ground (arith, alive c)) other)
  Step-IsFamily s s' v alive (sleeps c chan on e) =
      rw e (same_kind s (s.current c) _ _ v (refl, refl, ground (arith, alive c)))
  Step-IsFamily s s' v alive (wakes_up c on e) =
      rw e (same_kind s (s.current c) _ _ v (refl, refl, refl))
  Step-IsFamily s s' v alive (yields c on e) =
      rw e (same_kind s (s.current c) _ _ v (refl, refl, ground (arith, alive c)))
  Step-IsFamily s s' v alive (runs c i off e) = rw e (run-IsFamily s c i v)
  Step-IsFamily s s' v alive (wakes me chan e) = rw e (
      Alike-IsFamily init s _ refl
        (λ i. Touched-Alike init chan (s.proc i) _ (wakeup-Touched me chan s.proc i)) v)
  Step-IsFamily s s' v alive (reaps c pid status copied on e) =
      reap-IsFamily s s' c pid status copied v e
  Step-IsFamily s s' v alive (kills pid e) = rw e (kill-IsFamily s pid v)
  Step-IsFamily s s' v alive (marks i e) = rw e (same_kind s i _ s.current v (refl, refl, refl))
