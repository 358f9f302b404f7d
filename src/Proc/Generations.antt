-- ===== src/Proc/Generations.antt =====
-- proc.c: pids and parents, while processes are made and exit.
use cs3500_os.Base.{
  ℕ, ◌+◌, ◌%◌, ◌^◌, ◌<◌, ◌≡◌, ◌≢◌, refl, sym, ap, ◌∙◌, inl, inr, Bool, arith, ◌==◌, if◌then◌else◌,
  update, Bool-cases, ok, subst, ne→==, ==→ne,
}
use cs3500_os.Proc.{
  used, zombie, Proc, Table, Sys, freeproc, allocproc, fork_begin, wakeup, reparent, kexit,
}
use cs3500_os.Proc.Wakeups.{is_slot, adopted, reparent-Touched, wakeup-Touched}
use cs3500_os.Proc.Waits.{Allocates, no_slot, no_memory, makes, made, allocproc-Allocates}
use cs3500_os.Proc.Family.{kind, IsFamily, kind_unused, Touched-Alike, free-IsFamily, make-IsFamily}

module _ (init : ℕ) where
  -- kfork() to its release of the new slot
  pub begin-IsFamily :
      (memory copied : Bool) (s : Sys)
      → IsFamily init s
      → s.nextpid + 1 < 2 ^ 32
      → IsFamily init (fork_begin memory copied s).1
  unfolding fork_begin freeproc
  begin-IsFamily memory copied s v small = go (allocproc memory s) (allocproc-Allocates memory s)
    where
      wraps : (s.nextpid + 1) % 2 ^ 32 ≡ s.nextpid + 1
      wraps = omega arith

      start : ℕ × Sys → ℕ × Sys
      start r =
          let (np, s') = r in
          if np == 0
          then (0, s')
          else if copied
          then (np, s')
          else (0, record s' { proc = update s'.proc np (freeproc (s'.proc np)) })

      go : (r : ℕ × Sys) → Allocates memory s r → IsFamily init (start r).1
      go r (no_slot h) = v
      go r (no_memory i slot free m) =
          let k = kind_unused init (s.proc i).state free in
          subst
            (λ n.
              IsFamily init
                (record s { proc = update s.proc i (freeproc (s.proc i)); nextpid = n }))
            (sym wraps) (free-IsFamily init s i (s.nextpid + 1) v (omega arith) (omega arith))
      go r (makes i slot free m) =
          let k = kind_unused init (s.proc i).state free in
          let held : IsFamily init (made s i) =
            subst
              (λ n. IsFamily init (record s {
                proc = update s.proc i (record (s.proc i) { pid = s.nextpid; state = used });
                nextpid = n;
              }))
              (sym wraps) (make-IsFamily init s i v slot k) in
          elim (Bool-cases copied) [
            | inl good ↦ rw (ne→== i 0 (ground (arith, slot)), good) held
            | inr bad ↦
                rw (ne→== i 0 (ground (arith, slot)), bad)
                  (free-IsFamily init (made s i) i ((s.nextpid + 1) % 2 ^ 32) held (ground arith)
                    (omega arith))
          ]

  -- A process that is not init dies, with its children given to init.
  gone-IsFamily :
      (s s' : Sys) (me : ℕ)
      → IsFamily init s
      → kind (s.proc me).state ≡ 2
      → me ≢ init
      → s'.nextpid ≡ s.nextpid
      → ((j : ℕ)
          → ((s'.proc j).pid ≡ (s.proc j).pid)
            × ((s'.proc j).parent ≡ (adopted init me (is_slot j) (s.proc j)).parent)
            × (kind (s'.proc j).state ≡ (if j == me then 3 else kind (s.proc j).state)))
      → IsFamily init s'
  gone-IsFamily s s' me v alive other n a = record {
    slots = λ j. ground (arith, a j, v.slots j);
    free = λ j. ground (arith, a j, v.free j);
    pids = λ j. ground (arith, a j, v.pids j, n);
    distinct = λ j k. ground (arith, a j, a k, v.distinct j k);
    parents = λ j. ground (arith, a j, a init, a (s.proc j).parent, v.parents j, v.slots j, v.root);
    root = ground (arith, a init, v.root);
    counts = ground (arith, v.counts, n);
  }

  -- The state that kexit() leaves.
  abbrev pub exited : ℕ → ℕ → Sys → Sys
  exited c status s =
      let me = s.current c in
      let t = reparent init me s.proc in
      let t' = wakeup me (t me).parent t in
      record s {
        proc = update t' me (record (t' me) { xstate = status; state = zombie });
        current = update s.current c 0;
      }

  pub kexit_ok :
      (s s' : Sys) (c status : ℕ)
      → kexit init c status s ≡ ok s'
      → (s.current c ≢ init) × (exited c status s ≡ s')
  unfolding kexit
  kexit_ok s s' c status e = elim (Bool-cases (s.current c == init)) [
    | inl self ↦ absurd (ground (arith, e, self))
    | inr other ↦ (==→ne (s.current c) init other, ground (arith, e, other))
  ]

  die_slot :
      (u : Table) (me status j : ℕ)
      → let p : Proc = update u me (record (u me) { xstate = status; state = zombie }) j in
        (p.pid ≡ (u j).pid)
        × (p.parent ≡ (u j).parent)
        × (kind p.state ≡ (if j == me then 3 else kind (u j).state))
  die_slot u me status j = ground arith

  adopted-kind :
      (me : ℕ) (b : Bool) (p : Proc)
      → ((adopted init me b p).pid ≡ p.pid) × (kind (adopted init me b p).state ≡ kind p.state)
  adopted-kind me b p = ground arith

  pub exited-IsFamily :
      (s : Sys) (c status : ℕ)
      → IsFamily init s
      → kind (s.proc (s.current c)).state ≡ 2
      → s.current c ≢ init
      → IsFamily init (exited c status s)
  exited-IsFamily s c status v alive other =
      gone-IsFamily s (exited c status s) (s.current c) v alive other refl (λ j.
        let t : Table = reparent init (s.current c) s.proc in
        let a =
          Touched-Alike init init (adopted init (s.current c) (is_slot j) (s.proc j)) (t j)
            (reparent-Touched init (s.current c) s.proc j) in
        let b =
          Touched-Alike init (t (s.current c)).parent (t j)
            (wakeup (s.current c) (t (s.current c)).parent t j)
            (wakeup-Touched (s.current c) (t (s.current c)).parent t j) in
        let d = die_slot (wakeup (s.current c) (t (s.current c)).parent t) (s.current c) status j in
        let o = adopted-kind (s.current c) (is_slot j) (s.proc j) in
        (
          d.0 ∙ b.0 ∙ a.0 ∙ o.0,
          d.1 ∙ b.1 ∙ a.1,
          d.2 ∙ ap (λ k. if j == s.current c then 3 else k) (b.2 ∙ a.2 ∙ o.1),
        ))
