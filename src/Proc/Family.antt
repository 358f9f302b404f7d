-- ===== src/Proc/Family.antt =====
-- proc.c: pids and parents.
use cs3500_os.Base.{
  ℕ, ◌+◌, ◌≤◌, ◌<◌, ◌≡◌, ◌≢◌, refl, ap, ◌⊎◌, inl, inr, true, arith, ◌==◌, if◌then◌else◌, update,
  Bool-cases, subst, ==→eq,
}
use cs3500_os.Proc.{
  ProcState, unused, used, sleeping, runnable, running, zombie, Proc, Table, Sys, is_unused,
  is_sleeping, is_runnable, is_zombie, freeproc, fork_finish,
}
use cs3500_os.Proc.Wakeups.{is_slot, Touched}

-- Free, being made, alive, or dead.
abbrev pub kind : ProcState → ℕ
kind unused = 0
kind used = 1
kind sleeping = 2
kind runnable = 2
kind running = 2
kind zombie = 3

module _ (init : ℕ) where
  -- A slot that is in use has a pid of its own below nextpid, and its process, init apart, has a parent that is alive.
  pub record IsFamily (s : Sys) : Type 0 where
    pub slots : (i : ℕ) → (is_slot i ≡ true) ⊎ (kind (s.proc i).state ≡ 0)
    pub free : (i : ℕ) → (0 < kind (s.proc i).state) ⊎ ((s.proc i).pid ≡ 0)
    pub pids :
        (i : ℕ)
        → (kind (s.proc i).state ≡ 0) ⊎ ((0 < (s.proc i).pid) × ((s.proc i).pid < s.nextpid))
    pub distinct :
        (i j : ℕ)
        → (i ≡ j)
          ⊎ (kind (s.proc i).state ≡ 0)
          ⊎ (kind (s.proc j).state ≡ 0)
          ⊎ ((s.proc i).pid ≢ (s.proc j).pid)
    pub parents :
        (i : ℕ)
        → (i ≡ init) ⊎ (kind (s.proc i).state < 2) ⊎ (kind (s.proc (s.proc i).parent).state ≡ 2)
    pub root : kind (s.proc init).state ≡ 2
    pub counts : 0 < s.nextpid

  -- The same pid, parent and kind.
  abbrev pub Alike : Proc → Proc → Type 0
  Alike p p' = (p'.pid ≡ p.pid) × (p'.parent ≡ p.parent) × (kind p'.state ≡ kind p.state)

  pub Alike-IsFamily :
      (s s' : Sys)
      → s'.nextpid ≡ s.nextpid
      → ((i : ℕ) → Alike (s.proc i) (s'.proc i))
      → IsFamily s
      → IsFamily s'
  Alike-IsFamily s s' n a v = record {
    slots = λ i. ground (arith, a i, v.slots i);
    free = λ i. ground (arith, a i, v.free i);
    pids = λ i. ground (arith, a i, v.pids i, n);
    distinct = λ i j. ground (arith, a i, a j, v.distinct i j);
    parents = λ i. ground (arith, a i, a (s.proc i).parent, v.parents i);
    root = ground (arith, a init, v.root);
    counts = ground (arith, n, v.counts);
  }

  -- An update of one slot by a process that is alike.
  pub update-Alike :
      (t : Table) (i : ℕ) (p : Proc) → Alike (t i) p → (j : ℕ) → Alike (t j) (update t i p j)
  update-Alike t i p a j = elim (Bool-cases (i == j)) [
    | inl same ↦ rw same (subst (λ k. Alike (t k) p) (==→eq i j same) a)
    | inr differ ↦ rw differ (refl, refl, refl)
  ]

  pub kind_awake : (st : ProcState) → kind (if is_sleeping st then runnable else st) ≡ kind st
  kind_awake sleeping = refl
  kind_awake unused = refl
  kind_awake used = refl
  kind_awake runnable = refl
  kind_awake running = refl
  kind_awake zombie = refl

  pub kind_sleeping : (st : ProcState) → is_sleeping st ≡ true → kind st ≡ 2
  kind_sleeping sleeping h = refl
  kind_sleeping unused h = cc
  kind_sleeping used h = cc
  kind_sleeping runnable h = refl
  kind_sleeping running h = refl
  kind_sleeping zombie h = cc

  pub kind_runnable : (st : ProcState) → is_runnable st ≡ true → kind st ≡ 2
  kind_runnable runnable h = refl
  kind_runnable unused h = cc
  kind_runnable used h = cc
  kind_runnable sleeping h = refl
  kind_runnable running h = refl
  kind_runnable zombie h = cc

  pub kind_zombie : (st : ProcState) → is_zombie st ≡ true → kind st ≡ 3
  kind_zombie zombie h = refl
  kind_zombie unused h = cc
  kind_zombie used h = cc
  kind_zombie sleeping h = cc
  kind_zombie runnable h = cc
  kind_zombie running h = cc

  pub kind_unused : (st : ProcState) → is_unused st ≡ true → kind st ≡ 0
  kind_unused unused h = refl
  kind_unused used h = cc
  kind_unused zombie h = cc
  kind_unused sleeping h = cc
  kind_unused runnable h = cc
  kind_unused running h = cc

  pub Touched-Alike : (chan : ℕ) (p p' : Proc) → Touched chan p p' → Alike p p'
  Touched-Alike chan p p' (inl e) = rw e (refl, refl, refl)
  Touched-Alike chan p p' (inr (on, e)) =
      let k = kind_sleeping p.state in rw e (refl, refl, ground (arith, k, on))

  -- A slot whose process is not alive becomes free.
  pub free-IsFamily :
      (s : Sys) (i n : ℕ)
      → IsFamily s
      → kind (s.proc i).state ≢ 2
      → s.nextpid ≤ n
      → IsFamily (record s { proc = update s.proc i (freeproc (s.proc i)); nextpid = n })
  unfolding freeproc
  free-IsFamily s i n v dead le = record {
    slots = λ j. ground (arith, v.slots j);
    free = λ j. ground (arith, v.free j);
    pids = λ j. ground (arith, v.pids j);
    distinct = λ j k. ground (arith, v.distinct j k);
    parents = λ j. ground (arith, v.parents j);
    root = ground (arith, v.root);
    counts = ground (arith, v.counts);
  }

  -- A free slot gets a process in the making.
  pub make-IsFamily :
      (s : Sys) (i : ℕ)
      → IsFamily s
      → is_slot i ≡ true
      → kind (s.proc i).state ≡ 0
      → IsFamily (record s {
        proc = update s.proc i (record (s.proc i) { pid = s.nextpid; state = used });
        nextpid = s.nextpid + 1;
      })
  make-IsFamily s i v slot free = record {
    slots = λ j. ground (arith, v.slots j);
    free = λ j. ground (arith, v.free j, v.counts);
    pids = λ j. ground (arith, v.pids j, v.counts);
    distinct = λ j k. ground (arith, v.distinct j k, v.pids j, v.pids k);
    parents = λ j. ground (arith, v.parents j);
    root = ground (arith, v.root);
    counts = ground (arith, v.counts);
  }

  pub fork_finish-IsFamily :
      (s : Sys) (me np : ℕ)
      → IsFamily s
      → kind (s.proc me).state ≡ 2
      → (s.proc np).state ≡ used
      → IsFamily (fork_finish me np s)
  unfolding fork_finish
  fork_finish-IsFamily s me np v alive new =
      let young : kind (s.proc np).state ≡ 1 = ap kind new in
      record {
        slots = λ j. ground (arith, v.slots j);
        free = λ j. ground (arith, v.free j);
        pids = λ j. ground (arith, v.pids j);
        distinct = λ j k. ground (arith, v.distinct j k);
        parents = λ j. ground (arith, v.parents j);
        root = ground (arith, v.root);
        counts = v.counts;
      }
