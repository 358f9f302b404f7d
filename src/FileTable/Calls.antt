-- ===== src/FileTable/Calls.antt =====
-- sysfile.c: no call loses a reference, or makes one up.
use cs3500_os.Base.{
  ℕ, zero, suc, ◌+◌, ◌≤◌, ◌<◌, ◌≡◌, refl, sym, ◌∙◌, ap, ◌⊎◌, inl, inr, true, false, ◌||◌, none,
  some, arith, ◌==◌, leb, update, Bool-cases, ==→eq, subst, Outcome, ok, ◌>>=◌,
}
use cs3500_os.FileTable.{
  Files, nofile, filedup, fileclose, argfd, fdalloc, sys_dup, sys_close, close_fd, close_all,
}
use cs3500_os.FileTable.Counts.{hit, uses, uses-update, uses_here, fdalloc_loop_free}
use cs3500_os.FileTable.Slots.{IsClean, fileclose-Drops, filedup-Adds}

-- The caller's descriptors hold no more references to a file than there are, and free slots have no type.
pub record IsCounted (s : Files) : Type 0 where
  pub enough : (g : ℕ) → 0 < g → uses 16 0 s.ofile g ≤ (s.file g).ref
  pub clean : IsClean s.file

-- The references that are not the caller's stay as they are.
abbrev pub Balanced : Files → Files → Type 0
Balanced s s' =
    (g : ℕ) → 0 < g → (s'.file g).ref + uses 16 0 s.ofile g ≡ (s.file g).ref + uses 16 0 s'.ofile g

pub Balanced-IsCounted :
    (s s' : Files) → Balanced s s' → IsCounted s → IsClean s'.file → IsCounted s'
Balanced-IsCounted s s' b v c = record {
  enough = λ g pos. let x = b g pos in let y = v.enough g pos in omega arith;
  clean = c;
}

-- The call returns, and keeps the counts.
abbrev pub Conserves {ℓ} : {A : Type ℓ} → Files → Outcome (A × Files) → Type ℓ
Conserves {A = A} s r = (a : A) × (s' : Files) × (r ≡ ok (a, s')) × Balanced s s' × IsCounted s'

-- argfd
argfd_open :
    (fd : ℕ) (s : Files)
    → (argfd fd s ≡ none) ⊎ ((argfd fd s ≡ some (s.ofile fd)) × (fd < 16) × (0 < s.ofile fd))
unfolding argfd
argfd_open fd s = elim (Bool-cases (leb nofile fd || s.ofile fd == 0)) [
  | inl bad ↦ inl (rw bad refl)
  | inr good ↦ inr (rw good refl, ground (arith, good), ground (arith, good))
]

pub fdalloc_free :
    (f : ℕ) (s : Files)
    → (fdalloc f s ≡ (none, s))
      ⊎ ((fd : ℕ) × (fdalloc f s ≡ (some fd, record s { ofile = update s.ofile fd f }))
          × (fd < 16)
          × (s.ofile fd ≡ 0))
unfolding fdalloc
fdalloc_free f s = elim (fdalloc_loop_free 16 0 s.ofile) [
  | inl full ↦ inl (rw (fdalloc, full) refl)
  | inr (fd, e, _, hi, free) ↦ inr (fd, rw (fdalloc, e) refl, omega arith, free)
]

-- A descriptor changes hands: what is counted of it.
pub swap :
    (s s' : Files) (fd v : ℕ)
    → s'.ofile ≡ update s.ofile fd v
    → fd < 16
    → (g : ℕ) → uses 16 0 s'.ofile g + hit (s.ofile fd) g ≡ uses 16 0 s.ofile g + hit v g
swap s s' fd v e lt g =
    ap (λ o. uses 16 0 o g + hit (s.ofile fd) g) e
    ∙ uses-update 16 0 fd v g s.ofile (omega arith) (omega arith)

-- A call that returns s' balanced, with free slots clean, conserves.
pub returns {ℓ} :
    {A : Type ℓ} (s s' : Files) (a : A)
    → IsCounted s
    → Balanced s s'
    → IsClean s'.file
    → Conserves s (ok (a, s'))
returns s s' a v b c = (a, s', refl, b, Balanced-IsCounted s s' b v c)

dup_at :
    (old fd : ℕ) (s : Files)
    → IsCounted s
    → old < 16
    → 0 < s.ofile old
    → fd < 16
    → s.ofile fd ≡ 0
    → Conserves s (
        filedup (s.ofile old) (record s { ofile = update s.ofile fd (s.ofile old) }) >>= λ u.
        ok (some fd, u))
dup_at old fd s v lt pos hi free =
    let t : Files = record s { ofile = update s.ofile fd (s.ofile old) } in
    let mine = uses_here 16 0 old (s.ofile old) s.ofile (omega arith) (omega arith) in
    let some_ref = v.enough (s.ofile old) pos in
    let (s', e, a) = filedup-Adds (s.ofile old) t (ground (arith, mine, some_ref)) in
    rw e (
      returns s s' (some fd) v
        (λ g at.
          let x = swap s s' fd (s.ofile old) a.same hi g in ground (arith, x, a.refs g, free))
        (a.clean v.clean))

-- sys_dup
pub sys_dup-Conserves : (old : ℕ) (s : Files) → IsCounted s → Conserves s (sys_dup old s)
unfolding sys_dup
sys_dup-Conserves old s v = elim (argfd_open old s) [
  | inl bad ↦ rw (sys_dup, bad) (returns s s none v (λ g pos. refl) v.clean)
  | inr (is_open, lt, pos) ↦ elim (fdalloc_free (s.ofile old) s) [
    | inl full ↦ rw (sys_dup, is_open, full) (returns s s none v (λ g pos. refl) v.clean)
    | inr (fd, e, hi, free) ↦ rw (sys_dup, is_open, e) (dup_at old fd s v lt pos hi free)
  ]
]

-- The descriptor is cleared, and its reference dropped, in either order.
close_at :
    (fd : ℕ) (s : Files)
    → IsCounted s
    → fd < 16
    → 0 < s.ofile fd
    → Conserves s
        (fileclose (s.ofile fd) (record s { ofile = update s.ofile fd 0 }) >>= λ u. ok (true, u))
close_at fd s v lt pos =
    let t : Files = record s { ofile = update s.ofile fd 0 } in
    let mine = uses_here 16 0 fd (s.ofile fd) s.ofile (omega arith) (omega arith) in
    let some_ref = v.enough (s.ofile fd) pos in
    let (s', e, d) = fileclose-Drops (s.ofile fd) t (ground (arith, mine, some_ref)) in
    rw e (
      returns s s' true v
        (λ g at. let x = swap s s' fd 0 d.same lt g in ground (arith, x, d.refs g, at))
        (d.clean v.clean))

-- sys_close
pub sys_close-Conserves : (fd : ℕ) (s : Files) → IsCounted s → Conserves s (sys_close fd s)
unfolding sys_close
sys_close-Conserves fd s v = elim (argfd_open fd s) [
  | inl bad ↦ rw (sys_close, bad) (returns s s false v (λ g pos. refl) v.clean)
  | inr (is_open, lt, pos) ↦ rw (sys_close, is_open) (close_at fd s v lt pos)
]

close_fd-keeps :
    (fd : ℕ) (s : Files)
    → IsCounted s
    → fd < 16
    → (s' : Files) × (close_fd fd s ≡ ok s')
      × Balanced s s'
      × IsCounted s'
      × (s'.ofile fd ≡ 0)
      × ((k : ℕ) → s.ofile k ≡ 0 → s'.ofile k ≡ 0)
unfolding close_fd
close_fd-keeps fd s v lt = elim (Bool-cases (s.ofile fd == 0)) [
  | inl shut ↦ rw shut (s, refl, λ g pos. refl, v, ==→eq (s.ofile fd) 0 shut, λ k e. e)
  | inr is_open ↦
      let mine = uses_here 16 0 fd (s.ofile fd) s.ofile (omega arith) (omega arith) in
      let pos : 0 < s.ofile fd = ground (arith, is_open) in
      let some_ref = v.enough (s.ofile fd) pos in
      let (t, e, d) = fileclose-Drops (s.ofile fd) s (ground (arith, mine, some_ref)) in
      let s' : Files = record t { ofile = update t.ofile fd 0 } in
      let o : s'.ofile ≡ update s.ofile fd 0 = ap (λ o. update o fd 0) d.same in
      let b : Balanced s s' =
        λ g at. let x = swap s s' fd 0 o lt g in ground (arith, x, d.refs g, at) in
      rw (is_open, e)
        (
          s',
          refl,
          b,
          Balanced-IsCounted s s' b v (d.clean v.clean),
          ground arith,
          λ k z. ap (λ u. u k) o ∙ ground (arith, z),
        )
]

Balanced-trans : (s t u : Files) → Balanced s t → Balanced t u → Balanced s u
Balanced-trans s t u a b g pos = let x = a g pos in let y = b g pos in omega arith

close_all-keeps :
    (n fd : ℕ) (s : Files)
    → IsCounted s
    → fd + n ≡ 16
    → ((k : ℕ) → k < fd → s.ofile k ≡ 0)
    → (s' : Files) × (close_all n fd s ≡ ok s')
      × Balanced s s'
      × IsCounted s'
      × ((k : ℕ) → k < 16 → s'.ofile k ≡ 0)
unfolding close_all
close_all-keeps zero fd s v e z = (s, refl, λ g pos. refl, v, λ k lt. z k (omega arith))
close_all-keeps (suc n) fd s v e z =
    let (t, e1, b1, v1, shut, keep) = close_fd-keeps fd s v (omega arith) in
    let done : (k : ℕ) → k < fd + 1 → t.ofile k ≡ 0 = λ k lt. elim (Bool-cases (k == fd)) [
      | inl same ↦ subst (λ j. t.ofile j ≡ 0) (sym (==→eq k fd same)) shut
      | inr other ↦ keep k (z k (ground (arith, other)))
    ] in
    let (s', e2, b2, v2, all) = close_all-keeps n (fd + 1) t v1 (omega arith) done in
    rw (e1, e2) (s', refl, Balanced-trans s t s' b1 b2, v2, all)

-- If the descriptors of the caller hold no more references to each file than it has, and free
-- slots have no type, then the loop of kexit over the descriptors returns without a panic, no
-- descriptor is open afterwards, and each file has lost exactly the references that the
-- descriptors held.
pub close_all-Balanced :
    (s : Files)
    → IsCounted s
    → (s' : Files) × (close_all 16 0 s ≡ ok s')
      × Balanced s s'
      × IsCounted s'
      × ((fd : ℕ) → fd < 16 → s'.ofile fd ≡ 0)
close_all-Balanced s v = close_all-keeps 16 0 s v refl (λ k lt. absurd (omega arith))
