-- ===== src/FileTable/Pipes.antt =====
-- sysfile.c: sys_pipe() keeps the counts, wherever it fails.
use cs3500_os.Base.{
  ℕ, ◌+◌, ◌<◌, ◌≡◌, refl, sym, ◌⊎◌, inl, inr, Bool, true, false, Option, none, some, arith, ◌==◌,
  if◌then◌else◌, update, Bool-cases, ne→==, subst, Outcome, ok,
}
use cs3500_os.FileTable.{
  sys_dup, sys_close, Files, filealloc, fdalloc, close_if, pipe_files, pipealloc, pipe_one,
  pipe_two, pipe_undo, pipe_first, pipe_second, sys_pipe,
}
use cs3500_os.FileTable.Counts.{hit}
use cs3500_os.FileTable.Slots.{Gets, no_file, one_file, filealloc-Gets}
use cs3500_os.FileTable.Calls.{
  sys_dup-Conserves, sys_close-Conserves, IsCounted, Conserves, fdalloc_free, returns,
}
use cs3500_os.FileTable.Owing.{Owing, Owing-close, Owing-take, Owing-give, Owing-get}

abbrev nothing : ℕ → ℕ
nothing g = 0

abbrev both : ℕ → ℕ → ℕ → ℕ
both f h g = hit f g + hit h g

-- The two closings of a call that fails
undo-Conserves :
    (rf wf : ℕ) (s t : Files)
    → IsCounted s
    → 0 < rf
    → 0 < wf
    → Owing (both rf wf) s t
    → Conserves s (pipe_undo rf wf t)
unfolding pipe_undo
undo-Conserves rf wf s t v pr pw w =
    let (u, e1, w1, _) = Owing-close (hit wf) (both rf wf) rf s t v pr (λ g. omega arith) w in
    let (u', e2, w2, _) = Owing-close nothing (hit wf) wf s u v pw (λ g. omega arith) w1 in
    rw (e1, e2) (returns s u' false v (λ g at. let a = w2.owes g at in omega arith) w2.clean)

second-Conserves :
    (copied : Bool) (rf wf fd0 : ℕ) (s t : Files)
    → IsCounted s
    → 0 < rf
    → 0 < wf
    → fd0 < 16
    → t.ofile fd0 ≡ rf
    → Owing (hit wf) s t
    → Conserves s (pipe_second copied rf wf fd0 (fdalloc wf t))
second-Conserves copied rf wf fd0 s t v pr pw lt at0 w = elim (fdalloc_free wf t) [
  | inl full ↦ rw full (
      undo-Conserves rf wf s _ v pr pw
        (Owing-give (hit wf) (both rf wf) rf fd0 s t lt at0 w (λ g. omega arith)))
  | inr (fd1, e, lt1, free) ↦
      let t1 : Files = record t { ofile = update t.ofile fd1 wf } in
      let w1 = Owing-take nothing (hit wf) wf fd1 s t lt1 free (λ g. omega arith) w in
      let g0 =
        Owing-give nothing (hit rf) rf fd0 s t1 lt (ground (arith, at0, free, pr)) w1
          (λ g. omega arith) in
      let g1 =
        Owing-give (hit rf) (both rf wf) wf fd1 s (record t1 { ofile = update t1.ofile fd0 0 }) lt1
          (ground (arith, at0, free, pr)) g0 (λ g. omega arith) in
      elim (Bool-cases copied) [
        | inl good ↦
            rw (e, good)
              (returns s t1 true v (λ g at. let a = w1.owes g at in omega arith) w1.clean)
        | inr bad ↦ rw (e, bad) (undo-Conserves rf wf s _ v pr pw g1)
      ]
]

first-Conserves :
    (copied : Bool) (rf wf : ℕ) (s t : Files)
    → IsCounted s
    → 0 < rf
    → 0 < wf
    → Owing (both rf wf) s t
    → Conserves s (pipe_first copied rf wf (fdalloc rf t))
first-Conserves copied rf wf s t v pr pw w = elim (fdalloc_free rf t) [
  | inl full ↦ rw full (undo-Conserves rf wf s t v pr pw w)
  | inr (fd0, e, lt, free) ↦ rw e (
      second-Conserves copied rf wf fd0 s _ v pr pw lt (ground arith)
        (Owing-take (hit wf) (both rf wf) rf fd0 s t lt free (λ g. omega arith) w))
]

-- What pipealloc() hands back owes a reference to each of its two files, or nothing.
abbrev Hands : Files → Outcome (Option (ℕ × ℕ) × Files) → Type 0
Hands s r =
    ((t : Files) × (r ≡ ok (none, t)) × Owing nothing s t)
    ⊎ ((rf wf : ℕ) × (t : Files) × (r ≡ ok (some (rf, wf), t))
        × (0 < rf)
        × (0 < wf)
        × Owing (both rf wf) s t)

-- Two files were found: without memory both are closed, else they are the ends.
files-Hands :
    (pi rf wf : ℕ) (s t : Files)
    → IsCounted s
    → 0 < rf
    → 0 < wf
    → Owing (both rf wf) s t
    → Hands s (pipe_files pi rf wf t)
unfolding pipe_files close_if
files-Hands pi rf wf s t v pr pw w = elim (Bool-cases (pi == 0)) [
  | inl no_page ↦
      let (u, e1, w1, _) = Owing-close (hit wf) (both rf wf) rf s t v pr (λ g. omega arith) w in
      let (u', e2, w2, _) = Owing-close nothing (hit wf) wf s u v pw (λ g. omega arith) w1 in
      rw (ne→== rf 0 (omega arith), ne→== wf 0 (omega arith), no_page, e1, e2) (inl (u', refl, w2))
  | inr page ↦
      rw (ne→== rf 0 (omega arith), ne→== wf 0 (omega arith), page)
        (inr (
          rf,
          wf,
          _,
          refl,
          pr,
          pw,
          record {
            owes = λ g at. let a = w.owes g at in ground (arith, a);
            clean = λ g z.
                let a = w.owes rf pr in
                let b = w.owes wf pw in
                let x = v.enough rf pr in
                let y = v.enough wf pw in ground (arith, w.clean g, z, a, b, x, y);
          },
        ))
]

two-Hands :
    (pi rf : ℕ) (s t : Files) (r : ℕ × Files)
    → IsCounted s
    → 0 < rf
    → Owing (hit rf) s t
    → Gets t r
    → Hands s (pipe_two pi rf r)
unfolding pipe_files close_if
two-Hands pi rf s t r v pr w no_file =
    let (u, e, w1, _) = Owing-close nothing (hit rf) rf s t v pr (λ g. omega arith) w in
    rw (ne→== rf 0 (omega arith), e) (inl (u, refl, w1))
two-Hands pi rf s t r v pr w (one_file wf u pw free a) =
    files-Hands pi rf wf s u v pr pw
      (Owing-get (hit rf) (both rf wf) wf s t u a w (λ g. omega arith))

one-Hands : (pi : ℕ) (s : Files) (r : ℕ × Files) → IsCounted s → Gets s r → Hands s (pipe_one pi r)
unfolding pipe_files close_if
one-Hands pi s r v no_file = inl (s, refl, record { owes = λ g at. omega arith; clean = v.clean })
one-Hands pi s r v (one_file rf t pr free a) =
    let start : Owing nothing s s = record { owes = λ g at. omega arith; clean = v.clean } in
    let w = Owing-get nothing (hit rf) rf s s t a start (λ g. omega arith) in
    subst (λ b. Hands s (pipe_two pi rf (if b then (0, t) else filealloc t)))
      (sym (ne→== rf 0 (omega arith))) (two-Hands pi rf s t (filealloc t) v pr w (filealloc-Gets t))

pipealloc-Hands : (pi : ℕ) (s : Files) → IsCounted s → Hands s (pipealloc pi s)
unfolding pipealloc
pipealloc-Hands pi s v = one-Hands pi s (filealloc s) v (filealloc-Gets s)

-- sys_pipe
pub sys_pipe-Conserves :
    (pi : ℕ) (copied : Bool) (s : Files) → IsCounted s → Conserves s (sys_pipe pi copied s)
unfolding sys_pipe
sys_pipe-Conserves pi copied s v = elim (pipealloc-Hands pi s v) [
  | inl (t, e, w) ↦ rw e (returns s t false v (λ g at. let a = w.owes g at in omega arith) w.clean)
  | inr (rf, wf, t, e, pr, pw, w) ↦ rw e (first-Conserves copied rf wf s t v pr pw w)
]

-- If the descriptors of the caller hold no more references to each file than it has, and free
-- slots have no type, then sys_dup, sys_close and sys_pipe, on each of their paths, return without
-- a panic, keep that, and change the references to a file exactly as the descriptors that hold it.
pub descriptors-Conserves :
    (fd pi : ℕ) (copied : Bool) (s : Files)
    → IsCounted s
    → Conserves s (sys_dup fd s) × Conserves s (sys_close fd s) × Conserves s (sys_pipe pi copied s)
descriptors-Conserves fd pi copied s v =
    (sys_dup-Conserves fd s v, sys_close-Conserves fd s v, sys_pipe-Conserves pi copied s v)
