-- ===== src/FileTable/Slots.antt =====
-- file.c: what filealloc(), filedup() and fileclose() do to the counts.
use cs3500_os.Base.{
  ℕ, zero, suc, ◌+◌, ◌-◌, ◌≤◌, ◌<◌, ◌≡◌, refl, ◌⊎◌, inl, inr, arith, ◌==◌, ltb, Bool-cases, ==→eq,
  eq→==, ne→==, ge→ltb, ok,
}
use cs3500_os.FileTable.{fd_none, File, Files, filealloc_loop, filealloc, filedup, fileclose}
use cs3500_os.FileTable.Counts.{hit}

-- A free slot has no type.
abbrev pub IsClean : (ℕ → File) → Type 0
IsClean file = (g : ℕ) → ((file g).ref ≡ 0) → (file g).type ≡ fd_none

-- f has one reference fewer.
pub record Drops (f : ℕ) (s s' : Files) : Type 0 where
  pub same : s'.ofile ≡ s.ofile
  pub refs : (g : ℕ) → (s'.file g).ref + hit f g ≡ (s.file g).ref
  pub clean : IsClean s.file → IsClean s'.file

-- f has one reference more.
pub record Adds (f : ℕ) (s s' : Files) : Type 0 where
  pub same : s'.ofile ≡ s.ofile
  pub refs : (g : ℕ) → (s'.file g).ref ≡ (s.file g).ref + hit f g
  pub clean : IsClean s.file → IsClean s'.file

pub fileclose-Drops :
    (f : ℕ) (s : Files) → 0 < (s.file f).ref → (s' : Files) × (fileclose f s ≡ ok s') × Drops f s s'
unfolding fileclose
fileclose-Drops f s pos = elim (Bool-cases (ltb 0 ((s.file f).ref - 1))) [
  | inl more ↦
      rw (ge→ltb (s.file f).ref 1 (omega arith), more)
        (
          _,
          refl,
          record {
            same = refl;
            refs = λ g. ground (arith, pos);
            clean = λ c g z. ground (arith, c g, z, more);
          },
        )
  | inr last ↦
      rw (ge→ltb (s.file f).ref 1 (omega arith), last)
        (
          _,
          refl,
          record {
            same = refl;
            refs = λ g. ground (arith, pos, last);
            clean = λ c g z. ground (arith, c g, z);
          },
        )
]

pub filedup-Adds :
    (f : ℕ) (s : Files) → 0 < (s.file f).ref → (s' : Files) × (filedup f s ≡ ok s') × Adds f s s'
unfolding filedup
filedup-Adds f s pos = rw (ge→ltb (s.file f).ref 1 (omega arith)) (
  _,
  refl,
  record { same = refl; refs = λ g. ground arith; clean = λ c g z. ground (arith, c g, z) },
)

filealloc_loop_free :
    (n i : ℕ) (file : ℕ → File)
    → (filealloc_loop n i file ≡ 0)
      ⊎ ((i ≤ filealloc_loop n i file) × ((file (filealloc_loop n i file)).ref ≡ 0))
unfolding filealloc_loop
filealloc_loop_free zero i file = inl refl
filealloc_loop_free (suc n) i file = elim (Bool-cases ((file i).ref == 0)) [
  | inl free ↦ rw free (inr (omega arith, ==→eq _ 0 free))
  | inr taken ↦ rw taken (elim (filealloc_loop_free n (i + 1) file) [
    | inl full ↦ inl full
    | inr (lo, free) ↦ inr (omega arith, free)
  ])
]

-- The caller gets no file, or the one reference to a slot that was free.
pub data Gets (s : Files) : ℕ × Files → Type 0 where
  no_file : Gets s (0, s)
  one_file : (f : ℕ) (s' : Files) → 0 < f → (s.file f).ref ≡ 0 → Adds f s s' → Gets s (f, s')

pub filealloc-Gets : (s : Files) → Gets s (filealloc s)
unfolding filealloc
filealloc-Gets s = elim (filealloc_loop_free 100 1 s.file) [
  | inl full ↦ rw (eq→== (filealloc_loop 100 1 s.file) 0 full) no_file
  | inr (lo, free) ↦ rw (ne→== (filealloc_loop 100 1 s.file) 0 (omega arith)) (
      one_file _ _ (omega arith) free (record {
        same = refl;
        refs = λ g. ground (arith, free);
        clean = λ c g z. ground (arith, c g, z);
      }))
]
