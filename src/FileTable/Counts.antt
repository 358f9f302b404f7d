-- ===== src/FileTable/Counts.antt =====
-- How many descriptors of a process hold a file.
use cs3500_os.Base.{
  ℕ, zero, suc, ◌+◌, ◌≤◌, ◌<◌, ◌≡◌, refl, ◌⊎◌, inl, inr, none, some, arith, ◌==◌, if◌then◌else◌,
  update, Bool-cases, ==→eq,
}
use cs3500_os.FileTable.{fdalloc_loop}

abbrev pub hit : ℕ → ℕ → ℕ
hit a b = if a == b then 1 else 0

-- Of the n descriptors from i on, those that hold f.
unfoldable pub uses : ℕ → ℕ → (ℕ → ℕ) → ℕ → ℕ
uses zero i ofile f = 0
uses (suc n) i ofile f = hit (ofile i) f + uses n (i + 1) ofile f

uses_before :
    (n i fd v f : ℕ) (ofile : ℕ → ℕ) → fd < i → uses n i (update ofile fd v) f ≡ uses n i ofile f
unfolding uses
uses_before zero i fd v f ofile lt = refl
uses_before (suc n) i fd v f ofile lt =
    let rest = uses_before n (i + 1) fd v f ofile (omega arith) in ground (arith, rest, lt)

pub uses-update :
    (n i fd v f : ℕ) (ofile : ℕ → ℕ)
    → i ≤ fd
    → fd < i + n
    → uses n i (update ofile fd v) f + hit (ofile fd) f ≡ uses n i ofile f + hit v f
unfolding uses
uses-update zero i fd v f ofile lo hi = absurd (omega arith)
uses-update (suc n) i fd v f ofile lo hi = elim (Bool-cases (fd == i)) [
  | inl same ↦
      let rest = uses_before n (i + 1) fd v f ofile (ground (arith, same)) in
      ground (arith, rest, same)
  | inr later ↦
      let rest = uses-update n (i + 1) fd v f ofile (ground (arith, later)) (omega arith) in
      ground (arith, rest, later)
]

-- A descriptor that holds f counts.
pub uses_here :
    (n i fd f : ℕ) (ofile : ℕ → ℕ) → i ≤ fd → fd < i + n → hit (ofile fd) f ≤ uses n i ofile f
unfolding uses
uses_here zero i fd f ofile lo hi = absurd (omega arith)
uses_here (suc n) i fd f ofile lo hi = elim (Bool-cases (fd == i)) [
  | inl same ↦ ground (arith, same)
  | inr later ↦
      let rest = uses_here n (i + 1) fd f ofile (ground (arith, later)) (omega arith) in omega arith
]

pub fdalloc_loop_free :
    (n i : ℕ) (ofile : ℕ → ℕ)
    → (fdalloc_loop n i ofile ≡ none)
      ⊎ ((fd : ℕ) × (fdalloc_loop n i ofile ≡ some fd) × (i ≤ fd) × (fd < i + n) × (ofile fd ≡ 0))
unfolding fdalloc_loop
fdalloc_loop_free zero i ofile = inl refl
fdalloc_loop_free (suc n) i ofile = elim (Bool-cases (ofile i == 0)) [
  | inl free ↦ rw free (inr (i, refl, omega arith, omega arith, ==→eq _ 0 free))
  | inr taken ↦ rw taken (elim (fdalloc_loop_free n (i + 1) ofile) [
    | inl full ↦ inl full
    | inr (fd, e, lo, hi, free) ↦ inr (fd, e, omega arith, omega arith, free)
  ])
]
