-- ===== src/Proc/Loops.antt =====
-- proc.c: the loops over the process table.
use cs3500_os.Base.{
  ℕ, zero, suc, ◌+◌, ◌≤◌, ◌<◌, ◌≡◌, refl, ◌∙◌, ◌⊎◌, inl, inr, Bool, true, false, ◌&&◌, arith, leb,
  ltb, ◌==◌, if◌then◌else◌, Bool-cases, subst, ==→eq,
}
use cs3500_os.Proc.{Proc, Table, for_slots, first_slot}

-- A loop that finds nothing has tested every slot, and one that stops has found one.
abbrev pub Found : ℕ → ℕ → (Proc → Bool) → Table → ℕ → Type 0
Found n i test t j =
    ((j ≡ 0) × ((k : ℕ) → i ≤ k → k < i + n → test (t k) ≡ false))
    ⊎ ((i ≤ j) × (j < i + n) × (test (t j) ≡ true))

pub first_slot-Found :
    (n i : ℕ) (test : Proc → Bool) (t : Table) → Found n i test t (first_slot n i test t)
unfolding first_slot
first_slot-Found zero i test t = inl (refl, λ k a b. absurd (omega arith))
first_slot-Found (suc n) i test t = elim (Bool-cases (test (t i))) [
  | inl yes_here ↦ rw yes_here (inr (omega arith, omega arith, yes_here))
  | inr not_here ↦ rw not_here (elim (first_slot-Found n (i + 1) test t) [
    | inl (z, h) ↦ inl (
      z,
      λ k a b. elim (Bool-cases (i == k)) [
        | inl same ↦ subst (λ m. test (t m) ≡ false) (==→eq _ _ same) not_here
        | inr later ↦ h k (ground arith) (omega arith)
      ],
    )
    | inr (a, b, h) ↦ inr (omega arith, omega arith, h)
  ])
]

-- A property of tables that the body keeps, the loop keeps.
pub for_slots_keeps {ℓ} :
    (P : Table → Type ℓ) (n i : ℕ) (body : ℕ → Table → Table) (t : Table)
    → ((k : ℕ) (u : Table) → P u → P (body k u))
    → P t
    → P (for_slots n i body t)
unfolding for_slots
for_slots_keeps P zero i body t keep h = h
for_slots_keeps P (suc n) i body t keep h =
    for_slots_keeps P n (i + 1) body (body i t) keep (keep i t h)

-- A loop whose body changes only its own slot, and that by f.
pub for_slots_each :
    (f : ℕ → Proc → Proc) (body : ℕ → Table → Table)
    → ((k : ℕ) (u : Table) (j : ℕ) → body k u j ≡ (if k == j then f j (u j) else u j))
    → (n i : ℕ) (t : Table) (j : ℕ)
    → for_slots n i body t j ≡ (if leb i j && ltb j (i + n) then f j (t j) else t j)
unfolding for_slots
for_slots_each f body h zero i t j = ground arith
for_slots_each f body h (suc n) i t j =
    for_slots_each f body h n (i + 1) (body i t) j ∙ ground (arith, h i t j)
