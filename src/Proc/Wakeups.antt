-- ===== src/Proc/Wakeups.antt =====
-- proc.c: which processes wakeup(), reparent() and kexit() change, and how.
use cs3500_os.Base.{
  ℕ, zero, suc, ◌+◌, ◌≡◌, refl, sym, ◌∙◌, ◌⊎◌, inl, inr, Bool, true, false, ◌&&◌, not, arith, leb,
  ltb, ◌==◌, if◌then◌else◌, update, Bool-cases, subst, eq→==, ==→eq, ◌||◌,
}
use cs3500_os.Proc.{
  runnable, Proc, Table, is_sleeping, for_slots, wake_slot, wakeup, reparent_slot, reparent,
}
use cs3500_os.Proc.Loops.{for_slots_each}

abbrev pub is_slot : ℕ → Bool
is_slot j = leb 1 j && ltb j 65

-- A process that sleeps on the channel, and is not the caller.
abbrev pub sleeps_on : ℕ → ℕ → ℕ → Proc → Bool
sleeps_on me chan j p = not (j == me) && (is_sleeping p.state && p.chan == chan)

abbrev pub woken : Proc → Proc
woken p = record p { state = runnable }

wake_slot_self :
    (me chan j : ℕ) (u : Table)
    → wake_slot me chan j u j ≡ (if sleeps_on me chan j (u j) then woken (u j) else u j)
unfolding wake_slot
wake_slot_self me chan j u = elim (Bool-cases (sleeps_on me chan j (u j))) [
  | inl on ↦ simp (wake_slot, on, eq→== j j refl) refl
  | inr off ↦ simp (wake_slot, off) refl
]

wake_slot_each :
    (me chan k : ℕ) (u : Table) (j : ℕ)
    → wake_slot me chan k u j
      ≡ (if k == j then (if sleeps_on me chan j (u j) then woken (u j) else u j) else u j)
unfolding wake_slot
wake_slot_each me chan k u j = elim (Bool-cases (k == j)) [
  | inl same ↦ rw same (
      subst
        (λ i. wake_slot me chan i u j ≡ (if sleeps_on me chan j (u j) then woken (u j) else u j))
        (sym (==→eq k j same)) (wake_slot_self me chan j u))
  | inr other ↦ rw other (elim (Bool-cases (sleeps_on me chan k (u k))) [
    | inl on ↦ simp (wake_slot, on, other) refl
    | inr off ↦ simp (wake_slot, off) refl
  ])
]

-- wakeup
pub wakeup_slots :
    (me chan : ℕ) (t : Table) (j : ℕ)
    → wakeup me chan t j ≡ (if is_slot j && sleeps_on me chan j (t j) then woken (t j) else t j)
unfolding wakeup
wakeup_slots me chan t j =
    for_slots_each (λ i p. if sleeps_on me chan i p then woken p else p) (wake_slot me chan)
      (wake_slot_each me chan) 64 1 t j
    ∙ ground arith

-- The process as it was, or woken from a sleep on the channel.
abbrev pub Touched : ℕ → Proc → Proc → Type 0
Touched chan p p' = (p' ≡ p) ⊎ (((is_sleeping p.state && p.chan == chan) ≡ true) × (p' ≡ woken p))

pub wakeup-Touched : (me chan : ℕ) (t : Table) (j : ℕ) → Touched chan (t j) (wakeup me chan t j)
wakeup-Touched me chan t j = elim (Bool-cases (is_slot j && sleeps_on me chan j (t j))) [
  | inl on ↦ inr (ground (arith, on), wakeup_slots me chan t j ∙ rw on refl)
  | inr off ↦ inl (wakeup_slots me chan t j ∙ rw off refl)
]

module _ (init me : ℕ) where
  -- A child of `me`, where its slot has been passed by the loop.
  abbrev pub adopted : Bool → Proc → Proc
  adopted passed p = if passed && p.parent == me then record p { parent = init } else p

  reparent_slot-Touched :
      (i : ℕ) (t : Table) (j : ℕ)
      → Touched init (adopted (i == j) (t j)) (reparent_slot init me i t j)
  unfolding reparent_slot
  reparent_slot-Touched i t j = elim (Bool-cases ((t i).parent == me)) [
    | inl child ↦ rw child (
        subst (λ p. Touched init p (wakeup me init (update t i (record (t i) { parent = init })) j))
          (at_slot child) (wakeup-Touched me init (update t i (record (t i) { parent = init })) j))
    | inr other ↦ rw other (inl (at_other other))
  ]
    where
      at_slot :
          ((t i).parent == me) ≡ true
          → update t i (record (t i) { parent = init }) j ≡ adopted (i == j) (t j)
      at_slot child = elim (Bool-cases (i == j)) [
        | inl same ↦ rw same (
            subst (λ k. record (t i) { parent = init } ≡ adopted true (t k)) (==→eq _ _ same)
              (rw child refl))
        | inr differ ↦ rw differ refl
      ]

      at_other : ((t i).parent == me) ≡ false → t j ≡ adopted (i == j) (t j)
      at_other other = elim (Bool-cases (i == j)) [
        | inl same ↦
            rw same (subst (λ k. t k ≡ adopted true (t k)) (==→eq _ _ same) (rw other refl))
        | inr differ ↦ rw differ refl
      ]

  adopted-Touched :
      (a b : Bool) (p p1 p2 : Proc)
      → Touched init (adopted a p) p1
      → Touched init (adopted b p1) p2
      → Touched init (adopted (a || b) p) p2
  adopted-Touched a b p p1 p2 (inl e) (inl f) = inl (ground (arith, e, f))
  adopted-Touched a b p p1 p2 (inl e) (inr f) = inr (ground (arith, e, f.0, f.1))
  adopted-Touched a b p p1 p2 (inr e) (inl f) = inr (ground (arith, e.0, e.1, f))
  adopted-Touched a b p p1 p2 (inr e) (inr f) = absurd (ground (arith, e.0, e.1, f.0, f.1))

  reparent_loop-Touched :
      (n i : ℕ) (t : Table) (j : ℕ)
      → Touched init
          (adopted (leb i j && ltb j (i + n)) (t j))
          (for_slots n i (reparent_slot init me) t j)
  unfolding for_slots
  reparent_loop-Touched zero i t j = inl (ground arith)
  reparent_loop-Touched (suc n) i t j =
      let both =
        adopted-Touched (i == j) (leb (i + 1) j && ltb j (i + 1 + n)) (t j)
          (reparent_slot init me i t j) _ (reparent_slot-Touched i t j)
          (reparent_loop-Touched n (i + 1) (reparent_slot init me i t) j) in
      let range : (i == j || leb (i + 1) j && ltb j (i + 1 + n)) ≡ (leb i j && ltb j (i + suc n)) =
        ground arith in
      subst
        (λ b.
          Touched init (adopted b (t j))
            (for_slots n (i + 1) (reparent_slot init me) (reparent_slot init me i t) j))
        range both

  -- reparent
  pub reparent-Touched :
      (t : Table) (j : ℕ) → Touched init (adopted (is_slot j) (t j)) (reparent init me t j)
  unfolding reparent
  reparent-Touched t j = reparent_loop-Touched 64 1 t j
