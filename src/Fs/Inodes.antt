-- ===== src/Fs/Inodes.antt =====
-- fs.c: the table of inodes in memory, with the fields that iget() and idup() use. A pointer into
-- itable.inode[] is the slot's number from 1 on, and null is 0. A count of references does not overflow.
use cs3500_os.Base.{
  ℕ, zero, suc, ◌+◌, ◌≤◌, ◌<◌, ◌≡◌, ◌≢◌, refl, sym, ◌∙◌, subst, ◌⊎◌, inl, inr, Bool, true, false,
  ◌&&◌, ltb, ◌==◌, if◌then◌else◌, update, arith, Bool-cases, ==→eq, Outcome, ok, panic,
}

abbrev ninode : ℕ
ninode = 50

pub record Inode : Type 0 where
  pub dev : ℕ
  pub inum : ℕ
  pub ref : ℕ
  pub valid : Bool

abbrev pub Itable : Type 0
Itable = ℕ → Inode

-- ip->ref > 0 && ip->dev == dev && ip->inum == inum
abbrev pub is_inode : ℕ → ℕ → Inode → Bool
is_inode dev inum ip = ltb 0 ip.ref && (ip.dev == dev && ip.inum == inum)

-- What the loop of iget() ends with: the inode, or the empty slot that it remembers, or 0.
pub data Scanned : Type 0 where
  cached : ℕ → Scanned
  empty_slot : ℕ → Scanned

pub iget_loop : ℕ → ℕ → ℕ → ℕ → ℕ → Itable → Scanned
iget_loop dev inum zero i empty t = empty_slot empty
iget_loop dev inum (suc n) i empty t =
    let rest = iget_loop dev inum n (i + 1) (if empty == 0 && (t i).ref == 0 then i else empty) t in
    if is_inode dev inum (t i) then cached i else rest

abbrev pub fresh : ℕ → ℕ → Inode → Inode
fresh dev inum ip = record { dev = dev; inum = inum; ref = 1; valid = false }

abbrev pub take_slot : ℕ → ℕ → Itable → Scanned → Outcome (ℕ × Itable)
take_slot dev inum t (cached i) = ok (i, update t i (record (t i) { ref = (t i).ref + 1 }))
take_slot dev inum t (empty_slot zero) = panic
take_slot dev inum t (empty_slot (suc e)) =
    ok (suc e, update t (suc e) (fresh dev inum (t (suc e))))

pub iget : ℕ → ℕ → Itable → Outcome (ℕ × Itable)
iget dev inum t = take_slot dev inum t (iget_loop dev inum ninode 1 0 t)

pub idup : ℕ → Itable → Itable
idup i t = update t i (record (t i) { ref = (t i).ref + 1 })

-- What the loop has found of the slots from i on.
abbrev Scans : ℕ → ℕ → ℕ → ℕ → ℕ → Itable → Scanned → Type 0
Scans dev inum n i empty t (cached j) = (i ≤ j) × (j < i + n) × (is_inode dev inum (t j) ≡ true)
Scans dev inum n i empty t (empty_slot e) =
    ((k : ℕ) → i ≤ k → k < i + n → is_inode dev inum (t k) ≡ false)
    × ((e ≡ empty) ⊎ ((i ≤ e) × (e < i + n) × ((t e).ref ≡ 0)))
    × ((e ≢ 0) ⊎ ((k : ℕ) → i ≤ k → k < i + n → 0 < (t k).ref))

iget_loop-Scans :
    (dev inum n i empty : ℕ) (t : Itable)
    → 0 < i
    → Scans dev inum n i empty t (iget_loop dev inum n i empty t)
unfolding iget_loop
iget_loop-Scans dev inum zero i empty t pos =
    ((λ k lo hi. absurd (omega arith)), inl refl, inr (λ k lo hi. absurd (omega arith)))
iget_loop-Scans dev inum (suc n) i empty t pos = elim (Bool-cases (is_inode dev inum (t i))) [
  | inl here ↦ rw here (omega arith, omega arith, here)
  | inr other ↦ rw other (
      widen other (if empty == 0 && (t i).ref == 0 then i else empty) refl _ (
        iget_loop-Scans dev inum n (i + 1) (if empty == 0 && (t i).ref == 0 then i else empty) t
          (omega arith)))
]
  where
    widen :
        is_inode dev inum (t i) ≡ false
        → (m : ℕ) → m ≡ (if empty == 0 && (t i).ref == 0 then i else empty)
        → (r : Scanned) → Scans dev inum n (i + 1) m t r
        → Scans dev inum (suc n) i empty t r
    widen other m e (cached j) (lo, hi, h) = (omega arith, omega arith, h)
    widen other m e (empty_slot j) (h, where_from, full) = (
      (λ k lo hi. elim (Bool-cases (i == k)) [
        | inl same ↦ subst (λ x. is_inode dev inum (t x) ≡ false) (==→eq i k same) other
        | inr later ↦ h k (ground (arith, later, lo)) (omega arith)
      ]),
      elim where_from [
        | inl same ↦ elim (Bool-cases (empty == 0 && (t i).ref == 0)) [
          | inl first ↦ inr (ground (arith, same, e, first))
          | inr later ↦ inl (ground (arith, same, e, later))
        ]
        | inr (lo, hi, free) ↦ inr (omega arith, omega arith, free)
      ],
      elim (Bool-cases ((t i).ref == 0)) [
        | inl free ↦ inl (elim where_from [
          | inl same ↦ λ z. ground (arith, same, e, free, z, pos)
          | inr (lo, hi, _) ↦ λ z. omega arith
        ])
        | inr taken ↦ elim full [
          | inl some_slot ↦ inl some_slot
          | inr all ↦ inr (λ k lo hi. elim (Bool-cases (i == k)) [
            | inl same ↦ ground (arith, same, taken)
            | inr later ↦ all k (ground (arith, later, lo)) (omega arith)
          ])
        ]
      ],
    )

abbrev pub InTable : ℕ → Type 0
InTable k = (1 ≤ k) × (k < 51)

-- No inode has two entries.
abbrev pub IsUnique : Itable → Type 0
IsUnique t =
    (j k : ℕ)
    → InTable j
    → InTable k
    → 0 < (t j).ref
    → is_inode (t j).dev (t j).inum (t k) ≡ true
    → j ≡ k

-- What iget() answers.
abbrev pub Gets : ℕ → ℕ → Itable → Outcome (ℕ × Itable) → Type 0
Gets dev inum t panic = (k : ℕ) → InTable k → (0 < (t k).ref) × (is_inode dev inum (t k) ≡ false)
Gets dev inum t (ok (i, t')) =
    InTable i
    × (is_inode dev inum (t' i) ≡ true)
    × ((t' i).ref ≡ (t i).ref + 1)
    × ((is_inode dev inum (t i) ≡ true) ⊎ ((t i).ref ≡ 0))
    × ((k : ℕ) → k ≢ i → t' k ≡ t k)
    × IsUnique t'

unique_fresh :
    (dev inum i : ℕ) (t : Itable) (j k : ℕ)
    → IsUnique t
    → is_inode dev inum (t j) ≡ false
    → is_inode dev inum (t k) ≡ false
    → InTable j
    → InTable k
    → 0 < (update t i (fresh dev inum (t i)) j).ref
    → is_inode
        (update t i (fresh dev inum (t i)) j).dev
        (update t i (fresh dev inum (t i)) j).inum
        (update t i (fresh dev inum (t i)) k)
      ≡ true
    → j ≡ k
unique_fresh dev inum i t j k u not_j not_k a b pos same = elim (Bool-cases (i == j)) [
  | inl at_j ↦ elim (Bool-cases (i == k)) [
    | inl at_k ↦ sym (==→eq i j at_j) ∙ ==→eq i k at_k
    | inr off_k ↦ absurd (ground (arith, same, not_k, at_j, off_k))
  ]
  | inr off_j ↦ elim (Bool-cases (i == k)) [
    | inl at_k ↦ absurd (ground (arith, same, pos, not_j, off_j, at_k))
    | inr off_k ↦ u j k a b (ground (arith, pos, off_j)) (ground (arith, same, off_j, off_k))
  ]
]

take_slot-Gets :
    (dev inum : ℕ) (t : Itable) (r : Scanned)
    → IsUnique t
    → Scans dev inum 50 1 0 t r
    → Gets dev inum t (take_slot dev inum t r)
take_slot-Gets dev inum t (cached i) u (lo, hi, h) = (
  (lo, hi),
  ground (arith, h),
  ground arith,
  inl h,
  (λ k other. ground (arith, other)),
  λ j k a b pos same. u j k a b (ground (arith, pos, h)) (ground (arith, same, h)),
)
take_slot-Gets dev inum t (empty_slot zero) u (h, where_from, full) =
    λ k (lo, hi). (elim full [ inl never ↦ absurd (never refl) | inr all ↦ all k lo hi ], h k lo hi)
take_slot-Gets dev inum t (empty_slot (suc e)) u (h, where_from, full) = elim where_from [
  | inl never ↦ absurd (omega arith)
  | inr (lo, hi, free) ↦ (
    (lo, hi),
    ground arith,
    ground (arith, free),
    inr free,
    (λ k other. ground (arith, other)),
    λ j k a b pos same.
        unique_fresh dev inum (suc e) t j k u (h j a.0 a.1) (h k b.0 b.1) a b pos same,
  )
]

-- On a table where no inode has two entries that are referenced: iget either panics, and all 50
-- entries are referenced and none is of the inode, or answers an entry of the inode, the one with
-- it or one that was not referenced, with one more reference; the other entries are as before, and
-- still no inode has two.
pub iget-Gets : (dev inum : ℕ) (t : Itable) → IsUnique t → Gets dev inum t (iget dev inum t)
unfolding iget
iget-Gets dev inum t u =
    take_slot-Gets dev inum t (iget_loop dev inum 50 1 0 t) u
      (iget_loop-Scans dev inum 50 1 0 t (omega arith))
