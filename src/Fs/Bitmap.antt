-- ===== src/Fs/Bitmap.antt =====
-- fs.c: balloc() hands out the first free block, and bfree() gives it back.
use cs3500_os.Base.{
  ℕ, zero, suc, ◌+◌, ◌*◌, ◌/◌, ◌%◌, ◌≤◌, ◌<◌, ◌≡◌, refl, ap, ap₂, subst, ◌⊎◌, inl, inr, Bool, true,
  false, Option, none, some, ltb, ◌==◌, if◌then◌else◌, arith, Bool-cases, ==→eq, ==→ne,
}
use cs3500_os.Fs.{
  bpb, Disk, Superblock, bblock, get_bit, set_bit, bzero, scan_block, or_take, balloc_loop, balloc,
}

module _ (sb : Superblock) where
  -- The bit of block b.
  abbrev pub in_use : Disk → ℕ → Bool
  in_use disk b = get_bit disk (bblock sb b) (b % bpb)

  same_block :
      (b k : ℕ) → b / bpb ≡ k / bpb → b % bpb / 8 ≡ k % bpb / 8 → b % bpb % 8 ≡ k % bpb % 8 → b ≡ k
  same_block b k e f g = omega arith

  -- No other block has the bit of b.
  pub set_in_use :
      (disk : Disk) (b k : ℕ) (v : Bool)
      → in_use (set_bit disk (bblock sb b) (b % bpb) v) k ≡ (if b == k then v else in_use disk k)
  set_in_use disk b k v = elim (Bool-cases (b == k)) [
    | inl same ↦ rw same (
        subst (λ j. in_use (set_bit disk (bblock sb b) (b % bpb) v) j ≡ v) (==→eq b k same)
          (ground arith))
    | inr differ ↦ rw differ (elim (Bool-cases (bblock sb b == bblock sb k)) [
      | inl e ↦ elim (Bool-cases (b % bpb / 8 == k % bpb / 8)) [
        | inl f ↦ elim (Bool-cases (b % bpb % 8 == k % bpb % 8)) [
          | inl g ↦
              absurd
                (==→ne b k differ (same_block b k (ground (arith, e)) (==→eq _ _ f) (==→eq _ _ g)))
          | inr g ↦ rw (e, f, g) (ap₂ (λ x y. disk x y (k % bpb % 8)) (==→eq _ _ e) (==→eq _ _ f))
        ]
        | inr f ↦ rw (e, f) (ap (λ x. disk x (k % bpb / 8) (k % bpb % 8)) (==→eq _ _ e))
      ]
      | inr e ↦ rw e refl
    ])
  ]

  -- What the inner loop finds, of block b on with b a multiple of BPB
  abbrev Scans : Disk → ℕ → ℕ → ℕ → Option ℕ → Type 0
  Scans disk b n bi none =
      (k : ℕ) → b + bi ≤ k → k < b + bi + n → k < sb.size → in_use disk k ≡ true
  Scans disk b n bi (some j) =
      (b + j < sb.size)
      × (bi ≤ j)
      × (j < bpb)
      × (in_use disk (b + j) ≡ false)
      × ((k : ℕ) → b + bi ≤ k → k < b + j → in_use disk k ≡ true)

  scan_block-Scans :
      (disk : Disk) (q n bi : ℕ)
      → bi + n ≡ bpb
      → Scans disk (bpb * q) n bi (scan_block sb disk (bpb * q) n bi)
  unfolding scan_block
  scan_block-Scans disk q zero bi e = λ k lo hi lt. absurd (omega arith)
  scan_block-Scans disk q (suc n) bi e = elim (Bool-cases (ltb (bpb * q + bi) sb.size)) [
    | inl inside ↦ elim (Bool-cases (get_bit disk (bblock sb (bpb * q)) bi)) [
      | inl taken ↦
          rw (inside, taken)
            (widen (scan_block sb disk (bpb * q) n (bi + 1)) (at_bit taken)
              (scan_block-Scans disk q n (bi + 1) (omega arith)))
      | inr free ↦
          rw (inside, free)
            (
              ground (arith, inside),
              omega arith,
              omega arith,
              at_bit free,
              λ k lo hi. absurd (omega arith),
            )
    ]
    | inr outside ↦ rw outside (λ k lo hi lt. absurd (ground (arith, outside, lo, lt)))
  ]
    where
      at_bit :
          {v : Bool} → get_bit disk (bblock sb (bpb * q)) bi ≡ v → in_use disk (bpb * q + bi) ≡ v
      at_bit {v} h =
          let a : (bpb * q + bi) / bpb ≡ bpb * q / bpb = omega arith in
          let c : (bpb * q + bi) % bpb ≡ bi = omega arith in rw (a, c) h

      widen :
          (o : Option ℕ)
          → in_use disk (bpb * q + bi) ≡ true
          → Scans disk (bpb * q) n (bi + 1) o
          → Scans disk (bpb * q) (suc n) bi o
      widen none here h = λ k lo hi lt. elim (Bool-cases (bpb * q + bi == k)) [
        | inl same ↦ subst (λ j. in_use disk j ≡ true) (==→eq _ k same) here
        | inr later ↦ h k (ground (arith, later, lo)) (omega arith) lt
      ]
      widen (some j) here (lt, lo, hi, free, h) = (
        lt,
        omega arith,
        hi,
        free,
        λ k a b. elim (Bool-cases (bpb * q + bi == k)) [
          | inl same ↦ subst (λ i. in_use disk i ≡ true) (==→eq _ k same) here
          | inr later ↦ h k (ground (arith, later, a)) b
        ],
      )

  -- What balloc() answers of the blocks from b on: no block is free, or the first free one is taken.
  abbrev pub Allocs : Disk → ℕ → ℕ × Disk → Type 0
  Allocs disk b (r, disk') =
      ((r ≡ 0) × (disk' ≡ disk) × ((k : ℕ) → b ≤ k → k < sb.size → in_use disk k ≡ true))
      ⊎ ((b ≤ r)
          × (r < sb.size)
          × (in_use disk r ≡ false)
          × ((k : ℕ) → b ≤ k → k < r → in_use disk k ≡ true)
          × (disk' ≡ bzero (set_bit disk (bblock sb r) (r % bpb) true) r))

  take-Allocs :
      (disk : Disk) (q : ℕ) (rest : ℕ × Disk) (o : Option ℕ)
      → Scans disk (bpb * q) bpb 0 o
      → Allocs disk (bpb * q + bpb) rest
      → Allocs disk (bpb * q) (or_take sb disk (bpb * q) rest o)
  take-Allocs disk q rest none h (inl (z, same, later)) = inl (
    z,
    same,
    λ k lo lt. elim (Bool-cases (ltb k (bpb * q + bpb))) [
      | inl before ↦ h k (omega arith) (ground (arith, before)) lt
      | inr behind ↦ later k (ground (arith, behind)) lt
    ],
  )
  take-Allocs disk q rest none h (inr (lo, lt, free, later, e)) = inr (
    omega arith,
    lt,
    free,
    (λ k a b. elim (Bool-cases (ltb k (bpb * q + bpb))) [
      | inl before ↦ h k (omega arith) (ground (arith, before)) (omega arith)
      | inr behind ↦ later k (ground (arith, behind)) b
    ]),
    e,
  )
  take-Allocs disk q rest (some j) (lt, lo, hi, free, h) later =
      let a : (bpb * q + j) / bpb ≡ bpb * q / bpb = omega arith in
      let c : (bpb * q + j) % bpb ≡ j = omega arith in
      inr (omega arith, lt, free, (λ k x y. h k (omega arith) y), rw (a, c) refl)

  balloc_loop-Allocs :
      (disk : Disk) (fuel q : ℕ)
      → sb.size ≤ fuel + bpb * q
      → Allocs disk (bpb * q) (balloc_loop sb disk fuel (bpb * q))
  unfolding balloc_loop
  balloc_loop-Allocs disk zero q e = inl (refl, refl, λ k lo lt. absurd (omega arith))
  balloc_loop-Allocs disk (suc fuel) q e = elim (Bool-cases (ltb (bpb * q) sb.size)) [
    | inl inside ↦ rw inside (
        take-Allocs disk q (balloc_loop sb disk fuel (bpb * q + bpb))
          (scan_block sb disk (bpb * q) bpb 0) (scan_block-Scans disk q bpb 0 refl)
          (subst (λ b. Allocs disk b (balloc_loop sb disk fuel b)) (next q)
            (balloc_loop-Allocs disk fuel (q + 1) (omega arith))))
    | inr outside ↦
        rw outside (inl (refl, refl, λ k lo lt. absurd (ground (arith, outside, lo, lt))))
  ]
    where
      next : (q : ℕ) → bpb * (q + 1) ≡ bpb * q + bpb
      next q = omega arith

  -- balloc either answers 0 and changes nothing, and no block below the size is free, or answers
  -- the first free block, sets its bit and clears the block.
  pub balloc-Allocs : (disk : Disk) → Allocs disk 0 (balloc sb disk)
  unfolding balloc
  balloc-Allocs disk = balloc_loop-Allocs disk sb.size 0 (omega arith)
