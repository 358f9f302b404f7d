-- ===== src/Fs/Frees.antt =====
-- fs.c: what balloc() and bfree() do to the other blocks.
use cs3500_os.Base.{
  ℕ, ◌%◌, ◌<◌, ◌≡◌, ◌≢◌, refl, sym, ◌∙◌, ap, subst, inl, inr, true, false, ◌==◌, if◌then◌else◌,
  arith, Bool-cases, ==→eq, eq→==, ne→==, ok,
}
use cs3500_os.Fs.{bpb, Disk, Superblock, bblock, set_bit, bzero, balloc, bfree}
use cs3500_os.Fs.Bitmap.{in_use, set_in_use, Allocs, balloc-Allocs}

module _ (sb : Superblock) where
  -- The boot block and the blocks of the bitmap are in use.
  pub record IsBitmap (disk : Disk) : Type 0 where
    pub first : in_use sb disk 0 ≡ true
    pub bitmap : (k : ℕ) → k < sb.size → bblock sb k < sb.size → in_use sb disk (bblock sb k) ≡ true

  in_use-bzero :
      (disk : Disk) (r k : ℕ) → bblock sb k ≢ r → in_use sb (bzero disk r) k ≡ in_use sb disk k
  in_use-bzero disk r k other = rw (ne→== r (bblock sb k) (λ e. other (sym e))) refl

  taken_in_use :
      (disk : Disk) (r k : ℕ)
      → IsBitmap disk
      → r < sb.size
      → in_use sb disk r ≡ false
      → k < sb.size
      → in_use sb (bzero (set_bit disk (bblock sb r) (r % bpb) true) r) k
        ≡ (if r == k then true else in_use sb disk k)
  taken_in_use disk r k v lt free below =
      in_use-bzero (set_bit disk (bblock sb r) (r % bpb) true) r k apart
      ∙ set_in_use sb disk r k true
    where
      apart : bblock sb k ≢ r
      apart e =
          let used = v.bitmap k below (subst (λ j. j < sb.size) (sym e) lt) in
          let clash : in_use sb disk r ≡ true = subst (λ j. in_use sb disk j ≡ true) e used in
          ground (arith, clash, free)

  -- balloc
  pub in_use-balloc :
      (disk : Disk)
      → IsBitmap disk
      → (balloc sb disk).0 ≢ 0
      → (k : ℕ) → k < sb.size
      → in_use sb (balloc sb disk).1 k
        ≡ (if (balloc sb disk).0 == k then true else in_use sb disk k)
  in_use-balloc disk v got k below = go (balloc sb disk) got (balloc-Allocs sb disk)
    where
      go :
          (r : ℕ × Disk)
          → r.0 ≢ 0
          → Allocs sb disk 0 r
          → in_use sb r.1 k ≡ (if r.0 == k then true else in_use sb disk k)
      go (r, disk') got (inl (z, _, _)) = absurd (got z)
      go (r, disk') got (inr (_, lt, free, _, e)) =
          ap (λ d. in_use sb d k) e ∙ taken_in_use disk r k v lt free below

  -- If the boot block and the blocks of the bitmap are in use, then after a balloc that answers
  -- another block than 0, bfree of that block returns without a panic, and each block below the
  -- size is in use exactly if it was before the balloc.
  pub bfree-balloc :
      (disk : Disk)
      → IsBitmap disk
      → (balloc sb disk).0 ≢ 0
      → (disk' : Disk) × (bfree sb (balloc sb disk).1 (balloc sb disk).0 ≡ ok disk')
        × ((k : ℕ) → k < sb.size → in_use sb disk' k ≡ in_use sb disk k)
  unfolding bfree
  bfree-balloc disk v got =
      go (balloc sb disk) got (balloc-Allocs sb disk) (in_use-balloc disk v got)
    where
      go :
          (r : ℕ × Disk)
          → r.0 ≢ 0
          → Allocs sb disk 0 r
          → ((k : ℕ)
              → k < sb.size
              → in_use sb r.1 k ≡ (if r.0 == k then true else in_use sb disk k))
          → (disk' : Disk) × (bfree sb r.1 r.0 ≡ ok disk')
            × ((k : ℕ) → k < sb.size → in_use sb disk' k ≡ in_use sb disk k)
      go (r, d) got (inl (z, _, _)) marks = absurd (got z)
      go (r, d) got (inr (_, lt, free, _, _)) marks =
          let taken : in_use sb d r ≡ true = marks r lt ∙ rw (eq→== r r refl) refl in
          rw taken (
            _,
            refl,
            λ k below. set_in_use sb d r k false ∙ elim (Bool-cases (r == k)) [
              | inl same ↦
                  rw same (sym (subst (λ j. in_use sb disk j ≡ false) (==→eq r k same) free))
              | inr other ↦ rw other (marks k below ∙ rw other refl)
            ],
          )
