-- ===== src/PageTable/Bits.antt =====
-- vm.c: the `|` of an address and permissions, in a PTE.
use Prim.Native.Nat.{max, digits, bit_or-bitwise}
use native.Mathlib.Nat.{pow-suc, le_refl}
use cs3500_os.Base.{
  ℕ, zero, suc, ◌+◌, ◌*◌, ◌/◌, ◌%◌, ◌^◌, ◌≤◌, ◌<◌, ◌≡◌, refl, ap, arith, true, bit_or,
}
use cs3500_os.Kalloc.{phystop}
use cs3500_os.PageTable.{pte_v, pte2pa, make_pte}

abbrev or_digits : ℕ → ℕ → ℕ → ℕ
or_digits n a b = digits (λ y. y) max n a b

-- The count of digits to go matters as little as it is large.
or_digits-count : (n m a b : ℕ) → a ≤ n → a ≤ m → or_digits n a b ≡ or_digits m a b
or_digits-count zero zero a b p q = refl
or_digits-count (suc n) zero zero b p q = refl
or_digits-count zero (suc m) zero b p q = refl
or_digits-count (suc n) (suc m) zero b p q = refl
or_digits-count (suc n) zero (suc a) b p q = absurd (omega arith)
or_digits-count zero (suc m) (suc a) b p q = absurd (omega arith)
or_digits-count (suc n) (suc m) (suc a) b p q =
    omega (arith, or_digits-count n m (suc a / 2) (b / 2) (omega arith) (omega arith))

-- The lowest digit of `|`, and the others.
bit_or-halves : (a b : ℕ) → bit_or a b ≡ 2 * bit_or (a / 2) (b / 2) + max (a % 2) (b % 2)
bit_or-halves zero b = omega (arith, bit_or-bitwise 0 b, bit_or-bitwise 0 (b / 2))
bit_or-halves (suc a) b = omega (
  arith,
  bit_or-bitwise (suc a) b,
  bit_or-bitwise (suc a / 2) (b / 2),
  or_digits-count a (suc a / 2) (suc a / 2) (b / 2) (omega arith) (le_refl _),
)

bit_or-zero : (n a : ℕ) → a ≤ n → bit_or a 0 ≡ a
bit_or-zero n zero h = refl
bit_or-zero zero (suc a) h = absurd (omega arith)
bit_or-zero (suc n) (suc a) h =
    omega (arith, bit_or-halves (suc a) 0, bit_or-zero n (suc a / 2) (omega arith))

bit_or-one : (a : ℕ) → bit_or a 1 ≡ a / 2 * 2 + 1
bit_or-one a = omega (arith, bit_or-halves a 1, bit_or-zero (a / 2) (a / 2) (le_refl _))

-- Bits below k beside a multiple of 2^k.
bit_or-low : (k q r : ℕ) → r < 2 ^ k → bit_or (q * 2 ^ k) r ≡ q * 2 ^ k + r
bit_or-low zero q r h = ground (arith, bit_or-zero q q (le_refl _))
bit_or-low (suc k) q r h =
    let double : q * 2 ^ suc k ≡ 2 * (q * 2 ^ k) =
      omega (arith, ap (λ (t : ℕ). q * t) (pow-suc 2 k)) in
    ground (
      arith,
      double,
      bit_or-halves (q * 2 ^ suc k) r,
      bit_or-low k q (r / 2) (omega (arith, pow-suc 2 k)),
    )

bit_or-below : (k a b : ℕ) → a < 2 ^ k → b < 2 ^ k → bit_or a b < 2 ^ k
bit_or-below zero zero zero p q = ground (arith, bit_or-zero 0 0 (le_refl _))
bit_or-below zero (suc a) b p q = absurd (omega arith)
bit_or-below zero zero (suc b) p q = absurd (omega arith)
bit_or-below (suc k) a b p q =
    let two = pow-suc 2 k in
    let rest = bit_or-below k (a / 2) (b / 2) (omega arith) (omega arith) in
    ground (arith, bit_or-halves a b)

-- R, U and bits below 2^10 are bits below 2^10.
pub user_perm_below : (xperm : ℕ) → xperm < 1024 → bit_or 18 xperm < 1024
user_perm_below xperm h = bit_or-below 10 18 xperm (omega arith) h

pub make_pte-pte_v : (pa perm : ℕ) → pte_v (make_pte pa perm) ≡ true
make_pte-pte_v pa perm = ground (arith, bit_or-one (bit_or (pa / 2 ^ 12 * 2 ^ 10 % 2 ^ 64) perm))

pub pte2pa-make_pte :
    (pa perm : ℕ) → pa % 4096 ≡ 0 → pa < phystop → perm < 1024 → pte2pa (make_pte pa perm) ≡ pa
pte2pa-make_pte pa perm al lt small =
    let e : pa / 2 ^ 12 * 2 ^ 10 % 2 ^ 64 ≡ pa / 2 ^ 12 * 2 ^ 10 = omega arith in
    rw e (
      omega (
        arith,
        bit_or-low 10 (pa / 2 ^ 12) perm small,
        bit_or-one (bit_or (pa / 2 ^ 12 * 2 ^ 10) perm),
      ))
