-- ===== src/Net/Checksum.antt =====
-- net.c, net.h: the Internet checksum, and the order of bytes.
use cs3500_os.Base.{
  ℕ, ◌+◌, ◌-◌, ◌*◌, ◌/◌, ◌%◌, ◌^◌, ◌≤◌, ◌<◌, ◌≡◌, ◌∙◌, ap, List, [], ◌∷◌, ◌++◌, arith,
}
use cs3500_os.Net.{sum_words, in_cksum, bswaps, bswapl}

-- The sum of the words, unbounded.
unfoldable pub word_sum : List ℕ → ℕ
word_sum [] = 0
word_sum (a ∷ []) = a
word_sum (a ∷ b ∷ bytes) = a + b * 2 ^ 8 + word_sum bytes

sum_words-word_sum :
    (bytes : List ℕ) (sum : ℕ)
    → sum + word_sum bytes < 2 ^ 32
    → sum_words bytes sum ≡ sum + word_sum bytes
unfolding sum_words word_sum
sum_words-word_sum [] sum h = omega arith
sum_words-word_sum (a ∷ []) sum h = omega arith
sum_words-word_sum (a ∷ b ∷ bytes) sum h =
    let e : (sum + (a + b * 2 ^ 8)) % 2 ^ 32 ≡ sum + (a + b * 2 ^ 8) = omega arith in
    ap (sum_words bytes) e
    ∙ sum_words-word_sum bytes (sum + (a + b * 2 ^ 8)) (omega arith)
    ∙ omega arith

-- The two foldings, and the complement.
folded : ℕ → ℕ
folded sum =
    let once = sum % 2 ^ 16 + sum / 2 ^ 16 in
    let twice = (once + once / 2 ^ 16) % 2 ^ 32 in (2 ^ 32 - 1 - twice) % 2 ^ 16

folded_multiple :
    (sum : ℕ)
    → sum < 2 ^ 32
    → (folded sum ≤ 65535)
      × (folded sum + sum ≡ 65535 * (1 + sum / 2 ^ 16 + (sum % 2 ^ 16 + sum / 2 ^ 16) / 2 ^ 16))
unfolding folded
folded_multiple sum lt = (omega arith, omega arith)

folded_zero : (sum k : ℕ) → sum < 2 ^ 32 → 0 < sum → sum ≡ 65535 * k → folded sum ≡ 0
unfolding folded
folded_zero sum k lt pos e = omega arith

in_cksum-folded :
    (bytes : List ℕ) → word_sum bytes < 2 ^ 32 → in_cksum bytes ≡ folded (word_sum bytes)
unfolding in_cksum folded
in_cksum-folded bytes lt = ap folded (sum_words-word_sum bytes 0 (omega arith) ∙ omega arith)

-- An even number of bytes.
abbrev pub flat : List (ℕ × ℕ) → List ℕ
flat [] = []
flat ((a, b) ∷ pairs) = a ∷ b ∷ flat pairs

word_sum-flat :
    (pairs : List (ℕ × ℕ)) (bytes : List ℕ)
    → word_sum (flat pairs ++ bytes) ≡ word_sum (flat pairs) + word_sum bytes
unfolding word_sum
word_sum-flat [] bytes = omega arith
word_sum-flat ((a, b) ∷ pairs) bytes = omega (arith, word_sum-flat pairs bytes)

-- Where the words of a header with a zero checksum field at an even offset add up to less than
-- 2^32 - 65535, the checksum in_cksum of it, stored in the field with the low byte first, makes
-- in_cksum of the header 0.
pub in_cksum_verifies :
    (before : List (ℕ × ℕ)) (after : List ℕ)
    → word_sum (flat before ++ 0 ∷ 0 ∷ after) + 65535 < 2 ^ 32
    → let c = in_cksum (flat before ++ 0 ∷ 0 ∷ after) in
      in_cksum (flat before ++ c % 2 ^ 8 ∷ c / 2 ^ 8 ∷ after) ≡ 0
unfolding word_sum
in_cksum_verifies before after lt =
    let s0 = word_sum (flat before ++ 0 ∷ 0 ∷ after) in
    let c = in_cksum (flat before ++ 0 ∷ 0 ∷ after) in
    let filled = flat before ++ c % 2 ^ 8 ∷ c / 2 ^ 8 ∷ after in
    let a = word_sum-flat before (0 ∷ 0 ∷ after) in
    let b : word_sum filled ≡ s0 + c =
      (let x = word_sum-flat before (c % 2 ^ 8 ∷ c / 2 ^ 8 ∷ after) in omega arith) in
    let (small, e) = folded_multiple s0 (omega arith) in
    let f : c ≡ folded s0 = in_cksum-folded (flat before ++ 0 ∷ 0 ∷ after) (omega arith) in
    in_cksum-folded filled (omega arith)
    ∙ folded_zero (word_sum filled) (1 + s0 / 2 ^ 16 + (s0 % 2 ^ 16 + s0 / 2 ^ 16) / 2 ^ 16)
        (omega arith) (omega arith) (omega arith)

-- bswapl
pub bswapl-bswapl : (val : ℕ) → val < 2 ^ 32 → bswapl (bswapl val) ≡ val
unfolding bswapl
bswapl-bswapl val lt = omega arith

bswaps-bswaps : (val : ℕ) → val < 2 ^ 16 → bswaps (bswaps val) ≡ val
unfolding bswaps
bswaps-bswaps val lt = omega arith
