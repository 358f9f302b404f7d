-- ===== src/Strings/Moves.antt =====
-- string.c: memset() and memmove().
use cs3500_os.Base.{
  ℕ, zero, suc, ◌+◌, ◌-◌, ◌%◌, ◌≤◌, ◌≡◌, refl, false, ◌&&◌, arith, ltb, leb, ◌==◌, if◌then◌else◌,
  update, ◌∙◌, inl, inr, Bool-cases, ◌⊎◌,
}
use cs3500_os.Strings.{Bytes, memset, copy_up, copy_down, memmove}

-- The n bytes from d on are those that were at s, all others are unchanged.
abbrev pub Moved : ℕ → ℕ → ℕ → Bytes → Bytes → Type 0
Moved n d s mem mem' =
    (a : ℕ) → mem' a ≡ (if leb d a && ltb a (d + n) then mem (s + (a - d)) else mem a)

-- memset of n bytes from d on leaves the low byte of c at each of them and all other bytes
-- unchanged.
pub memset-bytes :
    (n d c : ℕ) (mem : Bytes) (a : ℕ)
    → memset n d c mem a ≡ (if leb d a && ltb a (d + n) then c % 256 else mem a)
unfolding memset
memset-bytes zero d c mem a = ground arith
memset-bytes (suc n) d c mem a = memset-bytes n (d + 1) c (update mem d (c % 256)) a ∙ ground arith

copy_up-Moved :
    (n d s : ℕ) (mem : Bytes) → (d ≤ s) ⊎ (s + n ≤ d) → Moved n d s mem (copy_up n d s mem)
unfolding copy_up
copy_up-Moved zero d s mem h a = ground arith
copy_up-Moved (suc n) d s mem h a =
    let h' : (d + 1 ≤ s + 1) ⊎ (s + 1 + n ≤ d + 1) = elim h [
      | inl lo ↦ inl (omega arith)
      | inr hi ↦ inr (omega arith)
    ] in
    copy_up-Moved n (d + 1) (s + 1) (update mem d (mem s)) h' a ∙ grind arith

copy_down-Moved :
    (n d s end_d end_s : ℕ) (mem : Bytes)
    → s ≤ d
    → end_d ≡ d + n
    → end_s ≡ s + n
    → Moved n d s mem (copy_down n end_d end_s mem)
unfolding copy_down
copy_down-Moved zero d s end_d end_s mem h x y a = ground arith
copy_down-Moved (suc n) d s end_d end_s mem h x y a =
    copy_down-Moved n d s (end_d - 1) (end_s - 1) (update mem (end_d - 1) (mem (end_s - 1))) h
      (omega arith) (omega arith) a
    ∙ grind arith

-- memmove of n bytes leaves at the destination the bytes that were at the source before the call,
-- also where the two ranges overlap, and leaves all other bytes unchanged.
pub memmove-Moved : (n d s : ℕ) (mem : Bytes) → Moved n d s mem (memmove n d s mem)
unfolding memmove
memmove-Moved n d s mem a = elim (Bool-cases (n == 0)) [
  | inl none_left ↦ rw none_left (ground arith)
  | inr more ↦ elim (Bool-cases (ltb s d && ltb d (s + n))) [
    | inl down ↦
        rw (more, down) (copy_down-Moved n d s (d + n) (s + n) mem (ground arith) refl refl a)
    | inr up ↦ rw (more, up) (copy_up-Moved n d s mem (apart up) a)
  ]
]
  where
    apart : (ltb s d && ltb d (s + n)) ≡ false → (d ≤ s) ⊎ (s + n ≤ d)
    apart up = elim (Bool-cases (ltb s d)) [
      | inr lo ↦ inl (ground arith)
      | inl hi ↦ inr (ground arith)
    ]
