-- ===== src/Strings/Compares.antt =====
-- string.c: what a result of 0 of memcmp() and strncmp() means, and strlen().
use cs3500_os.Base.{
  ℕ, zero, suc, ◌+◌, ◌<◌, ◌≡◌, ◌↔◌, refl, sym, ap, ◌∙◌, List, [], ◌∷◌, some, arith, ◌==◌, inl, inr,
  Bool-cases, ==→eq, ==→ne, eq→==, ne→==, ap₂, subst, length,
}
use cs3500_os.Strings.{Bytes, difference, memcmp, strncmp, strlen_loop, strlen, string_at}

-- The n bytes at p.
abbrev pub bytes_at : ℕ → ℕ → Bytes → List ℕ
bytes_at zero p mem = []
bytes_at (suc n) p mem = mem p ∷ bytes_at n (p + 1) mem

abbrev pub AreBytes : Bytes → Type 0
AreBytes mem = (a : ℕ) → mem a < 256

difference_zero : (a b : ℕ) → a < 256 → b < 256 → difference a b ≡ 0 → a ≡ b
difference_zero a b x y h = omega arith

-- On a memory of bytes, memcmp of n bytes is 0 exactly if the n bytes at the two addresses are
-- equal.
pub memcmp-bytes_at :
    (n p q : ℕ) (mem : Bytes)
    → AreBytes mem
    → (memcmp n p q mem ≡ 0) ↔ (bytes_at n p mem ≡ bytes_at n q mem)
unfolding memcmp
memcmp-bytes_at n p q mem w = (to n p q, back n p q)
  where
    to : (n p q : ℕ) → memcmp n p q mem ≡ 0 → bytes_at n p mem ≡ bytes_at n q mem
    to zero p q e = refl
    to (suc n) p q e = elim (Bool-cases (mem p == mem q)) [
      | inl same ↦
          let e' = rw same at e in
          let x = ==→eq _ _ same in let r = to n (p + 1) (q + 1) e' in ap₂ (◌∷◌) x r
      | inr differ ↦ absurd (==→ne _ _ differ (difference_zero _ _ (w p) (w q) (rw differ at e)))
    ]

    back : (n p q : ℕ) → bytes_at n p mem ≡ bytes_at n q mem → memcmp n p q mem ≡ 0
    back zero p q e = refl
    back (suc n) p q e =
        let x : mem p ≡ mem q = cc in
        let r : bytes_at n (p + 1) mem ≡ bytes_at n (q + 1) mem = cc in
        rw (eq→== _ _ x) (back n (p + 1) (q + 1) r)

-- On a memory of bytes, strncmp of at most n bytes is 0 exactly if the strings at the two
-- addresses, each cut at n bytes, are equal.
pub strncmp-string_at :
    (n p q : ℕ) (mem : Bytes)
    → AreBytes mem
    → (strncmp n p q mem ≡ 0) ↔ (string_at n p mem ≡ string_at n q mem)
unfolding strncmp
strncmp-string_at n p q mem w = (to n p q, back n p q)
  where
    to : (n p q : ℕ) → strncmp n p q mem ≡ 0 → string_at n p mem ≡ string_at n q mem
    to zero p q e = refl
    to (suc n) p q e =
        let r = to n (p + 1) (q + 1) in
        let d = difference_zero (mem p) (mem q) (w p) (w q) in
        elim (Bool-cases (mem p == mem q)) [
          | inr differ ↦ absurd (==→ne _ _ differ (d (ground arith)))
          | inl same ↦
              let x = ==→eq _ _ same in
              elim (Bool-cases (mem p == 0)) [
                | inl end ↦ let z = ==→eq _ _ end in rw (end, eq→== (mem q) 0 (sym x ∙ z)) refl
                | inr more ↦
                    rw (more, ne→== (mem q) 0 (λ z. ==→ne _ _ more (x ∙ z)))
                      (ap₂ (◌∷◌) x (r (rw (more, same) at e)))
              ]
        ]

    back : (n p q : ℕ) → string_at n p mem ≡ string_at n q mem → strncmp n p q mem ≡ 0
    back zero p q e = refl
    back (suc n) p q e = elim (Bool-cases (mem p == 0)) [
      | inl end ↦ elim (Bool-cases (mem q == 0)) [
        | inl end' ↦ rw end (rw (==→eq _ _ end, ==→eq _ _ end') refl)
        | inr more ↦ let e' = rw (end, more) at e in absurd (cc)
      ]
      | inr more ↦ elim (Bool-cases (mem q == 0)) [
        | inl end' ↦ let e' = rw (more, end') at e in absurd (cc)
        | inr more' ↦
            let e' = rw (more, more') at e in
            let x : mem p ≡ mem q = cc in
            let r : string_at n (p + 1) mem ≡ string_at n (q + 1) mem = cc in
            rw (more, eq→== _ _ x) (back n (p + 1) (q + 1) r)
      ]
    ]

-- strlen
strlen_loop-string_at :
    (fuel s n : ℕ) (mem : Bytes)
    → length (string_at fuel (s + n) mem) < fuel
    → strlen_loop fuel s n mem ≡ some (n + length (string_at fuel (s + n) mem))
unfolding strlen_loop
strlen_loop-string_at zero s n mem h = absurd (omega arith)
strlen_loop-string_at (suc fuel) s n mem h = elim (Bool-cases (mem (s + n) == 0)) [
  | inl end ↦ rw end (ap some (omega arith))
  | inr more ↦
      let h' = rw more at h in
      let at : s + (n + 1) ≡ s + n + 1 = omega arith in
      let r =
        strlen_loop-string_at fuel s (n + 1) mem
          (subst (λ k. length (string_at fuel k mem) < fuel) (sym at) (omega arith)) in
      rw more (r ∙ ap some (ap (λ k. n + 1 + length (string_at fuel k mem)) at ∙ omega arith))
]

-- If the string at s ends before the fuel is used up, strlen returns, and gives its length.
pub strlen-string_at :
    (fuel s : ℕ) (mem : Bytes)
    → length (string_at fuel s mem) < fuel
    → strlen fuel s mem ≡ some (length (string_at fuel s mem))
unfolding strlen
strlen-string_at fuel s mem h =
    let at : s + 0 ≡ s = omega arith in
    subst (λ k. strlen_loop fuel s 0 mem ≡ some (length (string_at fuel k mem))) at
      (strlen_loop-string_at fuel s 0 mem
          (subst (λ k. length (string_at fuel k mem) < fuel) (sym at) h)
        ∙ ap some (omega arith))
