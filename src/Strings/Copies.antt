-- ===== src/Strings/Copies.antt =====
-- string.c: safestrcpy() and strncpy() copy a string.
use cs3500_os.Base.{
  ℕ, zero, suc, ◌+◌, ◌-◌, ◌^◌, ◌≤◌, ◌<◌, ◌≡◌, ◌≢◌, ◌⊎◌, refl, ap, ◌∙◌, false, [], ◌∷◌, arith, ◌==◌,
  update, inl, inr, Bool-cases, ne→==, ==→eq, ==→ne, gt→leb, eq→==, subst, sym,
}
use cs3500_os.Strings.{Bytes, zeros, strncpy_loop, strncpy, safestrcpy_loop, safestrcpy, string_at}

abbrev pub Outside : ℕ → ℕ → ℕ → Type 0
Outside n p a = (a < p) ⊎ (p + n ≤ a)

safestrcpy_loop-Outside :
    (n s t : ℕ) (mem : Bytes) (a : ℕ) → Outside (n + 1) s a → safestrcpy_loop n s t mem a ≡ mem a
unfolding safestrcpy_loop
safestrcpy_loop-Outside zero s t mem a o = ground arith
safestrcpy_loop-Outside (suc n) s t mem a o =
    let o' : Outside (n + 1) (s + 1) a = elim o [
      | inl lo ↦ inl (omega arith)
      | inr hi ↦ inr (omega arith)
    ] in
    let rest = safestrcpy_loop-Outside n (s + 1) (t + 1) (update mem s (mem t)) a o' in
    ground (arith, rest)

string_at-update :
    (n p d v : ℕ) (mem : Bytes) → Outside n p d → string_at n p (update mem d v) ≡ string_at n p mem
string_at-update zero p d v mem o = refl
string_at-update (suc n) p d v mem o =
    let o' : Outside n (p + 1) d = elim o [
      | inl lo ↦ inl (omega arith)
      | inr hi ↦ inr (omega arith)
    ] in
    let ne : d ≢ p = elim o [ inl lo ↦ omega arith | inr hi ↦ omega arith ] in
    simp (ne→== d p ne, string_at-update n (p + 1) d v mem o') refl

string_at-empty : (n p : ℕ) (mem : Bytes) → mem p ≡ 0 → string_at n p mem ≡ []
string_at-empty zero p mem z = refl
string_at-empty (suc n) p mem z = rw (eq→== (mem p) 0 z) refl

string_at-cons :
    (n p c : ℕ) (mem : Bytes)
    → mem p ≡ c
    → (c == 0) ≡ false
    → string_at (suc n) p mem ≡ c ∷ string_at n (p + 1) mem
string_at-cons n p c mem e more =
    rw (ne→== (mem p) 0 (λ z. ==→ne c 0 more (sym e ∙ z))) (ap (λ x. x ∷ string_at n (p + 1) mem) e)

safestrcpy_loop-string_at :
    (n s t : ℕ) (mem : Bytes)
    → (s + n < t) ⊎ (t + n ≤ s)
    → string_at (suc n) s (safestrcpy_loop n s t mem) ≡ string_at n t mem
unfolding safestrcpy_loop
safestrcpy_loop-string_at zero s t mem o = rw (eq→== s s refl) refl
safestrcpy_loop-string_at (suc n) s t mem o = elim (Bool-cases (mem t == 0)) [
  | inl end ↦
      let z = ==→eq _ _ end in
      let left = update (update mem s (mem t)) (s + 1) 0 in
      let step : safestrcpy_loop (suc n) s t mem ≡ left = rw end refl in
      let stop : left s ≡ 0 = rw (ne→== (s + 1) s (omega arith), eq→== s s refl) z in
      ap (string_at (suc (suc n)) s) step
      ∙ string_at-empty (suc (suc n)) s left stop
      ∙ sym (string_at-empty (suc n) t mem z)
  | inr more ↦
      let copied = update mem s (mem t) in
      let o' : (s + 1 + n < t + 1) ⊎ (t + 1 + n ≤ s + 1) = elim o [
        | inl lo ↦ inl (omega arith)
        | inr hi ↦ inr (omega arith)
      ] in
      let apart : Outside n (t + 1) s = elim o [
        | inl lo ↦ inl (omega arith)
        | inr hi ↦ inr (omega arith)
      ] in
      let first : safestrcpy_loop n (s + 1) (t + 1) copied s ≡ mem t =
        safestrcpy_loop-Outside n (s + 1) (t + 1) copied s (inl (omega arith))
        ∙ rw (eq→== s s refl) refl in
      let rest =
        safestrcpy_loop-string_at n (s + 1) (t + 1) copied o'
        ∙ string_at-update n (t + 1) s (mem t) mem apart in
      let step : safestrcpy_loop (suc n) s t mem ≡ safestrcpy_loop n (s + 1) (t + 1) copied =
        rw more refl in
      ap (string_at (suc (suc n)) s) step
      ∙ string_at-cons (suc n) s (mem t) (safestrcpy_loop n (s + 1) (t + 1) copied) first more
      ∙ ap (◌∷◌ (mem t)) rest
      ∙ sym (string_at-cons n t (mem t) mem refl more)
]

-- For 0 < n < 2^31 and a destination of n bytes that does not overlap the n bytes at the source,
-- safestrcpy leaves at the destination the string of the source cut at n - 1 bytes, ended by a NUL
-- within the n bytes, and leaves each byte outside them unchanged.
pub safestrcpy-string_at :
    (n s t : ℕ) (mem : Bytes) (a : ℕ)
    → 0 < n
    → n < 2 ^ 31
    → (s + n ≤ t) ⊎ (t + n ≤ s)
    → Outside n s a
    → (string_at n s (safestrcpy n s t mem) ≡ string_at (n - 1) t mem)
      × (safestrcpy n s t mem a ≡ mem a)
unfolding safestrcpy
safestrcpy-string_at n s t mem a pos small o out =
    let k = n - 1 in
    let n' : n ≡ suc k = omega arith in
    rw (ne→== n 0 (omega arith), gt→leb (2 ^ 31) n small)
      (
        subst (λ j. string_at j s (safestrcpy_loop k s t mem) ≡ string_at k t mem) (sym n')
            (safestrcpy_loop-string_at k s t mem
              (elim o [ inl lo ↦ inl (omega arith) | inr hi ↦ inr (omega arith) ])),
        safestrcpy_loop-Outside k s t mem a
            (elim out [ inl lo ↦ inl (omega arith) | inr hi ↦ inr (omega arith) ]),
      )

zeros-Outside : (n s : ℕ) (mem : Bytes) (a : ℕ) → Outside n s a → zeros n s mem a ≡ mem a
unfolding zeros
zeros-Outside zero s mem a o = refl
zeros-Outside (suc n) s mem a o =
    let o' : Outside n (s + 1) a = elim o [
      | inl lo ↦ inl (omega arith)
      | inr hi ↦ inr (omega arith)
    ] in
    let rest = zeros-Outside n (s + 1) (update mem s 0) a o' in
    elim o [ inl lo ↦ ground (arith, rest) | inr hi ↦ ground (arith, rest) ]

strncpy_loop-Outside :
    (n s t : ℕ) (mem : Bytes) (a : ℕ) → Outside n s a → strncpy_loop n s t mem a ≡ mem a
unfolding strncpy_loop
strncpy_loop-Outside zero s t mem a o = refl
strncpy_loop-Outside (suc n) s t mem a o =
    let o' : Outside n (s + 1) a = elim o [
      | inl lo ↦ inl (omega arith)
      | inr hi ↦ inr (omega arith)
    ] in
    let rest = strncpy_loop-Outside n (s + 1) (t + 1) (update mem s (mem t)) a o' in
    let pad = zeros-Outside n (s + 1) (update mem s (mem t)) a o' in
    elim o [ inl lo ↦ ground (arith, rest, pad) | inr hi ↦ ground (arith, rest, pad) ]

strncpy_loop-string_at :
    (n s t : ℕ) (mem : Bytes)
    → (s + n ≤ t) ⊎ (t + n ≤ s)
    → string_at n s (strncpy_loop n s t mem) ≡ string_at n t mem
unfolding strncpy_loop
strncpy_loop-string_at zero s t mem o = refl
strncpy_loop-string_at (suc n) s t mem o =
    let copied = update mem s (mem t) in
    let kept : copied s ≡ mem t = rw (eq→== s s refl) refl in
    elim (Bool-cases (mem t == 0)) [
      | inl end ↦
          let z = ==→eq _ _ end in
          let step : strncpy_loop (suc n) s t mem ≡ zeros n (s + 1) copied = rw end refl in
          ap (string_at (suc n) s) step
          ∙ string_at-empty (suc n) s (zeros n (s + 1) copied)
              (zeros-Outside n (s + 1) copied s (inl (omega arith)) ∙ kept ∙ z)
          ∙ sym (string_at-empty (suc n) t mem z)
      | inr more ↦
          let o' : (s + 1 + n ≤ t + 1) ⊎ (t + 1 + n ≤ s + 1) = elim o [
            | inl lo ↦ inl (omega arith)
            | inr hi ↦ inr (omega arith)
          ] in
          let apart : Outside n (t + 1) s = elim o [
            | inl lo ↦ inl (omega arith)
            | inr hi ↦ inr (omega arith)
          ] in
          let left = strncpy_loop n (s + 1) (t + 1) copied in
          let step : strncpy_loop (suc n) s t mem ≡ left = rw more refl in
          ap (string_at (suc n) s) step
          ∙ string_at-cons n s (mem t) left
              (strncpy_loop-Outside n (s + 1) (t + 1) copied s (inl (omega arith)) ∙ kept) more
          ∙ ap (◌∷◌ (mem t)) (
              strncpy_loop-string_at n (s + 1) (t + 1) copied o'
              ∙ string_at-update n (t + 1) s (mem t) mem apart)
          ∙ sym (string_at-cons n t (mem t) mem refl more)
    ]

-- For n < 2^31 and a destination of n bytes that does not overlap the n bytes at the source,
-- strncpy leaves at the destination the string of the source, both cut at n bytes, and leaves each
-- byte outside the destination unchanged.
pub strncpy-string_at :
    (n s t : ℕ) (mem : Bytes) (a : ℕ)
    → n < 2 ^ 31
    → (s + n ≤ t) ⊎ (t + n ≤ s)
    → Outside n s a
    → (string_at n s (strncpy n s t mem) ≡ string_at n t mem) × (strncpy n s t mem a ≡ mem a)
unfolding strncpy
strncpy-string_at n s t mem a small o out =
    rw (gt→leb (2 ^ 31) n small)
      (strncpy_loop-string_at n s t mem o, strncpy_loop-Outside n s t mem a out)
