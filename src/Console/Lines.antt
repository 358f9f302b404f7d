-- ===== src/Console/Lines.antt =====
-- console.c: the buffer as the bytes that wait to be read and the line that is being typed.
use cs3500_os.Base.{
  ℕ, zero, suc, ◌+◌, ◌-◌, ◌%◌, ◌^◌, ◌≤◌, ◌<◌, ◌≡◌, refl, sym, ap, ap₂, ◌∙◌, List, [], ◌∷◌, ◌++◌,
  Absent, arith, length, update, ne→==,
}
use cs3500_os.Console.{Cons, newline}

-- The n bytes from the index i on.
abbrev pub window : (ℕ → ℕ) → ℕ → ℕ → List ℕ
window b i zero = []
window b i (suc n) = b (i % 128) ∷ window b ((i + 1) % 2 ^ 32) n

-- to - from, as uint
abbrev pub span : ℕ → ℕ → ℕ
span from to = (to + 2 ^ 32 - from) % 2 ^ 32

-- The bytes that consoleread may take, and the line behind them, which may still be edited.
abbrev pub waiting : Cons → List ℕ
waiting c = window c.buf c.r (span c.r c.w)

abbrev pub line : Cons → List ℕ
line c = window c.buf c.w (span c.w c.e)

pub record IsCons (c : Cons) : Type 0 where
  pub r_fits : c.r < 2 ^ 32
  pub w_fits : c.w < 2 ^ 32
  pub e_fits : c.e < 2 ^ 32
  pub bounded : span c.r c.w + span c.w c.e ≤ 128
  pub one_line : Absent newline (line c)

pub length-window : (b : ℕ → ℕ) (i n : ℕ) → length (window b i n) ≡ n
length-window b i zero = refl
length-window b i (suc n) = ap suc (length-window b ((i + 1) % 2 ^ 32) n)

-- A write behind a window of fewer than 128 bytes leaves it alone.
pub window-update :
    (b : ℕ → ℕ) (i n j d c : ℕ)
    → n + d < 128
    → j ≡ (i + n + d) % 2 ^ 32
    → i < 2 ^ 32
    → window (update b (j % 128) c) i n ≡ window b i n
window-update b i zero j d c h e lt = refl
window-update b i (suc n) j d c h e lt =
    ap₂ ◌∷◌ (rw (ne→== (j % 128) (i % 128) (omega arith)) refl)
      (window-update b ((i + 1) % 2 ^ 32) n j d c (omega arith) (omega arith) (omega arith))

-- One more byte
pub window_snoc :
    (b : ℕ → ℕ) (i n j : ℕ)
    → j ≡ (i + n) % 2 ^ 32
    → i < 2 ^ 32
    → window b i (suc n) ≡ window b i n ++ b (j % 128) ∷ []
window_snoc b i zero j e lt =
    let same : j ≡ i = omega arith in ap (λ k. b (k % 128) ∷ []) (sym same)
window_snoc b i (suc n) j e lt =
    ap (◌∷◌ (b (i % 128))) (window_snoc b ((i + 1) % 2 ^ 32) n j (omega arith) (omega arith))

pub window-append :
    (b : ℕ → ℕ) (i n m j : ℕ)
    → j ≡ (i + n) % 2 ^ 32
    → i < 2 ^ 32
    → window b i (n + m) ≡ window b i n ++ window b j m
window-append b i zero m j e lt =
    let none_first : 0 + m ≡ m = omega arith in
    let same : j ≡ i = omega arith in ap (window b i) none_first ∙ ap (λ k. window b k m) (sym same)
window-append b i (suc n) m j e lt =
    let next : suc n + m ≡ suc (n + m) = omega arith in
    ap (window b i) next
    ∙ ap (◌∷◌ (b (i % 128))) (window-append b ((i + 1) % 2 ^ 32) n m j (omega arith) (omega arith))
