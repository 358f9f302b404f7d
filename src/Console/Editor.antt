-- ===== src/Console/Editor.antt =====
-- console.c: the line editor on two lists, and taking bytes off the line.
use cs3500_os.Base.{
  ℕ, zero, suc, ◌+◌, ◌-◌, ◌%◌, ◌^◌, ◌<◌, ◌≡◌, ◌≢◌, refl, sym, ap, subst, ◌∙◌, ◌&&◌, ◌||◌, not, List,
  [], ◌∷◌, ◌++◌, Absent, arith, length, ltb, ◌==◌, if◌then◌else◌, ne→==,
}
use cs3500_os.Console.{
  Cons, kill_line, back, newline, ctrl_p, ctrl_u, ctrl_h, ctrl_d, delete_key, carriage_return,
}
use cs3500_os.Console.Lines.{window, span, line, IsCons, window_snoc}

-- The line editor on the bytes that wait and the line that is typed.
abbrev pub drop_last : List ℕ → List ℕ
drop_last [] = []
drop_last (x ∷ []) = []
drop_last (x ∷ y ∷ ys) = x ∷ drop_last (y ∷ ys)

abbrev pub enter : ℕ → List ℕ → List ℕ → List ℕ × List ℕ
enter c ws ls =
    if c == newline || c == ctrl_d || length ws + length ls + 1 == 128
    then (ws ++ (ls ++ c ∷ []), [])
    else (ws, ls ++ c ∷ [])

abbrev pub edited : ℕ → List ℕ → List ℕ → List ℕ × List ℕ
edited c ws ls =
    if c == ctrl_p
    then (ws, ls)
    else if c == ctrl_u
    then (ws, [])
    else if c == ctrl_h || c == delete_key
    then (ws, drop_last ls)
    else if not (c == 0) && ltb (length ws + length ls) 128
    then enter (if c == carriage_return then newline else c) ws ls
    else (ws, ls)

pub drop_last-snoc : (xs : List ℕ) (x : ℕ) → drop_last (xs ++ x ∷ []) ≡ xs
drop_last-snoc [] x = refl
drop_last-snoc (y ∷ []) x = refl
drop_last-snoc (y ∷ z ∷ zs) x = ap (◌∷◌ y) (drop_last-snoc (z ∷ zs) x)

Absent-snoc : (n : ℕ) (xs : List ℕ) (x : ℕ) → Absent n (xs ++ x ∷ []) → Absent n xs × (x ≢ n)
Absent-snoc n [] x (h, _) = (tt, h)
Absent-snoc n (y ∷ ys) x (h, hs) = let (a, b) = Absent-snoc n ys x hs in ((h, a), b)

pub snoc-Absent : (n : ℕ) (xs : List ℕ) (x : ℕ) → Absent n xs → x ≢ n → Absent n (xs ++ x ∷ [])
snoc-Absent n [] x h ne = (ne, tt)
snoc-Absent n (y ∷ ys) x (h, hs) ne = (h, snoc-Absent n ys x hs ne)

-- Taking the last byte off a line that is not empty
pub back-line :
    (c : Cons)
    → IsCons c
    → c.e ≢ c.w
    → (line c ≡ line (back c) ++ c.buf ((c.e + 2 ^ 32 - 1) % 2 ^ 32 % 128) ∷ [])
      × (suc (span c.w (back c).e) ≡ span c.w c.e)
back-line c v ne =
    let shorter : span c.w c.e ≡ suc (span c.w (back c).e) = omega (arith, v.w_fits, v.e_fits) in
    (
      ap (window c.buf c.w) shorter
          ∙ window_snoc c.buf c.w (span c.w (back c).e) ((c.e + 2 ^ 32 - 1) % 2 ^ 32)
              (omega (arith, v.w_fits, v.e_fits)) v.w_fits,
      sym shorter,
    )

pub back-IsCons : (c : Cons) → IsCons c → c.e ≢ c.w → IsCons (back c)
back-IsCons c v ne =
    let (e, shorter) = back-line c v ne in
    record {
      r_fits = v.r_fits;
      w_fits = v.w_fits;
      e_fits = omega arith;
      bounded = omega (arith, v.bounded, shorter);
      one_line = (Absent-snoc newline (line (back c)) _ (subst (Absent newline) e v.one_line)).0;
    }

pub kill_line-all :
    (fuel : ℕ) (c : Cons)
    → IsCons c
    → span c.w c.e ≡ fuel
    → (kill_line fuel c).0 ≡ record { buf = c.buf; r = c.r; w = c.w; e = c.w }
unfolding kill_line
kill_line-all zero c v h =
    let same : c.e ≡ c.w = omega (arith, v.w_fits, v.e_fits) in
    ap (λ x. record { buf = c.buf; r = c.r; w = c.w; e = x }) same
kill_line-all (suc fuel) c v h =
    let ne : c.e ≢ c.w = (λ x. omega (arith, v.w_fits)) in
    let (e, shorter) = back-line c v ne in
    let last = (Absent-snoc newline (line (back c)) _ (subst (Absent newline) e v.one_line)).1 in
    rw (ne→== c.e c.w ne, ne→== (c.buf ((c.e + 2 ^ 32 - 1) % 2 ^ 32 % 128)) newline last)
      (kill_line-all fuel (back c) (back-IsCons c v ne) (omega (arith, shorter)))

pub span_self : (w : ℕ) → w < 2 ^ 32 → span w w ≡ 0
span_self w h = omega arith
