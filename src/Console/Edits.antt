-- ===== src/Console/Edits.antt =====
-- console.c: what a typed character does to the line.
use cs3500_os.Base.{
  ℕ, suc, ◌+◌, ◌%◌, ◌^◌, ◌<◌, ◌≡◌, refl, sym, ap, ap₂, subst, ◌∙◌, true, ◌&&◌, ◌||◌, not, [], ◌∷◌,
  ◌++◌, Absent, arith, length, update, ltb, ◌==◌, if◌then◌else◌, inl, inr, ◌⊎◌, Bool-cases, eq→==,
  ==→eq, ==→ne,
}
use cs3500_os.Console.{
  Cons, store_char, consoleintr, back, newline, ctrl_p, ctrl_u, ctrl_h, ctrl_d, delete_key,
  carriage_return,
}
use cs3500_os.Console.Lines.{
  window, span, waiting, line, IsCons, length-window, window-update, window_snoc, window-append,
}
use cs3500_os.Console.Editor.{
  drop_last, enter, edited, drop_last-snoc, snoc-Absent, back-line, back-IsCons, kill_line-all,
  span_self,
}

module _ (c : Cons) (v : IsCons c) where
  total : span c.r c.e ≡ span c.r c.w + span c.w c.e
  total = omega (arith, v.r_fits, v.w_fits, v.e_fits, v.bounded)

  -- A byte that is stored
  module _ (ch : ℕ) (room : span c.r c.e < 128) where
    abbrev new_buf : ℕ → ℕ
    new_buf = update c.buf (c.e % 128) ch

    abbrev new_e : ℕ
    new_e = (c.e + 1) % 2 ^ 32

    longer : span c.w new_e ≡ suc (span c.w c.e)
    longer = omega (arith, total, v.w_fits, v.e_fits)

    new_line : window new_buf c.w (span c.w new_e) ≡ line c ++ ch ∷ []
    new_line =
        ap (window new_buf c.w) longer
        ∙ (window_snoc new_buf c.w (span c.w c.e) c.e (omega (arith, v.w_fits, v.e_fits)) v.w_fits
            ∙ ap₂ (λ xs x. xs ++ x ∷ [])
                (window-update c.buf c.w (span c.w c.e) c.e 0 ch (omega (arith, total))
                  (omega (arith, v.w_fits, v.e_fits)) v.w_fits)
                (rw (eq→== (c.e % 128) (c.e % 128) refl) refl))

    same_waiting : window new_buf c.r (span c.r c.w) ≡ waiting c
    same_waiting =
        window-update c.buf c.r (span c.r c.w) c.e (span c.w c.e) ch (omega (arith, total))
          (omega (arith, v.r_fits, v.w_fits, v.e_fits)) v.r_fits

    all_waiting : window new_buf c.r (span c.r new_e) ≡ waiting c ++ (line c ++ ch ∷ [])
    all_waiting =
        let sum : span c.r new_e ≡ span c.r c.w + span c.w new_e =
          omega (arith, total, longer, v.r_fits, v.w_fits, v.e_fits) in
        ap (window new_buf c.r) sum
        ∙ (window-append new_buf c.r (span c.r c.w) (span c.w new_e) c.w
              (omega (arith, v.r_fits, v.w_fits)) v.r_fits
            ∙ ap₂ (λ xs ys. xs ++ ys) same_waiting new_line)

    -- The stored byte is behind the line, or ends it.
    store_char-enter :
        IsCons (store_char ch c).cons
        × ((waiting (store_char ch c).cons, line (store_char ch c).cons)
            ≡ enter ch (waiting c) (line c))
        × (((store_char ch c).woken ≡ true) ⊎ (waiting (store_char ch c).cons ≡ waiting c))
    unfolding store_char
    store_char-enter =
        let count : length (waiting c) + length (line c) + 1 ≡ span c.r new_e = omega (
          arith,
          length-window c.buf c.r (span c.r c.w),
          length-window c.buf c.w (span c.w c.e),
          total,
          v.r_fits,
          v.e_fits,
        ) in
        elim (Bool-cases (ch == newline || ch == ctrl_d || span c.r new_e == 128)) [
          | inl done ↦
              let empty = span_self new_e (omega arith) in
              rw (count, done)
                (
                  record {
                    r_fits = v.r_fits;
                    w_fits = omega arith;
                    e_fits = omega arith;
                    bounded = omega (arith, total, empty, v.r_fits, v.e_fits);
                    one_line = subst (λ n. Absent newline (window new_buf new_e n)) (sym empty) tt;
                  },
                  ap₂ (λ xs n. (xs, window new_buf new_e n)) all_waiting empty,
                  inl refl,
                )
          | inr more ↦
              rw (count, more)
                (
                  record {
                    r_fits = v.r_fits;
                    w_fits = v.w_fits;
                    e_fits = omega arith;
                    bounded = omega (arith, total, longer);
                    one_line = subst (Absent newline) (sym new_line) (
                        snoc-Absent newline (line c) ch v.one_line
                          (λ e. absurd (ground (arith, e, more))));
                  },
                  ap₂ (λ xs ys. (xs, ys)) same_waiting new_line,
                  inr same_waiting,
                )
        ]

  -- From a buffer of at most 128 bytes, with no newline in the line that is being typed,
  -- consoleintr keeps that, and does with the bytes that wait for readers and the line what a line
  -- editor on two lists does: ^U drops the line, backspace and delete drop its last byte, ^P and 0
  -- change nothing, and any other character is put behind the line, a carriage return as a
  -- newline, if there are fewer than 128 bytes; newline, ^D and the 128th byte end the line.
  -- Readers are woken if more bytes wait.
  pub consoleintr-edited :
      (ch : ℕ)
      → IsCons (consoleintr ch c).cons
        × ((waiting (consoleintr ch c).cons, line (consoleintr ch c).cons)
            ≡ edited ch (waiting c) (line c))
        × (((consoleintr ch c).woken ≡ true) ⊎ (waiting (consoleintr ch c).cons ≡ waiting c))
  unfolding consoleintr
  consoleintr-edited ch = elim (Bool-cases (ch == ctrl_p)) [
    | inl p ↦ rw p (v, refl, inr refl)
    | inr np ↦ elim (Bool-cases (ch == ctrl_u)) [
      | inl u ↦
          let empty = span_self c.w v.w_fits in
          rw (np, u, kill_line-all (span c.w c.e) c v refl)
            (
              record {
                r_fits = v.r_fits;
                w_fits = v.w_fits;
                e_fits = v.w_fits;
                bounded = omega (arith, v.bounded, empty);
                one_line = subst (λ n. Absent newline (window c.buf c.w n)) (sym empty) tt;
              },
              ap (λ n. (waiting c, window c.buf c.w n)) empty,
              inr refl,
            )
      | inr nu ↦ elim (Bool-cases (ch == ctrl_h || ch == delete_key)) [
        | inl h ↦ elim (Bool-cases (c.e == c.w)) [
          | inl y ↦
              let none_typed : span c.w c.e ≡ 0 = omega (arith, ==→eq c.e c.w y, v.w_fits) in
              rw (np, nu, h, y)
                (
                  v,
                  ap (λ n. (waiting c, n))
                      (ap (window c.buf c.w) none_typed
                        ∙ sym (ap (λ n. drop_last (window c.buf c.w n)) none_typed)),
                  inr refl,
                )
          | inr n ↦
              let ne = ==→ne c.e c.w n in
              let (e, _) = back-line c v ne in
              rw (np, nu, h, n)
                (
                  back-IsCons c v ne,
                  ap (λ ys. (waiting c, ys))
                      (sym (ap drop_last e ∙ drop_last-snoc (line (back c)) _)),
                  inr refl,
                )
        ]
        | inr nh ↦ elim (Bool-cases (not (ch == 0) && ltb (span c.r c.e) 128)) [
          | inl some_room ↦
              let count : length (waiting c) + length (line c) ≡ span c.r c.e = omega (
                arith,
                length-window c.buf c.r (span c.r c.w),
                length-window c.buf c.w (span c.w c.e),
                total,
              ) in
              rw (np, nu, nh, some_room, ap (λ n. not (ch == 0) && ltb n 128) count ∙ some_room)
                (store_char-enter (if ch == carriage_return then newline else ch)
                  (ground (arith, some_room)))
          | inr full ↦
              let count : length (waiting c) + length (line c) ≡ span c.r c.e = omega (
                arith,
                length-window c.buf c.r (span c.r c.w),
                length-window c.buf c.w (span c.w c.e),
                total,
              ) in
              rw (np, nu, nh, full, ap (λ n. not (ch == 0) && ltb n 128) count ∙ full)
                (v, refl, inr refl)
        ]
      ]
    ]
  ]
