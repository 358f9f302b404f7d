-- ===== src/Grep/Search.antt =====
-- grep.c: match() finds what the pattern means.
use cs3500_os.Base.{
  ℕ, ◌≡◌, ◌≢◌, refl, sym, ap, subst, Bool, true, false, ◌&&◌, ◌||◌, [], ◌∷◌, ◌++◌, ◌==◌, inl, inr,
  arith, Bool-cases, ==→eq, ==→ne,
}
use cs3500_os.Grep.{
  Str, star, dollar, caret, at_end, fits, matchstar, first_fits, matchhere, match_loop, match,
}
use cs3500_os.Grep.Patterns.{
  Pattern, open_end, line_end, one, many, parse, Begins, at_open, at_line, at_one, no_more,
  one_more, Occurs, anchored, somewhere,
}

-- A matcher of the pattern p.
abbrev Decides : (Str → Bool) → Pattern → Type 0
Decides here p =
    (text : Str) → ((here text ≡ true → Begins p text) × (Begins p text → here text ≡ true))

matchstar-Decides :
    (here : Str → Bool) (c : ℕ) (p : Pattern)
    → Decides here p
    → Decides (matchstar here c) (many c p)
unfolding matchstar
matchstar-Decides here c p h [] = (λ e. no_more ((h []).0 e), back)
  where
    back : Begins (many c p) [] → here [] ≡ true
    back (no_more b) = (h []).1 b
matchstar-Decides here c p h (x ∷ text) =
    let (later_forth, later_back) = matchstar-Decides here c p h text in
    (forth later_forth, back later_back)
  where
    forth :
        (matchstar here c text ≡ true → Begins (many c p) text)
        → (here (x ∷ text) || (fits c x && matchstar here c text)) ≡ true
        → Begins (many c p) (x ∷ text)
    forth go_on e = elim (Bool-cases (here (x ∷ text))) [
      | inl now ↦ no_more ((h (x ∷ text)).0 now)
      | inr later ↦ one_more (ground (arith, e, later)) (go_on (ground (arith, e, later)))
    ]

    back :
        (Begins (many c p) text → matchstar here c text ≡ true)
        → Begins (many c p) (x ∷ text)
        → (here (x ∷ text) || (fits c x && matchstar here c text)) ≡ true
    back go_on (no_more b) = rw ((h (x ∷ text)).1 b) refl
    back go_on (one_more f b) = let r = go_on b in ground (arith, f, r)

first_fits-Decides :
    (here : Str → Bool) (c : ℕ) (p : Pattern)
    → Decides here p
    → Decides (first_fits here c) (one c p)
first_fits-Decides here c p h [] = (λ e. absurd (ground (arith, e)), back)
  where
    back : Begins (one c p) [] → false ≡ true
    back b = elim b [ ]
first_fits-Decides here c p h (x ∷ text) =
    (λ e. at_one (ground (arith, e)) ((h text).0 (ground (arith, e))), back)
  where
    back : Begins (one c p) (x ∷ text) → (fits c x && here text) ≡ true
    back (at_one f b) = let r = (h text).1 b in ground (arith, f, r)

at_end-Decides : Decides at_end line_end
at_end-Decides [] = (λ e. at_line, λ b. refl)
at_end-Decides (x ∷ text) = (λ e. absurd (ground (arith, e)), back)
  where
    back : Begins line_end (x ∷ text) → false ≡ true
    back b = elim b [ ]

pub matchhere-Decides : (re : Str) → Decides (matchhere re) (parse re)
unfolding matchhere
matchhere-Decides [] text = (λ e. at_open, λ b. refl)
matchhere-Decides (c ∷ []) text = elim (Bool-cases (c == dollar)) [
  | inl last ↦ rw last (at_end-Decides text)
  | inr other ↦ rw other (first_fits-Decides (matchhere []) c open_end (matchhere-Decides []) text)
]
matchhere-Decides (c ∷ d ∷ re) text = elim (Bool-cases (d == star)) [
  | inl starred ↦
      rw starred (matchstar-Decides (matchhere re) c (parse re) (matchhere-Decides re) text)
  | inr plain ↦
      rw plain (
        first_fits-Decides (matchhere (d ∷ re)) c (parse (d ∷ re)) (matchhere-Decides (d ∷ re))
          text)
]

match_loop_finds :
    (re text : Str)
    → match_loop re text ≡ true
    → (before after : Str) × (text ≡ before ++ after) × Begins (parse re) after
unfolding match_loop
match_loop_finds re [] e = ([], [], refl, (matchhere-Decides re []).0 e)
match_loop_finds re (x ∷ text) e = elim (Bool-cases (matchhere re (x ∷ text))) [
  | inl now ↦ ([], x ∷ text, refl, (matchhere-Decides re (x ∷ text)).0 now)
  | inr later ↦
      let (before, after, split, b) = match_loop_finds re text (ground (arith, e, later)) in
      (x ∷ before, after, ap (λ u. x ∷ u) split, b)
]

match_loop_found :
    (re before after : Str) → Begins (parse re) after → match_loop re (before ++ after) ≡ true
unfolding match_loop
match_loop_found re [] [] b = (matchhere-Decides re []).1 b
match_loop_found re [] (x ∷ after) b = rw ((matchhere-Decides re (x ∷ after)).1 b) refl
match_loop_found re (x ∷ before) after b =
    let r = match_loop_found re before after b in ground (arith, r)

abbrev head : Str → ℕ
head [] = 0
head (x ∷ text) = x

abbrev tail : Str → Str
tail [] = []
tail (x ∷ text) = text

loop-Occurs :
    (re text : Str)
    → ((rest : Str) → re ≢ caret ∷ rest)
    → (match_loop re text ≡ true → Occurs re text) × (Occurs re text → match_loop re text ≡ true)
loop-Occurs re text free = (forth, back)
  where
    forth : match_loop re text ≡ true → Occurs re text
    forth e =
        let (before, after, split, b) = match_loop_finds re text e in
        somewhere free before after split b

    back : Occurs re text → match_loop re text ≡ true
    back (anchored rest e b) = absurd (free rest e)
    back (somewhere f before after split b) =
        subst (λ u. match_loop re u ≡ true) (sym split) (match_loop_found re before after b)

-- match answers true exactly if the text holds a string of the pattern, which is read as single
-- bytes, dots, starred bytes and a final dollar; at the beginning of the text if the pattern
-- starts with a caret.
pub match-Occurs :
    (re text : Str)
    → (match re text ≡ true → Occurs re text) × (Occurs re text → match re text ≡ true)
unfolding match
match-Occurs [] text = loop-Occurs [] text (λ rest e. cc)
match-Occurs (c ∷ re) text = elim (Bool-cases (c == caret)) [
  | inl hat ↦ rw hat (forth hat, back hat)
  | inr other ↦ rw other (loop-Occurs (c ∷ re) text (λ rest e. ==→ne c caret other (ap head e)))
]
  where
    forth : (c == caret) ≡ true → matchhere re text ≡ true → Occurs (c ∷ re) text
    forth hat e =
        anchored re (ap (λ d. d ∷ re) (==→eq c caret hat)) ((matchhere-Decides re text).0 e)

    back : (c == caret) ≡ true → Occurs (c ∷ re) text → matchhere re text ≡ true
    back hat (anchored rest e b) =
        (matchhere-Decides re text).1 (subst (λ u. Begins (parse u) text) (sym (ap tail e)) b)
    back hat (somewhere f before after split b) =
        absurd (f re (ap (λ d. d ∷ re) (==→eq c caret hat)))
