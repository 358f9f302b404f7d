-- ===== src/Grep/Tests.antt =====
-- grep.c: patterns at work.
use cs3500_os.Base.{◌≡◌, refl, true, false, [], ◌∷◌}
use cs3500_os.Grep.{Str, matchstar, matchhere, match_loop, match, star, dot, caret, dollar}
use cs3500_os.Grep.Patterns.{Occurs}
use cs3500_os.Grep.Search.{match-Occurs}

-- `^ab*.$` and `abbc`
abbrev pattern_of_four : Str
pattern_of_four = caret ∷ 97 ∷ 98 ∷ star ∷ dot ∷ dollar ∷ []

abbrev abbc : Str
abbc = 97 ∷ 98 ∷ 98 ∷ 99 ∷ []

match-Occurs_example :
    (match pattern_of_four abbc ≡ true → Occurs pattern_of_four abbc)
    × (Occurs pattern_of_four abbc → match pattern_of_four abbc ≡ true)
match-Occurs_example = match-Occurs pattern_of_four abbc

matches : match pattern_of_four abbc ≡ true
unfolding match matchhere matchstar match_loop
matches = refl

no_match : match (98 ∷ caret ∷ []) abbc ≡ false
unfolding match matchhere matchstar match_loop
no_match = refl
