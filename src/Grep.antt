-- ===== src/Grep.antt =====
-- labs/week7/EE23B102/xv6-riscv/user/grep.c: the matcher. A string is the list of its bytes before the
-- null, so that a test for the null is a test for the end of the list.
pub mod Patterns
pub mod Search
mod Tests
use cs3500_os.Base.{ℕ, Bool, true, false, ◌&&◌, ◌||◌, List, [], ◌∷◌, ◌==◌, if◌then◌else◌}

abbrev pub Str : Type 0
Str = List ℕ

abbrev pub star : ℕ
star = 42

abbrev pub dollar : ℕ
dollar = 36

abbrev pub dot : ℕ
dot = 46

abbrev pub caret : ℕ
caret = 94

-- *p == '\0'
abbrev pub at_end : Str → Bool
at_end [] = true
at_end (c ∷ text) = false

-- re[0] == '.' || re[0] == *text
abbrev pub fits : ℕ → ℕ → Bool
fits c x = c == dot || c == x

-- matchstar(), where `here` is matchhere() of the rest of the pattern
pub matchstar : (Str → Bool) → ℕ → Str → Bool
matchstar here c [] = here []
matchstar here c (x ∷ text) = here (x ∷ text) || (fits c x && matchstar here c text)

-- The last test of matchhere(), where `here` is matchhere() of re + 1
abbrev pub first_fits : (Str → Bool) → ℕ → Str → Bool
first_fits here c [] = false
first_fits here c (x ∷ text) = fits c x && here text

pub matchhere : Str → Str → Bool
unfolding matchstar
matchhere [] text = true
matchhere (c ∷ []) text = if c == dollar then at_end text else first_fits (matchhere []) c text
matchhere (c ∷ d ∷ re) text =
    if d == star then matchstar (matchhere re) c text else first_fits (matchhere (d ∷ re)) c text

-- The loop of match()
pub match_loop : Str → Str → Bool
match_loop re [] = matchhere re []
match_loop re (x ∷ text) = matchhere re (x ∷ text) || match_loop re text

pub match : Str → Str → Bool
match [] text = match_loop [] text
match (c ∷ re) text = if c == caret then matchhere re text else match_loop (c ∷ re) text
