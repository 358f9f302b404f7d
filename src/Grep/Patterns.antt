-- ===== src/Grep/Patterns.antt =====
-- grep.c: what a pattern means, without the matcher.
use cs3500_os.Base.{ℕ, ◌≡◌, true, [], ◌∷◌, ◌++◌, ◌==◌, if◌then◌else◌, ◌≢◌}
use cs3500_os.Grep.{Str, star, dollar, caret, fits}

-- The end of a pattern, with or without a `$`, after items that match one byte, or any number of bytes.
pub data Pattern : Type 0 where
  open_end : Pattern
  line_end : Pattern
  one : ℕ → Pattern → Pattern
  many : ℕ → Pattern → Pattern

abbrev pub parse : Str → Pattern
parse [] = open_end
parse (c ∷ []) = if c == dollar then line_end else one c open_end
parse (c ∷ d ∷ re) = if d == star then many c (parse re) else one c (parse (d ∷ re))

-- The text begins with a string of the pattern.
pub data Begins : Pattern → Str → Type 0 where
  at_open : {text : Str} → Begins open_end text
  at_line : Begins line_end []
  at_one :
      {c x : ℕ} {p : Pattern} {text : Str}
      → fits c x ≡ true
      → Begins p text
      → Begins (one c p) (x ∷ text)
  no_more : {c : ℕ} {p : Pattern} {text : Str} → Begins p text → Begins (many c p) text
  one_more :
      {c x : ℕ} {p : Pattern} {text : Str}
      → fits c x ≡ true
      → Begins (many c p) text
      → Begins (many c p) (x ∷ text)

-- A string of the pattern is somewhere in the text; after a `^`, at its beginning.
pub data Occurs (re text : Str) : Type 0 where
  anchored : (rest : Str) → re ≡ caret ∷ rest → Begins (parse rest) text → Occurs re text
  somewhere :
      ((rest : Str) → re ≢ caret ∷ rest)
      → (before after : Str) → text ≡ before ++ after
      → Begins (parse re) after
      → Occurs re text
