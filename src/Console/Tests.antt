-- ===== src/Console/Tests.antt =====
-- Typing and reading a line.
use cs3500_os.Base.{◌≡◌, refl, true, false, [], ◌∷◌, arith, ◌⊎◌, ◌==◌, if◌then◌else◌}
use cs3500_os.Console.{Cons, returned, consoleintr, consoleread, kill_line, ctrl_u}
use cs3500_os.Console.Lines.{IsCons, waiting, line}
use cs3500_os.Console.Edits.{consoleintr-edited}
use cs3500_os.Console.Editor.{edited}
use cs3500_os.Console.Reads.{Agrees, take_line, consoleread-take_line}

-- "hi\n" waits, and "ab" is typed; the indexes are about to wrap.
abbrev typing : Cons
typing = record {
  buf = λ i.
      if i == 126
      then 104
      else if i == 127
      then 105
      else if i == 0
      then 10
      else if i == 1
      then 97
      else 98;
  r = 4294967294;
  w = 1;
  e = 3;
}

typing-IsCons : IsCons typing
typing-IsCons = record {
  r_fits = ground arith;
  w_fits = ground arith;
  e_fits = ground arith;
  bounded = ground arith;
  one_line = ((λ e. absurd (ground (arith, e))), ((λ e. absurd (ground (arith, e))), tt));
}

consoleintr-edited_example :
    IsCons (consoleintr 13 typing).cons
    × ((waiting (consoleintr 13 typing).cons, line (consoleintr 13 typing).cons)
        ≡ edited 13 (waiting typing) (line typing))
    × (((consoleintr 13 typing).woken ≡ true)
        ⊎ (waiting (consoleintr 13 typing).cons ≡ waiting typing))
consoleintr-edited_example = consoleintr-edited typing typing-IsCons 13

consoleread-take_line_example :
    Agrees typing
      (consoleread (λ a. true) false 10 10 4096 [] typing)
      (take_line (λ a. true) false 10 10 4096 [] (waiting typing))
consoleread-take_line_example =
    consoleread-take_line (λ a. true) false 10 10 4096 [] typing typing-IsCons

-- The whole line is read, and the next read waits.
reads_line :
    consoleread (λ a. true) false 10 10 4096 [] typing
    ≡ returned 3 (104 ∷ 105 ∷ 10 ∷ []) (record { buf = typing.buf; r = 1; w = 1; e = 3 })
unfolding consoleread
reads_line = refl

-- ^U takes the typed line back.
kills_line : line (consoleintr ctrl_u typing).cons ≡ []
unfolding consoleintr kill_line
kills_line = refl
