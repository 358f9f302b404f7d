-- ===== src/Console.antt =====
-- labs/week7/EE23B102/xv6-riscv/kernel/console.c: the buffer in which a line is typed, edited and read.
-- A character is a number below 256; what is echoed is the list of the bytes given to uartputc_sync().
-- procdump() only prints, and is left out. A call of consoleread holds the lock until it returns or
-- sleeps, so `consoleread` is one such stretch: `asleep` is the sleep, with the bytes still to read and
-- the address to write to. The answers of killed() and of either_copyout() are parameters.
pub mod Lines
pub mod Editor
pub mod Edits
pub mod Reads
mod Tests
use cs3500_os.Base.{
  ℕ, zero, suc, ◌+◌, ◌-◌, ◌%◌, ◌^◌, Bool, true, false, ◌&&◌, ◌||◌, not, List, [], ◌∷◌, ◌++◌, ltb,
  ◌==◌, if◌then◌else◌, update,
}

abbrev pub input_buf_size : ℕ
input_buf_size = 128

-- C(x), for the letters P, U, H and D
abbrev pub ctrl_p : ℕ
ctrl_p = 16

abbrev pub ctrl_u : ℕ
ctrl_u = 21

abbrev pub ctrl_h : ℕ
ctrl_h = 8

abbrev pub ctrl_d : ℕ
ctrl_d = 4

abbrev pub delete_key : ℕ
delete_key = 127

abbrev pub newline : ℕ
newline = 10

abbrev pub carriage_return : ℕ
carriage_return = 13

-- The struct cons; the indexes are uint and wrap.
pub record Cons : Type 0 where
  pub buf : ℕ → ℕ
  pub r : ℕ
  pub w : ℕ
  pub e : ℕ

-- consputc(BACKSPACE)
abbrev pub rubout : List ℕ
rubout = 8 ∷ 32 ∷ 8 ∷ []

-- cons.e--
abbrev pub back : Cons → Cons
back c = record c { e = (c.e + 2 ^ 32 - 1) % 2 ^ 32 }

-- The state and the echo of the loop of ^U, on fuel.
pub kill_line : ℕ → Cons → Cons × List ℕ
kill_line zero c = (c, [])
kill_line (suc fuel) c =
    let (killed, echo) = kill_line fuel (back c) in
    if not (c.e == c.w) && not (c.buf ((c.e + 2 ^ 32 - 1) % 2 ^ 32 % input_buf_size) == newline)
    then (killed, rubout ++ echo)
    else (c, [])

-- What a character leaves, what it echoes, and whether it wakes the readers.
pub record Typed : Type 0 where
  pub cons : Cons
  pub echo : List ℕ
  pub woken : Bool

-- The case of a character that is stored, as c
pub store_char : ℕ → Cons → Typed
store_char c cons =
    let e = (cons.e + 1) % 2 ^ 32 in
    let buf = update cons.buf (cons.e % input_buf_size) c in
    if c == newline || c == ctrl_d || (e + 2 ^ 32 - cons.r) % 2 ^ 32 == input_buf_size
    then record {
      cons = record { buf = buf; r = cons.r; w = e; e = e };
      echo = c ∷ [];
      woken = true;
    }
    else record {
      cons = record { buf = buf; r = cons.r; w = cons.w; e = e };
      echo = c ∷ [];
      woken = false;
    }

pub consoleintr : ℕ → Cons → Typed
unfolding kill_line store_char
consoleintr c cons =
    if c == ctrl_p
    then record { cons = cons; echo = []; woken = false }
    else if c == ctrl_u
    then record {
      cons = (kill_line ((cons.e + 2 ^ 32 - cons.w) % 2 ^ 32) cons).0;
      echo = (kill_line ((cons.e + 2 ^ 32 - cons.w) % 2 ^ 32) cons).1;
      woken = false;
    }
    else if c == ctrl_h || c == delete_key
    then (if not (cons.e == cons.w)
        then record { cons = back cons; echo = rubout; woken = false }
        else record { cons = cons; echo = []; woken = false })
    else if not (c == 0) && ltb ((cons.e + 2 ^ 32 - cons.r) % 2 ^ 32) input_buf_size
    then store_char (if c == carriage_return then newline else c) cons
    else record { cons = cons; echo = []; woken = false }

-- The end of a stretch of consoleread: it returned a count or -1, or sleeps on &cons.r. `out` is what it
-- has given to either_copyout.
pub data Ended : Type 0 where
  returned : (count : ℕ) → (out : List ℕ) → Cons → Ended
  refused : (out : List ℕ) → Cons → Ended
  asleep : (left : ℕ) → (dst : ℕ) → (out : List ℕ) → Cons → Ended

-- The loop of consoleread with n bytes to go of target; copyout answers per address.
pub consoleread : (ℕ → Bool) → Bool → ℕ → ℕ → ℕ → List ℕ → Cons → Ended
consoleread copyout killed target zero dst out cons = returned target out cons
consoleread copyout killed target (suc n) dst out cons =
    let c = cons.buf (cons.r % input_buf_size) in
    let after = record cons { r = (cons.r + 1) % 2 ^ 32 } in
    let rest = consoleread copyout killed target n ((dst + 1) % 2 ^ 64) (out ++ c ∷ []) after in
    if cons.r == cons.w
    then (if killed then refused out cons else asleep (suc n) dst out cons)
    else if c == ctrl_d
    then returned (target - suc n) out
        (if ltb (suc n) target then record after { r = (after.r + 2 ^ 32 - 1) % 2 ^ 32 } else after)
    else if not (copyout dst)
    then returned (target - suc n) out after
    else if c == newline
    then returned (target - n) (out ++ c ∷ []) after
    else rest
