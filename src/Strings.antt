-- ===== src/Strings.antt =====
-- labs/week7/EE23B102/xv6-riscv/kernel/string.c. Memory is a function from addresses to bytes, and no
-- buffer wraps around the address space. The functions that return their destination give the memory
-- that they leave; a difference of two bytes is an int, as its 32-bit pattern.
pub mod Moves
pub mod Compares
pub mod Copies
mod Tests
use cs3500_os.Base.{
  ℕ, zero, suc, ◌+◌, ◌-◌, ◌%◌, ◌^◌, Bool, true, false, ◌&&◌, ◌||◌, not, List, [], ◌∷◌, Option, none,
  some, ltb, leb, ◌==◌, if◌then◌else◌, update,
}

abbrev pub Bytes : Type 0
Bytes = ℕ → ℕ

-- cdst[i] = c for n bytes from d on; a char keeps the low byte of c
pub memset : ℕ → ℕ → ℕ → Bytes → Bytes
memset zero d c mem = mem
memset (suc n) d c mem = memset n (d + 1) c (update mem d (c % 256))

abbrev pub difference : ℕ → ℕ → ℕ
difference a b = (2 ^ 32 + a - b) % 2 ^ 32

pub memcmp : ℕ → ℕ → ℕ → Bytes → ℕ
memcmp zero p q mem = 0
memcmp (suc n) p q mem =
    let rest = memcmp n (p + 1) (q + 1) mem in
    if not (mem p == mem q) then difference (mem p) (mem q) else rest

-- *d++ = *s++
pub copy_up : ℕ → ℕ → ℕ → Bytes → Bytes
copy_up zero d s mem = mem
copy_up (suc n) d s mem = copy_up n (d + 1) (s + 1) (update mem d (mem s))

-- *--d = *--s
pub copy_down : ℕ → ℕ → ℕ → Bytes → Bytes
copy_down zero d s mem = mem
copy_down (suc n) d s mem = copy_down n (d - 1) (s - 1) (update mem (d - 1) (mem (s - 1)))

pub memmove : ℕ → ℕ → ℕ → Bytes → Bytes
unfolding copy_up copy_down
memmove n d s mem =
    if n == 0
    then mem
    else if ltb s d && ltb d (s + n)
    then copy_down n (d + n) (s + n) mem
    else copy_up n d s mem

pub strncmp : ℕ → ℕ → ℕ → Bytes → ℕ
strncmp zero p q mem = 0
strncmp (suc n) p q mem =
    let rest = strncmp n (p + 1) (q + 1) mem in
    if not (mem p == 0) && mem p == mem q then rest else difference (mem p) (mem q)

-- The second loop of strncpy.
pub zeros : ℕ → ℕ → Bytes → Bytes
zeros zero s mem = mem
zeros (suc n) s mem = zeros n (s + 1) (update mem s 0)

pub strncpy_loop : ℕ → ℕ → ℕ → Bytes → Bytes
unfolding zeros
strncpy_loop zero s t mem = mem
strncpy_loop (suc n) s t mem =
    let copied = update mem s (mem t) in
    let rest = strncpy_loop n (s + 1) (t + 1) copied in
    if mem t == 0 then zeros n (s + 1) copied else rest

-- A negative n copies nothing.
pub strncpy : ℕ → ℕ → ℕ → Bytes → Bytes
unfolding strncpy_loop
strncpy n s t mem = if leb (2 ^ 31) n then mem else strncpy_loop n s t mem

-- The loop of safestrcpy with n - 1 bytes left, and the final *s = 0.
pub safestrcpy_loop : ℕ → ℕ → ℕ → Bytes → Bytes
safestrcpy_loop zero s t mem = update mem s 0
safestrcpy_loop (suc n) s t mem =
    let copied = update mem s (mem t) in
    let rest = safestrcpy_loop n (s + 1) (t + 1) copied in
    if mem t == 0 then update copied (s + 1) 0 else rest

pub safestrcpy : ℕ → ℕ → ℕ → Bytes → Bytes
unfolding safestrcpy_loop
safestrcpy n s t mem = if n == 0 || leb (2 ^ 31) n then mem else safestrcpy_loop (n - 1) s t mem

-- The loop of strlen from n on, on fuel; `none` where the fuel runs out.
pub strlen_loop : ℕ → ℕ → ℕ → Bytes → Option ℕ
strlen_loop zero s n mem = none
strlen_loop (suc fuel) s n mem =
    let rest = strlen_loop fuel s (n + 1) mem in if mem (s + n) == 0 then some n else rest

pub strlen : ℕ → ℕ → Bytes → Option ℕ
unfolding strlen_loop
strlen fuel s mem = strlen_loop fuel s 0 mem

-- The C string at p, cut at n bytes.
abbrev pub string_at : ℕ → ℕ → Bytes → List ℕ
string_at zero p mem = []
string_at (suc n) p mem =
    let rest = string_at n (p + 1) mem in if mem p == 0 then [] else mem p ∷ rest
