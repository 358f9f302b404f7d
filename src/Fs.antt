-- ===== src/Fs.antt =====
-- labs/week7/EE23B102/xv6-riscv/kernel/fs.c: the bitmap of free disk blocks, and the elements of a path.
-- The disk is what the buffer cache shows of it: block, byte and bit. The calls of bread(), log_write()
-- and brelse() are the reads and writes of it.
pub mod Bitmap
pub mod Frees
pub mod Paths
pub mod Inodes
mod Tests
use cs3500_os.Base.{
  ℕ, zero, suc, ◌+◌, ◌-◌, ◌*◌, ◌/◌, ◌%◌, Bool, true, false, not, ◌&&◌, Option, none, some, List, [],
  ◌∷◌, ◌++◌, length, take, ltb, leb, ◌==◌, if◌then◌else◌, update, Outcome, ok, panic, ◌>>=◌, ◌>>◌,
  panic_if,
}

-- Bits of a bitmap block: BSIZE * 8
abbrev pub bpb : ℕ
bpb = 8192

abbrev pub Disk : Type 0
Disk = ℕ → ℕ → ℕ → Bool

pub record Superblock : Type 0 where
  pub size : ℕ
  pub bmapstart : ℕ

-- BBLOCK(b, sb)
abbrev pub bblock : Superblock → ℕ → ℕ
bblock sb b = b / bpb + sb.bmapstart

-- bp->data[bi/8] & m, and the assignments to that bit
abbrev pub get_bit : Disk → ℕ → ℕ → Bool
get_bit disk block bi = disk block (bi / 8) (bi % 8)

abbrev pub set_bit : Disk → ℕ → ℕ → Bool → Disk
set_bit disk block bi v =
    update disk block (update (disk block) (bi / 8) (update (disk block (bi / 8)) (bi % 8) v))

-- bzero()
abbrev pub bzero : Disk → ℕ → Disk
bzero disk b = update disk b (λ i j. false)

-- The inner loop of balloc() from bi on: the first free block of the bitmap block of b.
pub scan_block : Superblock → Disk → ℕ → ℕ → ℕ → Option ℕ
scan_block sb disk b zero bi = none
scan_block sb disk b (suc n) bi =
    let rest = scan_block sb disk b n (bi + 1) in
    if ltb (b + bi) sb.size then (if get_bit disk (bblock sb b) bi then rest else some bi) else none

-- balloc() when it has found bit bi of the bitmap block of b
abbrev pub take_block : Superblock → Disk → ℕ → ℕ → ℕ × Disk
take_block sb disk b bi = (b + bi, bzero (set_bit disk (bblock sb b) bi true) (b + bi))

abbrev pub or_take : Superblock → Disk → ℕ → ℕ × Disk → Option ℕ → ℕ × Disk
or_take sb disk b rest none = rest
or_take sb disk b rest (some bi) = take_block sb disk b bi

-- The outer loop from b on, with fuel.
pub balloc_loop : Superblock → Disk → ℕ → ℕ → ℕ × Disk
balloc_loop sb disk zero b = (0, disk)
balloc_loop sb disk (suc fuel) b =
    let rest = balloc_loop sb disk fuel (b + bpb) in
    if ltb b sb.size then or_take sb disk b rest (scan_block sb disk b bpb 0) else (0, disk)

-- balloc(). Each round of the loop leaves 8192 blocks behind, so size rounds are enough.
pub balloc : Superblock → Disk → ℕ × Disk
balloc sb disk = balloc_loop sb disk sb.size 0

pub bfree : Superblock → Disk → ℕ → Outcome Disk
bfree sb disk b =
    panic_if (not (get_bit disk (bblock sb b) (b % bpb)))
    >> ok (set_bit disk (bblock sb b) (b % bpb) false)

abbrev pub Str : Type 0
Str = List ℕ

abbrev pub slash : ℕ
slash = 47

abbrev pub dirsiz : ℕ
dirsiz = 14

-- while(*path == '/') path++;
pub skip_slashes : Str → Str
skip_slashes [] = []
skip_slashes (c ∷ path) = let rest = skip_slashes path in if c == slash then rest else c ∷ path

-- while(*path != '/' && *path != 0) path++; what it passes, and what it leaves.
pub element : Str → Str
element [] = []
element (c ∷ path) = let rest = element path in if c == slash then [] else c ∷ rest

pub after_element : Str → Str
after_element [] = []
after_element (c ∷ path) = let rest = after_element path in if c == slash then c ∷ path else rest

-- skipelem() from the first byte that is no slash: the rest of the path, and the name of up to DIRSIZ bytes.
abbrev pub skip_from : Str → Option (Str × Str)
skip_from [] = none
skip_from (c ∷ path) =
    some (skip_slashes (after_element (c ∷ path)), take dirsiz (element (c ∷ path)))

pub skipelem : Str → Option (Str × Str)
skipelem path = skip_from (skip_slashes path)

-- The names that the loop of namex() looks up, with fuel.
pub names : ℕ → Str → List Str
names zero path = []
names (suc fuel) path = elim (skipelem path) [
  | none ↦ []
  | some (rest, name) ↦ name ∷ names fuel rest
]
