-- ===== src/Bio.antt =====
-- labs/week7/EE23B102/xv6-riscv/kernel/bio.c: the buffer cache. The list linked through prev and next is
-- the list of the buffers from head.next on. What bget() does under bcache.lock is one step; the caller
-- then waits for the buffer's sleeplock, whose holder is not part of this model, and so a caller of
-- brelse() is taken to hold it, and to have a reference, as the caller of bunpin() has.
pub mod Unique
mod Tests
use cs3500_os.Base.{
  ℕ, zero, suc, ◌+◌, ◌-◌, Bool, true, false, ◌&&◌, List, [], ◌∷◌, Option, none, some, ◌==◌,
  if◌then◌else◌, Outcome, ok, panic,
}

pub record Buf : Type 0 where
  pub self : ℕ
  pub dev : ℕ
  pub blockno : ℕ
  pub valid : Bool
  pub refcnt : ℕ

abbrev pub nbuf : ℕ
nbuf = 30

-- The loop of binit over the buffers from `self` on: each goes to the front of the list.
pub binit_loop : ℕ → ℕ → List Buf → List Buf
binit_loop zero self bs = bs
binit_loop (suc n) self bs =
    binit_loop n (self + 1)
      (record { self = self; dev = 0; blockno = 0; valid = false; refcnt = 0 } ∷ bs)

pub binit : List Buf
unfolding binit_loop
binit = binit_loop nbuf 0 []

abbrev pub holds : Buf → ℕ → ℕ → Bool
holds b dev blockno = b.dev == dev && b.blockno == blockno

-- The first loop of bget: the buffer, and the list with one reference more.
pub find_cached : ℕ → ℕ → List Buf → Option (Buf × List Buf)
find_cached dev blockno [] = none
find_cached dev blockno (b ∷ bs) =
    let b' : Buf = record b { refcnt = b.refcnt + 1 } in
    let rest = find_cached dev blockno bs in
    if holds b dev blockno
    then some (b', b' ∷ bs)
    else (elim rest [ none ↦ none | some (x, bs') ↦ some (x, b ∷ bs') ])

abbrev pub claim : ℕ → ℕ → Buf → Buf
claim dev blockno b = record b { dev = dev; blockno = blockno; valid = false; refcnt = 1 }

-- The second loop, from the end of the list back.
pub recycle : ℕ → ℕ → List Buf → Option (Buf × List Buf)
recycle dev blockno [] = none
recycle dev blockno (b ∷ bs) = elim (recycle dev blockno bs) [
  | some (x, bs') ↦ some (x, b ∷ bs')
  | none ↦ if b.refcnt == 0 then some (claim dev blockno b, claim dev blockno b ∷ bs) else none
]

pub bget : ℕ → ℕ → List Buf → Outcome (Buf × List Buf)
unfolding find_cached recycle
bget dev blockno bs = elim (find_cached dev blockno bs) [
  | some r ↦ ok r
  | none ↦ elim (recycle dev blockno bs) [ some r ↦ ok r | none ↦ panic ]
]

-- b->refcnt++ and b->refcnt-- on the buffer `self`
pub bpin : ℕ → List Buf → List Buf
bpin self [] = []
bpin self (b ∷ bs) =
    if b.self == self then record b { refcnt = b.refcnt + 1 } ∷ bs else b ∷ bpin self bs

pub bunpin : ℕ → List Buf → List Buf
bunpin self [] = []
bunpin self (b ∷ bs) =
    if b.self == self then record b { refcnt = b.refcnt - 1 } ∷ bs else b ∷ bunpin self bs

-- Takes the buffer `self` out of the list.
pub unlink : ℕ → List Buf → Option (Buf × List Buf)
unlink self [] = none
unlink self (b ∷ bs) =
    let rest = unlink self bs in
    if b.self == self
    then some (b, bs)
    else (elim rest [ none ↦ none | some (x, bs') ↦ some (x, b ∷ bs') ])

-- brelse() after releasesleep(); an unused buffer goes to the front.
pub brelse : ℕ → List Buf → List Buf
unfolding unlink bunpin
brelse self bs = elim (unlink self bs) [
  | none ↦ bs
  | some (b, others) ↦ if b.refcnt == 1 then record b { refcnt = 0 } ∷ others else bunpin self bs
]
