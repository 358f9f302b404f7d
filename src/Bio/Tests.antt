-- ===== src/Bio/Tests.antt =====
-- Tests of the buffer cache: block 7 is in use and block 8 is not.
use cs3500_os.Base.{◌≡◌, refl, true, false, List, [], ◌∷◌, arith, ok}
use cs3500_os.Bio.{Buf, bget, find_cached, recycle}
use cs3500_os.Bio.Unique.{IsCache, Gets, bget-Gets}

abbrev two_blocks : List Buf
two_blocks =
    record { self = 0; dev = 1; blockno = 7; valid = true; refcnt = 2 }
    ∷ record { self = 1; dev = 1; blockno = 8; valid = true; refcnt = 0 }
    ∷ []

two_blocks-IsCache : IsCache two_blocks
two_blocks-IsCache dev blockno = ground arith

bget-Gets_example : Gets 1 9 two_blocks (bget 1 9 two_blocks)
bget-Gets_example = bget-Gets 1 9 two_blocks two_blocks-IsCache

-- Block 9 takes the place of block 8.
bget_recycles :
    bget 1 9 two_blocks
    ≡ ok (
      record { self = 1; dev = 1; blockno = 9; valid = false; refcnt = 1 },
      record { self = 0; dev = 1; blockno = 7; valid = true; refcnt = 2 }
          ∷ record { self = 1; dev = 1; blockno = 9; valid = false; refcnt = 1 }
          ∷ [],
    )
unfolding bget find_cached recycle
bget_recycles = refl
