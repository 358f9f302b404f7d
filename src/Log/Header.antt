-- ===== src/Log/Header.antt =====
-- log.c: write_head() and read_head() on the header block.
use cs3500_os.Base.{
  ℕ, ◌+◌, ◌≤◌, ◌≡◌, refl, ap₂, ◌∙◌, List, [], ◌∷◌, arith, length, update, eq→==, ne→==,
}
use cs3500_os.Log.{Block, read_blocks, fill_blocks}

-- Filling the words behind i leaves those up to i alone.
pub fill_blocks_below : (lh : List ℕ) (i w : ℕ) (hb : Block) → w ≤ i → fill_blocks lh i hb w ≡ hb w
unfolding fill_blocks
fill_blocks_below [] i w hb h = refl
fill_blocks_below (x ∷ lh) i w hb h =
    fill_blocks_below lh (i + 1) w _ (omega arith) ∙ rw (ne→== (i + 1) w (omega arith))

-- What is written is read back.
pub read_blocks-fill_blocks :
    (lh : List ℕ) (i : ℕ) (hb : Block) → read_blocks (length lh) i (fill_blocks lh i hb) ≡ lh
unfolding read_blocks fill_blocks
read_blocks-fill_blocks [] i hb = refl
read_blocks-fill_blocks (x ∷ lh) i hb =
    ap₂ ◌∷◌ (fill_blocks_below lh (i + 1) (i + 1) _ (omega arith) ∙ rw (eq→== (i + 1) (i + 1) refl))
      (read_blocks-fill_blocks lh (i + 1) (update hb (i + 1) x))
