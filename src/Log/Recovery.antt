-- ===== src/Log/Recovery.antt =====
-- log.c: what recover_from_log() makes of a disk.
use cs3500_os.Base.{
  ℕ, zero, suc, ◌+◌, ◌≤◌, ◌<◌, ◌≡◌, ◌≢◌, refl, sym, ap, subst, ◌∙◌, ◌⊎◌, Bool, true, false, List,
  [], ◌∷◌, ◌++◌, arith, if◌then◌else◌, length, take, All, member, update, ne→==,
}
use cs3500_os.Log.{
  Block, Disk, Trace, Cache, apply, logblocks, read_blocks, fill_blocks, read_head, write_head,
  install_trans, recover_from_log,
}

pub apply-append : (s t : Trace) (d : Disk) → apply (s ++ t) d ≡ apply t (apply s d)
apply-append [] t d = refl
apply-append ((b, v) ∷ s) t d = apply-append s t (update d b v)

-- No write of the trace goes to b.
abbrev pub Untouched : ℕ → Trace → Type 0
Untouched b t = All (λ w. w.0 ≢ b) t

pub apply-Untouched : (b : ℕ) (t : Trace) (d : Disk) → Untouched b t → apply t d b ≡ d b
apply-Untouched b [] d u = refl
apply-Untouched b ((x, v) ∷ t) d u = apply-Untouched b t (update d x v) u.1 ∙ rw (ne→== x b u.0)

pub take-Untouched : (b k : ℕ) (t : Trace) → Untouched b t → Untouched b (take k t)
take-Untouched b zero t u = tt
take-Untouched b (suc k) [] u = tt
take-Untouched b (suc k) (w ∷ t) u = (u.0, take-Untouched b k t u.1)

-- After a reboot, bread() gives what the disk holds.
abbrev pub booted : Disk → Cache
booted d = record { block = d; pins = λ b. 0 }

module _ (start : ℕ) where
  -- A block outside the log: log.start is the header, and logblocks blocks follow it.
  abbrev pub Home : ℕ → Type 0
  Home b = (b < start) ⊎ (start + logblocks < b)

  -- The disk that recover_from_log() leaves of d.
  abbrev pub recovered : Disk → Disk
  recovered d = apply (recover_from_log start (booted d)).1 d

  -- The writes of install_trans, when the log blocks hold what f says.
  abbrev pub installs : List ℕ → ℕ → Disk → Trace
  installs [] tail f = []
  installs (b ∷ lh) tail f = (b, f (start + tail + 1)) ∷ installs lh (tail + 1) f

  -- The log blocks from `tail` on hold the new contents v of the blocks lh.
  abbrev pub LogHolds : List ℕ → ℕ → Disk → Disk → Type 0
  LogHolds [] tail d v = Unit {0}
  LogHolds (b ∷ lh) tail d v = (d (start + tail + 1) ≡ v b) × LogHolds lh (tail + 1) d v

  installs-update :
      (lh : List ℕ) (tail b : ℕ) (f : Disk) (v : Block)
      → Home b
      → tail + length lh ≤ logblocks
      → installs lh tail (update f b v) ≡ installs lh tail f
  installs-update [] tail b f v h n = refl
  installs-update (x ∷ lh) tail b f v h n =
      rw (ne→== b (start + tail + 1) (omega arith))
        (ap (◌∷◌ (x, f (start + tail + 1))) (installs-update lh (tail + 1) b f v h (omega arith)))

  pub install_trans-installs :
      (recovering : Bool) (lh : List ℕ) (tail : ℕ) (c : Cache)
      → All Home lh
      → tail + length lh ≤ logblocks
      → (install_trans start recovering lh tail c).1 ≡ installs lh tail c.block
  unfolding install_trans
  install_trans-installs recovering [] tail c h n = refl
  install_trans-installs recovering (b ∷ lh) tail c h n = ap (◌∷◌ (b, c.block (start + tail + 1))) (
      install_trans-installs recovering lh (tail + 1) _ h.1 (omega arith)
      ∙ installs-update lh (tail + 1) b c.block _ h.0 (omega arith))

  -- Installing the log gives every logged block its new contents, and changes no other.
  pub apply-installs :
      (lh : List ℕ) (tail b : ℕ) (d f v : Disk)
      → LogHolds lh tail f v
      → apply (installs lh tail f) d b ≡ (if member b lh then v b else d b)
  apply-installs [] tail b d f v h = refl
  apply-installs (x ∷ lh) tail b d f v h =
      apply-installs lh (tail + 1) b (update d x (f (start + tail + 1))) f v h.1
      ∙ ground (arith, h.0)

  pub installs-Untouched :
      (lh : List ℕ) (tail b : ℕ) (f : Disk) → member b lh ≡ false → Untouched b (installs lh tail f)
  installs-Untouched [] tail b f h = tt
  installs-Untouched (x ∷ lh) tail b f h =
      (ground arith, installs-Untouched lh (tail + 1) b f (ground arith))

  pub installs-log_Untouched :
      (lh : List ℕ) (tail b : ℕ) (f : Disk)
      → All Home lh
      → start ≤ b
      → b ≤ start + logblocks
      → Untouched b (installs lh tail f)
  installs-log_Untouched [] tail b f h lo hi = tt
  installs-log_Untouched (x ∷ lh) tail b f h lo hi =
      (omega (arith, h.0), installs-log_Untouched lh (tail + 1) b f h.1 lo hi)

  read_head_clean : (d : Disk) → d start 0 ≡ 0 → read_head start (booted d) ≡ []
  unfolding read_head
  read_head_clean d z = ap (λ n. read_blocks n 0 (d start)) z

  -- The writes of a recovery: the logged blocks, then a header with n = 0.
  pub recover_trace :
      (d : Disk)
      → All Home (read_head start (booted d))
      → length (read_head start (booted d)) ≤ logblocks
      → (hb : Block) × ((recover_from_log start (booted d)).1
          ≡ installs (read_head start (booted d)) 0 d ++ (start, hb) ∷ [])
        × (hb 0 ≡ 0)
  unfolding recover_from_log write_head fill_blocks
  recover_trace d h n = (
    hb,
    ap (λ t. t ++ (start, hb) ∷ [])
        (install_trans-installs true (read_head start (booted d)) 0 (booted d) h
          (omega (arith, n))),
    refl,
  )
    where
      hb : Block
      hb =
          update
            ((install_trans start true (read_head start (booted d)) 0 (booted d)).0.block start) 0 0

  -- The header block is no home block.
  pub header-apply :
      (t : Trace) (hb : Block) (d : Disk) (b : ℕ)
      → Home b
      → apply (t ++ (start, hb) ∷ []) d b ≡ apply t d b
  header-apply t hb d b h =
      ap (λ e. e b) (apply-append t ((start, hb) ∷ []) d) ∙ rw (ne→== start b (omega (arith, h)))

  -- Recovery of a committed log: the logged blocks get their new contents.
  pub recovered_logged :
      (d v : Disk) (lh : List ℕ) (b : ℕ)
      → read_head start (booted d) ≡ lh
      → All Home lh
      → length lh ≤ logblocks
      → LogHolds lh 0 d v
      → Home b
      → recovered d b ≡ (if member b lh then v b else d b)
  recovered_logged d v lh b e h n l hb =
      let (w, t, _) =
        recover_trace d (subst (All Home) (sym e) h)
          (subst (λ l. length l ≤ logblocks) (sym e) n) in
      ap (λ t. apply t d b) (t ∙ ap (λ l. installs l 0 d ++ (start, w) ∷ []) e)
      ∙ header-apply (installs lh 0 d) w d b hb
      ∙ apply-installs lh 0 b d d v l

  -- Recovery of an empty log changes no block.
  pub recovered_clean : (d : Disk) (b : ℕ) → d start 0 ≡ 0 → Home b → recovered d b ≡ d b
  recovered_clean d b z h = recovered_logged d d [] b (read_head_clean d z) tt (omega arith) tt h
