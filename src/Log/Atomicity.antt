-- ===== src/Log/Atomicity.antt =====
-- log.c: a crash during recovery.
use mathlib.Core.List.{append-nil}
use cs3500_os.Base.{
  ℕ, ◌+◌, ◌-◌, ◌≤◌, ◌<◌, ◌≡◌, refl, sym, ap, subst, ◌∙◌, ◌⊎◌, inl, inr, List, [], ◌∷◌, ◌++◌, arith,
  if◌then◌else◌, length, length-append, take, take-append, take_all, All, member, update, eq→==,
  ne→==, Bool-cases, dec_le,
}
use cs3500_os.Log.{
  Block, Disk, Trace, Cache, apply, logblocks, read_blocks, read_head, write_log, recover_from_log,
}
use cs3500_os.Log.Recovery.{
  apply-append, Untouched, apply-Untouched, take-Untouched, booted, Home, recovered, installs,
  LogHolds, apply-installs, installs-Untouched, installs-log_Untouched, recover_trace, header-apply,
  recovered_logged, recovered_clean,
}

module _ (start : ℕ) where
  pub LogHolds-cong :
      (lh : List ℕ) (tail : ℕ) (d d' v : Disk)
      → tail + length lh ≤ logblocks
      → ((a : ℕ) → start < a → a ≤ start + logblocks → d' a ≡ d a)
      → LogHolds start lh tail d v
      → LogHolds start lh tail d' v
  LogHolds-cong [] tail d d' v n e h = tt
  LogHolds-cong (b ∷ lh) tail d d' v n e h = (
    e (start + tail + 1) (omega arith) (omega arith) ∙ h.0,
    LogHolds-cong lh (tail + 1) d d' v (omega arith) e h.1,
  )

  -- A disk whose header lists the blocks lh, with their new contents v in the log.
  pub record Committed (d : Disk) (lh : List ℕ) (v : Disk) : Type 0 where
    pub header : read_head start (booted d) ≡ lh
    pub homes : All (Home start) lh
    pub fits : length lh ≤ logblocks
    pub holds : LogHolds start lh 0 d v

  -- Some of the installing writes leave the log as it is, and so what recovery makes of it.
  partly_installed :
      (d f v : Disk) (lh : List ℕ) (j b : ℕ)
      → Committed d lh v
      → Home start b
      → recovered start (apply (take j (installs start lh 0 f)) d) b
        ≡ (if member b lh then v b else d b)
  unfolding read_head
  partly_installed d f v lh j b c h =
      let same : (a : ℕ)
          → start ≤ a
          → a ≤ start + logblocks
          → apply (take j (installs start lh 0 f)) d a ≡ d a =
        λ a lo hi.
          apply-Untouched a _ d
            (take-Untouched a j _ (installs-log_Untouched start lh 0 a f c.homes lo hi)) in
      recovered_logged start _ v lh b
        (ap (λ w. read_blocks (w 0) 0 w) (same start (omega arith) (omega arith)) ∙ c.header)
        c.homes c.fits
        (LogHolds-cong lh 0 d _ v (omega (arith, c.fits)) (λ a lo hi. same a (omega arith) hi)
          c.holds)
        h
      ∙ elim (Bool-cases (member b lh)) [
        | inl m ↦ rw m
        | inr m ↦
            rw m
              (apply-Untouched b _ d (take-Untouched b j _ (installs-Untouched start lh 0 b f m)))
      ]

  -- The same for the installing writes and the write that clears the header.
  pub during_install :
      (d f v : Disk) (lh : List ℕ) (hb : Block) (j b : ℕ)
      → Committed d lh v
      → LogHolds start lh 0 f v
      → hb 0 ≡ 0
      → Home start b
      → recovered start (apply (take j (installs start lh 0 f ++ (start, hb) ∷ [])) d) b
        ≡ (if member b lh then v b else d b)
  during_install d f v lh hb j b c l z h = elim (dec_le j (length (installs start lh 0 f))) [
    | yes before ↦
        let e : j - length (installs start lh 0 f) ≡ 0 = omega arith in
        ap (λ t. recovered start (apply t d) b)
          (take-append j (installs start lh 0 f) _
            ∙ ap (λ k. take j (installs start lh 0 f) ++ take k ((start, hb) ∷ [])) e
            ∙ append-nil _)
        ∙ partly_installed d f v lh j b c h
    | no after ↦
        let all_written : length (installs start lh 0 f ++ (start, hb) ∷ []) ≤ j =
          omega (arith, length-append (installs start lh 0 f) ((start, hb) ∷ [])) in
        ap (λ t. recovered start (apply t d) b) (take_all j _ all_written)
        ∙ recovered_clean start _ b
            (ap (λ e. e start 0) (apply-append (installs start lh 0 f) ((start, hb) ∷ []) d)
              ∙ rw (eq→== start start refl) z)
            h
        ∙ header-apply start (installs start lh 0 f) hb d b h
        ∙ apply-installs start lh 0 b d f v l
  ]

  -- On a disk that holds a committed log, recovery after a crash behind any k writes of a recovery
  -- gives, at each block outside the log, the logged contents if the block is listed in the
  -- header, and the block of the disk otherwise.
  pub recover_from_log_restart :
      (d v : Disk) (lh : List ℕ) (k b : ℕ)
      → Committed d lh v
      → Home start b
      → recovered start (apply (take k (recover_from_log start (booted d)).1) d) b
        ≡ (if member b lh then v b else d b)
  recover_from_log_restart d v lh k b c h =
      let (hb, t, z) =
        recover_trace start d (subst (All (Home start)) (sym c.header) c.homes)
          (subst (λ l. length l ≤ logblocks) (sym c.header) c.fits) in
      ap (λ t. recovered start (apply (take k t) d) b)
        (t ∙ ap (λ l. installs start l 0 d ++ (start, hb) ∷ []) c.header)
      ∙ during_install d d v lh hb k b c c.holds z h

  -- The writes of write_log.
  abbrev pub logs : List ℕ → ℕ → Disk → Trace
  logs [] tail v = []
  logs (b ∷ lh) tail v = (start + tail + 1, v b) ∷ logs lh (tail + 1) v

  logs-update :
      (lh : List ℕ) (tail a : ℕ) (v : Disk) (x : Block)
      → All (Home start) lh
      → start < a
      → a ≤ start + logblocks
      → logs lh tail (update v a x) ≡ logs lh tail v
  logs-update [] tail a v x h lo hi = refl
  logs-update (b ∷ lh) tail a v x h lo hi =
      rw (ne→== a b (omega (arith, h.0)))
        (ap (◌∷◌ (start + tail + 1, v b)) (logs-update lh (tail + 1) a v x h.1 lo hi))

  pub write_log-logs :
      (lh : List ℕ) (tail : ℕ) (c : Cache)
      → All (Home start) lh
      → tail + length lh ≤ logblocks
      → (write_log start lh tail c).1 ≡ logs lh tail c.block
  unfolding write_log
  write_log-logs [] tail c h n = refl
  write_log-logs (b ∷ lh) tail c h n = ap (◌∷◌ (start + tail + 1, c.block b)) (
      write_log-logs lh (tail + 1) _ h.1 (omega arith)
      ∙ logs-update lh (tail + 1) (start + tail + 1) c.block _ h.1 (omega arith) (omega arith))

  -- The cache follows the writes.
  pub write_log-apply :
      (lh : List ℕ) (tail : ℕ) (c : Cache)
      → (write_log start lh tail c).0.block ≡ apply (write_log start lh tail c).1 c.block
  unfolding write_log
  write_log-apply [] tail c = refl
  write_log-apply (b ∷ lh) tail c = write_log-apply lh (tail + 1) _

  pub logs-Untouched :
      (lh : List ℕ) (tail b : ℕ) (v : Disk)
      → tail + length lh ≤ logblocks
      → (b ≤ start + tail) ⊎ (start + logblocks < b)
      → Untouched b (logs lh tail v)
  logs-Untouched [] tail b v n h = tt
  logs-Untouched (x ∷ lh) tail b v n h =
      (omega arith, logs-Untouched lh (tail + 1) b v (omega arith) (omega arith))

  pub logs-LogHolds :
      (lh : List ℕ) (tail : ℕ) (d v : Disk)
      → tail + length lh ≤ logblocks
      → LogHolds start lh tail (apply (logs lh tail v) d) v
  logs-LogHolds [] tail d v n = tt
  logs-LogHolds (b ∷ lh) tail d v n = (
    apply-Untouched (start + tail + 1) (logs lh (tail + 1) v) _
          (logs-Untouched lh (tail + 1) (start + tail + 1) v (omega arith) (omega arith))
        ∙ rw (eq→== (start + tail + 1) (start + tail + 1) refl),
    logs-LogHolds lh (tail + 1) _ v (omega arith),
  )
