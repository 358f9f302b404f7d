-- ===== src/Log/Commit.antt =====
-- log.c: a crash during commit().
use mathlib.Core.List.{append-nil}
use cs3500_os.Base.{
  ℕ, zero, suc, ◌+◌, ◌-◌, ◌≤◌, ◌<◌, ◌≡◌, refl, ap, ◌∙◌, Bool, true, false, ◌&&◌, List, [], ◌∷◌,
  ◌++◌, arith, if◌then◌else◌, length, take, take-append, take_all, All, member, update, eq→==,
  ne→==, dec_le, ltb, lt→ltb, ge→ltb,
}
use cs3500_os.Log.{
  Block, Disk, Trace, Cache, apply, logblocks, read_blocks, fill_blocks, read_head, write_log,
  install_trans, commit,
}
use cs3500_os.Log.Header.{fill_blocks_below, read_blocks-fill_blocks}
use cs3500_os.Log.Recovery.{
  apply-append, apply-Untouched, take-Untouched, Home, recovered, installs, LogHolds,
  install_trans-installs, apply-installs, header-apply, recovered_clean,
}
use cs3500_os.Log.Atomicity.{
  LogHolds-cong, Committed, during_install, logs, write_log-logs, write_log-apply, logs-Untouched,
  logs-LogHolds,
}

module _ (start : ℕ) where
  -- The writes of a commit: the log, the header that commits, the home blocks, the header that clears.
  record Writes (lh : List ℕ) (c : Cache) (t : Trace) : Type 0 where
    hb : Block
    cleared : Block
    f : Disk
    trace :
        t
        ≡ logs start lh 0 c.block
          ++ ((start, hb) ∷ (installs start lh 0 f ++ (start, cleared) ∷ []))
    lists : read_blocks (hb 0) 0 hb ≡ lh
    empty : cleared 0 ≡ 0
    holds : LogHolds start lh 0 f c.block

  commit-Writes :
      (b : ℕ) (lh : List ℕ) (c : Cache)
      → All (Home start) (b ∷ lh)
      → length (b ∷ lh) ≤ logblocks
      → Writes (b ∷ lh) c (commit start (b ∷ lh) c).1
  unfolding commit
  commit-Writes b lh c h n = record {
    hb = hb;
    cleared = cleared;
    f = update c1 start hb;
    trace =
        ap (λ t. t ++ (start, hb) ∷ ((install_trans start false l 0 c2).1 ++ (start, cleared) ∷ []))
          (write_log-logs start l 0 c h (omega (arith, n)))
        ∙ ap (λ t. logs start l 0 c.block ++ (start, hb) ∷ (t ++ (start, cleared) ∷ []))
            (install_trans-installs start false l 0 c2 h (omega (arith, n)));
    lists =
        ap (λ k. read_blocks k 0 hb) (fill_blocks_below l 0 0 _ (omega arith))
        ∙ read_blocks-fill_blocks l 0 _;
    empty = refl;
    holds =
        LogHolds-cong start l 0 (apply (logs start l 0 c.block) c.block) _ c.block
          (omega (arith, n)) (λ a lo hi. rw (ne→== start a (omega arith)) (ap (λ e. e a) logged))
          (logs-LogHolds start l 0 c.block c.block (omega (arith, n)));
  }
    where
      l : List ℕ
      l = b ∷ lh

      c1 : Disk
      c1 = (write_log start l 0 c).0.block

      logged : c1 ≡ apply (logs start l 0 c.block) c.block
      logged =
          write_log-apply start l 0 c
          ∙ ap (λ t. apply t c.block) (write_log-logs start l 0 c h (omega (arith, n)))

      hb : Block
      hb = fill_blocks l 0 (update (c1 start) 0 (length l))

      c2 : Cache
      c2 = record { block = update c1 start hb; pins = (write_log start l 0 c).0.pins }

      cleared : Block
      cleared = update ((install_trans start false l 0 c2).0.block start) 0 0

  length-logs : (lh : List ℕ) (tail : ℕ) (v : Disk) → length (logs start lh tail v) ≡ length lh
  length-logs [] tail v = refl
  length-logs (b ∷ lh) tail v = ap suc (length-logs lh (tail + 1) v)

  -- Before the header is written a crash keeps the old blocks.
  before_commit :
      (d v : Disk) (lh : List ℕ) (k b : ℕ)
      → d start 0 ≡ 0
      → length lh ≤ logblocks
      → Home start b
      → recovered start (apply (take k (logs start lh 0 v)) d) b ≡ d b
  before_commit d v lh k b z n h =
      recovered_clean start _ b
        (ap (λ w. w 0)
            (apply-Untouched start _ d (
              take-Untouched start k _
                (logs-Untouched start lh 0 start v (omega (arith, n)) (omega arith))))
          ∙ z)
        h
      ∙ apply-Untouched b _ d (
          take-Untouched b k _
            (logs-Untouched start lh 0 b v (omega (arith, n)) (omega (arith, h))))

  -- The disk once the header is written holds a committed log.
  after_header-Committed :
      (d v : Disk) (lh : List ℕ) (hb : Block)
      → read_blocks (hb 0) 0 hb ≡ lh
      → All (Home start) lh
      → length lh ≤ logblocks
      → Committed start (update (apply (logs start lh 0 v) d) start hb) lh v
  unfolding read_head
  after_header-Committed d v lh hb e h n = record {
    header = rw (eq→== start start refl) e;
    homes = h;
    fits = n;
    holds =
        LogHolds-cong start lh 0 (apply (logs start lh 0 v) d) _ v (omega (arith, n))
          (λ a lo hi. rw (ne→== start a (omega arith)))
          (logs-LogHolds start lh 0 d v (omega (arith, n)));
  }

  after_case :
      (d v : Disk) (hb : Block) (lh : List ℕ) (k b : ℕ)
      → length lh ≤ logblocks
      → Home start b
      → length lh < k
      → (if member b lh then v b else update (apply (logs start lh 0 v) d) start hb b)
        ≡ (if ltb (length lh) k && member b lh then v b else d b)
  after_case d v hb lh k b n h late =
      rw (lt→ltb (length lh) k late, ne→== start b (omega (arith, h)))
        (ap (λ x. if member b lh then v b else x)
          (apply-Untouched b _ d
            (logs-Untouched start lh 0 b v (omega (arith, n)) (omega (arith, h)))))

  commit_atomic_some :
      (d : Disk) (c : Cache) (lh : List ℕ) (t : Trace) (k b : ℕ)
      → Writes lh c t
      → d start 0 ≡ 0
      → All (Home start) lh
      → length lh ≤ logblocks
      → Home start b
      → recovered start (apply (take k t) d) b
        ≡ (if ltb (length lh) k && member b lh then c.block b else d b)
  commit_atomic_some d c lh t k b w z h n hb =
      let L = logs start lh 0 c.block in
      let R : Trace = (start, w.hb) ∷ (installs start lh 0 w.f ++ (start, w.cleared) ∷ []) in
      let size : length L ≡ length lh = length-logs lh 0 c.block in
      elim (dec_le k (length lh)) [
        | yes early ↦
            let e : k - length L ≡ 0 = omega arith in
            ap (λ t. recovered start (apply (take k t) d) b) w.trace
            ∙ ap (λ t. recovered start (apply t d) b)
                (take-append k L R ∙ ap (λ j. take k L ++ take j R) e ∙ append-nil (take k L))
            ∙ before_commit d c.block lh k b z n hb
            ∙ rw (ge→ltb (length lh) k early)
        | no late ↦
            let j = k - length lh - 1 in
            let e : k - length L ≡ suc j = omega arith in
            ap (λ t. recovered start (apply (take k t) d) b) w.trace
            ∙ ap (λ t. recovered start (apply t d) b)
                (take-append k L R
                  ∙ ap (λ l. l ++ take (k - length L) R) (take_all k L (omega arith))
                  ∙ ap (λ j. L ++ take j R) e)
            ∙ ap (λ e. recovered start e b) (apply-append L _ d)
            ∙ during_install start _ w.f c.block lh w.cleared j b
                (after_header-Committed d c.block lh w.hb w.lists h n) w.holds w.empty hb
            ∙ after_case d c.block w.hb lh k b n hb (omega arith)
      ]

  installed_all :
      (d : Disk) (c : Cache) (lh : List ℕ) (t : Trace) (b : ℕ)
      → Writes lh c t
      → length lh ≤ logblocks
      → Home start b
      → (apply t d start 0 ≡ 0) × (apply t d b ≡ (if member b lh then c.block b else d b))
  installed_all d c lh t b w n hb =
      let d1 = update (apply (logs start lh 0 c.block) d) start w.hb in
      let I = installs start lh 0 w.f in
      let last : apply t d ≡ apply (I ++ (start, w.cleared) ∷ []) d1 =
        ap (λ t. apply t d) w.trace ∙ apply-append (logs start lh 0 c.block) _ d in
      (
        ap (λ e. e start 0) (last ∙ apply-append I _ d1) ∙ rw (eq→== start start refl) w.empty,
        ap (λ e. e b) last
            ∙ header-apply start I w.cleared d1 b hb
            ∙ apply-installs start lh 0 b d1 w.f c.block w.holds
            ∙ rw (ne→== start b (omega (arith, hb))) (
                ap (λ x. if member b lh then c.block b else x)
                  (apply-Untouched b _ d
                    (logs-Untouched start lh 0 b c.block (omega (arith, n)) (omega (arith, hb))))),
      )

  -- If the header on disk is empty, the logged blocks lie outside the log and are at most
  -- LOGBLOCKS, then recovery after a crash behind any k writes of commit() gives, at each block
  -- outside the log, the new contents if k passes the header write and the block was logged, and
  -- the old contents otherwise.
  pub commit_atomic :
      (d : Disk) (c : Cache) (lh : List ℕ) (k b : ℕ)
      → d start 0 ≡ 0
      → All (Home start) lh
      → length lh ≤ logblocks
      → Home start b
      → recovered start (apply (take k (commit start lh c).1) d) b
        ≡ (if ltb (length lh) k && member b lh then c.block b else d b)
  unfolding commit
  commit_atomic d c [] k b z h n hb =
      ap (λ t. recovered start (apply t d) b) (nothing k)
      ∙ recovered_clean start d b z hb
      ∙ unchanged (ltb 0 k)
    where
      nothing : (k : ℕ) → take k (commit start [] c).1 ≡ []
      nothing zero = refl
      nothing (suc k) = refl

      unchanged : (t : Bool) → d b ≡ (if t && false then c.block b else d b)
      unchanged true = refl
      unchanged false = refl
  commit_atomic d c (x ∷ lh) k b z h n hb =
      commit_atomic_some d c (x ∷ lh) _ k b (commit-Writes x lh c h n) z h n hb

  -- If the header on disk is empty, the logged blocks lie outside the log and are at most
  -- LOGBLOCKS, then after all writes of commit() the header is empty, and each block outside the
  -- log has its new contents if it was logged and is unchanged otherwise.
  pub commit_installs :
      (d : Disk) (c : Cache) (lh : List ℕ) (b : ℕ)
      → d start 0 ≡ 0
      → All (Home start) lh
      → length lh ≤ logblocks
      → Home start b
      → (apply (commit start lh c).1 d start 0 ≡ 0)
        × (apply (commit start lh c).1 d b ≡ (if member b lh then c.block b else d b))
  unfolding commit
  commit_installs d c [] b z h n hb = (z, refl)
  commit_installs d c (x ∷ lh) b z h n hb =
      installed_all d c (x ∷ lh) _ b (commit-Writes x lh c h n) n hb
