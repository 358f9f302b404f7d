-- ===== src/Log.antt =====
-- labs/week7/EE23B102/xv6-riscv/kernel/log.c: the redo log of the file system.
-- A block is its 32-bit words; struct logheader is read from and written to the words of the block at
-- log.start. The in-memory header (n and block[0..n)) is the list `lh`. A function that writes to
-- the disk returns the writes in their order, so a crash is a prefix of that list. `Cache` holds what
-- bread() gives for a block number, with the pins of bpin() and bunpin(); the cache of a dirty block
-- stays because it is pinned. virtio_disk_rw() waits for each write, so one write is one step.
pub mod Header
pub mod Recovery
pub mod Atomicity
pub mod Commit
pub mod Reservation
mod Tests
use cs3500_os.Base.{
  ℕ, zero, suc, ◌+◌, ◌-◌, ◌*◌, Bool, true, false, List, [], ◌∷◌, ◌++◌, Option, none, some, ltb, leb,
  ◌==◌, if◌then◌else◌, length, member, update, Outcome, ok, panic, ◌>>=◌, ◌>>◌, panic_if,
}

abbrev pub maxopblocks : ℕ
maxopblocks = 10

abbrev pub logblocks : ℕ
logblocks = maxopblocks * 3

abbrev pub Block : Type 0
Block = ℕ → ℕ

abbrev pub Disk : Type 0
Disk = ℕ → Block

abbrev pub Trace : Type 0
Trace = List (ℕ × Block)

-- The disk after some writes.
abbrev pub apply : Trace → Disk → Disk
apply [] d = d
apply ((b, v) ∷ t) d = apply t (update d b v)

pub record Cache : Type 0 where
  pub block : ℕ → Block
  pub pins : ℕ → ℕ

-- struct log without the lock and the constant dev and start
pub record Log : Type 0 where
  pub lh : List ℕ
  pub outstanding : ℕ
  pub committing : Bool

-- for(i = 0; i < n; i++) lh.block[i] = hb->block[i]
pub read_blocks : ℕ → ℕ → Block → List ℕ
read_blocks zero i hb = []
read_blocks (suc left) i hb = hb (i + 1) ∷ read_blocks left (i + 1) hb

-- for(i = 0; i < n; i++) hb->block[i] = lh.block[i]
pub fill_blocks : List ℕ → ℕ → Block → Block
fill_blocks [] i hb = hb
fill_blocks (x ∷ lh) i hb = fill_blocks lh (i + 1) (update hb (i + 1) x)

module _ (start : ℕ) where
  pub read_head : Cache → List ℕ
  unfolding read_blocks
  read_head c = read_blocks (c.block start 0) 0 (c.block start)

  pub write_head : List ℕ → Cache → Cache × Trace
  unfolding fill_blocks
  write_head lh c =
      let hb = fill_blocks lh 0 (update (c.block start) 0 (length lh)) in
      (record c { block = update c.block start hb }, (start, hb) ∷ [])

  -- install_trans from `tail` on
  pub install_trans : Bool → List ℕ → ℕ → Cache → Cache × Trace
  install_trans recovering [] tail c = (c, [])
  install_trans recovering (b ∷ lh) tail c =
      let lbuf = c.block (start + tail + 1) in
      let c' : Cache = record {
        block = update c.block b lbuf;
        pins = if recovering then c.pins else update c.pins b (c.pins b - 1);
      } in
      let (c'', t) = install_trans recovering lh (tail + 1) c' in (c'', (b, lbuf) ∷ t)

  -- write_log from `tail` on
  pub write_log : List ℕ → ℕ → Cache → Cache × Trace
  write_log [] tail c = (c, [])
  write_log (b ∷ lh) tail c =
      let from = c.block b in
      let (c', t) =
        write_log lh (tail + 1) (record c { block = update c.block (start + tail + 1) from }) in
      (c', (start + tail + 1, from) ∷ t)

  pub recover_from_log : Cache → Cache × Trace
  unfolding read_head install_trans write_head
  recover_from_log c =
      let (c', t) = install_trans true (read_head c) 0 c in
      let (c'', t') = write_head [] c' in (c'', t ++ t')

  -- commit() of the blocks lh, which also empties log.lh
  pub commit : List ℕ → Cache → Cache × Trace
  unfolding write_log install_trans write_head
  commit [] c = (c, [])
  commit (b ∷ lh) c =
      let (c1, t1) = write_log (b ∷ lh) 0 c in
      let (c2, t2) = write_head (b ∷ lh) c1 in
      let (c3, t3) = install_trans false (b ∷ lh) 0 c2 in
      let (c4, t4) = write_head [] c3 in (c4, t1 ++ (t2 ++ (t3 ++ t4)))

-- end_op() up to the release of log.lock, and whether it is to commit. A caller has begun its
-- operation, so log.outstanding is at least 1.
pub end_op_begin : Log → Outcome (Bool × Log)
end_op_begin log = do
  panic_if log.committing
  ok (
      if log.outstanding == 1
      then (true, record log { outstanding = 0; committing = true })
      else (false, record log { outstanding = log.outstanding - 1 }))

-- log.committing = 0, after the commit
pub end_op_finish : Log → Log
end_op_finish log = record log { committing = false }

-- `none` where begin_op() sleeps and tests again.
pub begin_op : Log → Option Log
begin_op log =
    if log.committing
    then none
    else if ltb logblocks (length log.lh + (log.outstanding + 1) * maxopblocks)
    then none
    else some (record log { outstanding = log.outstanding + 1 })

-- log_write() of the block number b, whose new data is in the cache
pub log_write : ℕ → Log → Cache → Outcome (Log × Cache)
log_write b log c = do
  panic_if (leb logblocks (length log.lh))
  panic_if (ltb log.outstanding 1)
  if member b log.lh
      then ok (log, c)
      else ok
          (record log { lh = log.lh ++ b ∷ [] }, record c { pins = update c.pins b (c.pins b + 1) })
