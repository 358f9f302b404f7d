-- ===== src/Log/Tests.antt =====
-- Tests of log.c on a small disk: the log starts at block 2, and blocks 40 and 41 are logged.
use cs3500_os.Base.{
  true, ℕ, ◌+◌, ◌≡◌, ◌≢◌, ◌<◌, refl, List, [], ◌∷◌, ◌==◌, if◌then◌else◌, arith, take, length,
  Distinct, panic, false, none,
}
use cs3500_os.Log.{
  end_op_finish, end_op_begin, Disk, Cache, apply, logblocks, read_blocks, read_head, commit,
  recover_from_log, begin_op, log_write,
}
use cs3500_os.Log.Recovery.{booted, recovered}
use cs3500_os.Log.Atomicity.{Committed, recover_from_log_restart}
use cs3500_os.Log.Commit.{commit_atomic}
use cs3500_os.Log.Reservation.{
  Ops, Reach, here, next, begins, ends, commits, finishes, fresh, log_write_never_panics,
}

abbrev zeroed : Disk
zeroed b w = 0

-- Block b holds b + 100 in every word.
abbrev dirty : Cache
dirty = record { block = λ b w. b + 100; pins = λ b. 1 }

abbrev two_blocks : List ℕ
two_blocks = 40 ∷ 41 ∷ []

-- A crash after the header was written and one block installed.
commit_atomic_example :
    recovered 2 (apply (take 4 (commit 2 two_blocks dirty).1) zeroed) 41 ≡ dirty.block 41
commit_atomic_example =
    commit_atomic 2 zeroed dirty two_blocks 4 41 refl (omega arith) (omega arith) (omega arith)

-- The header lists blocks 40 and 41, and the log holds their contents.
abbrev crashed : Disk
crashed b w =
    if b == 2
    then (if w == 0 then 2 else if w == 1 then 40 else if w == 2 then 41 else 0)
    else if b == 3
    then 140
    else if b == 4
    then 141
    else 0

crashed-Committed : Committed 2 crashed two_blocks dirty.block
unfolding read_head read_blocks
crashed-Committed = record {
  header = refl;
  homes = omega arith;
  fits = omega arith;
  holds = (refl, (refl, tt));
}

recover_from_log_restart_example :
    recovered 2 (apply (take 1 (recover_from_log 2 (booted crashed)).1) crashed) 41 ≡ dirty.block 41
recover_from_log_restart_example =
    recover_from_log_restart 2 crashed dirty.block two_blocks 1 41 crashed-Committed (omega arith)

-- An operation that writes nothing ends and commits, and another begins.
abbrev one_op : Ops
one_op = record { log = record { lh = []; outstanding = 1; committing = false }; left = 10 ∷ [] }

one_op-Reach : Reach 2 fresh one_op
unfolding begin_op end_op_begin commit end_op_finish
one_op-Reach =
    next
      (next
        (next (next (next here (begins refl)) (ends true 10 [] [] refl refl))
          (commits dirty dirty [] refl refl))
        (finishes refl refl))
      (begins refl)

log_write_never_panics_example :
    (log_write 40 one_op.log dirty ≢ panic)
    × (end_op_begin one_op.log ≢ panic)
    × Distinct one_op.log.lh
    × (length one_op.log.lh < logblocks)
log_write_never_panics_example = log_write_never_panics 2 one_op 40 9 [] [] dirty one_op-Reach refl

-- A fourth operation waits for log space.
begin_op_waits : begin_op (record { lh = []; outstanding = 3; committing = false }) ≡ none
unfolding begin_op
begin_op_waits = refl
