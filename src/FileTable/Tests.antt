-- ===== src/FileTable/Tests.antt =====
-- Open files: calls on a table with one file.
use cs3500_os.Base.{
  ℕ, ◌<◌, ◌≡◌, refl, true, false, [], ◌∷◌, Outcome, ok, panic, List, Bool, arith, ◌==◌,
  if◌then◌else◌,
}
use cs3500_os.FileTable.{
  fd_none, fd_inode, Files, Call, closes_pipe, filealloc_loop, filealloc, fileclose, fdalloc_loop,
  fdalloc, sys_dup, sys_close, close_if, pipe_files, pipealloc, pipe_undo, sys_pipe, close_all,
}
use cs3500_os.FileTable.Counts.{uses}
use cs3500_os.FileTable.Calls.{IsCounted, Balanced, Conserves, close_all-Balanced}
use cs3500_os.FileTable.Pipes.{descriptors-Conserves}

-- Slot 1 is an open inode that descriptor 0 holds, and somebody else.
abbrev one_open : Files
one_open = record {
  file = λ i. record {
    type = if i == 1 then fd_inode else fd_none;
    ref = if i == 1 then 2 else 0;
    readable = i == 1;
    writable = false;
    pipe = 0;
    ip = i;
  };
  ofile = λ fd. if fd == 0 then 1 else 0;
  calls = [];
}

one_open-IsCounted : IsCounted one_open
unfolding uses
one_open-IsCounted = record { enough = λ g pos. ground arith; clean = λ g z. ground (arith, z) }

descriptors-Conserves_example :
    Conserves one_open (sys_dup 0 one_open)
    × Conserves one_open (sys_close 0 one_open)
    × Conserves one_open (sys_pipe 4096 false one_open)
descriptors-Conserves_example = descriptors-Conserves 0 4096 false one_open one_open-IsCounted

close_all-Balanced_example :
    (s' : Files) × (close_all 16 0 one_open ≡ ok s')
    × Balanced one_open s'
    × IsCounted s'
    × ((fd : ℕ) → fd < 16 → s'.ofile fd ≡ 0)
close_all-Balanced_example = close_all-Balanced one_open one_open-IsCounted

-- The new pipe's ends are closed when copyout() fails.
abbrev outcome_calls : Outcome (Bool × Files) → List Call
outcome_calls (ok (b, s)) = s.calls
outcome_calls panic = []

pipe_closed :
    outcome_calls (sys_pipe 4096 false one_open)
    ≡ closes_pipe 4096 true ∷ closes_pipe 4096 false ∷ []
unfolding sys_pipe pipealloc pipe_files close_if filealloc filealloc_loop fdalloc fdalloc_loop
    fileclose pipe_undo
pipe_closed = refl
