-- ===== src/FileTable.antt =====
-- labs/week7/EE23B102/xv6-riscv/kernel: open files. The table of file.c with its reference counts, the
-- descriptors of a process and the system calls on them (sysfile.c), and pipealloc() (pipe.c). A pointer
-- into ftable.file[] is the slot's number from 1 on, and null is 0. A negative descriptor argument is the
-- large number of its 32 bits. Where the code calls pipeclose() or iput(), the call is noted. A count of
-- references stays below 2^31, since each is held by a descriptor or by a call that runs.
pub mod Counts
pub mod Slots
pub mod Calls
pub mod Owing
pub mod Pipes
mod Tests
use cs3500_os.Base.{
  ℕ, zero, suc, ◌+◌, ◌-◌, Bool, true, false, ◌&&◌, ◌||◌, not, Option, none, some, List, [], ◌∷◌,
  ltb, leb, ◌==◌, if◌then◌else◌, update, Outcome, ok, panic, ◌>>=◌, ◌>>◌, panic_if,
}

abbrev pub nfile : ℕ
nfile = 100

abbrev pub nofile : ℕ
nofile = 16

pub data FileType : Type 0 where
  fd_none fd_pipe fd_inode fd_device : FileType

pub record File : Type 0 where
  pub type : FileType
  pub ref : ℕ
  pub readable : Bool
  pub writable : Bool
  pub pipe : ℕ
  pub ip : ℕ

-- What fileclose() lets go of with the last reference.
pub data Call : Type 0 where
  closes_pipe : (pipe : ℕ) (writable : Bool) → Call
  puts_inode : (ip : ℕ) → Call

-- The table, p->ofile[] of the caller, and the calls so far, the latest first.
pub record Files : Type 0 where
  pub file : ℕ → File
  pub ofile : ℕ → ℕ
  pub calls : List Call

-- The loop of filealloc() from slot i on; 0 if no slot is free.
pub filealloc_loop : ℕ → ℕ → (ℕ → File) → ℕ
filealloc_loop zero i file = 0
filealloc_loop (suc n) i file =
    let rest = filealloc_loop n (i + 1) file in if (file i).ref == 0 then i else rest

pub filealloc : Files → ℕ × Files
filealloc s =
    let i = filealloc_loop nfile 1 s.file in
    if i == 0
    then (0, s)
    else (i, record s { file = update s.file i (record (s.file i) { ref = 1 }) })

pub filedup : ℕ → Files → Outcome Files
filedup f s =
    panic_if (ltb (s.file f).ref 1)
    >> ok (record s { file = update s.file f (record (s.file f) { ref = (s.file f).ref + 1 }) })

-- The calls that fileclose() makes for the last reference to a file.
abbrev pub closing : File → List Call → List Call
closing ff calls = elim ff.type as (λ t. List Call) [
  | fd_pipe ↦ closes_pipe ff.pipe ff.writable ∷ calls
  | fd_inode ↦ puts_inode ff.ip ∷ calls
  | fd_device ↦ puts_inode ff.ip ∷ calls
  | fd_none ↦ calls
]

pub fileclose : ℕ → Files → Outcome Files
fileclose f s =
    let ff = s.file f in
    panic_if (ltb ff.ref 1)
    >> ok (
        if ltb 0 (ff.ref - 1)
        then record s { file = update s.file f (record ff { ref = ff.ref - 1 }) }
        else record s {
          file = update s.file f (record ff { ref = 0; type = fd_none });
          calls = closing ff s.calls;
        })

-- argfd(): the file of a descriptor
pub argfd : ℕ → Files → Option ℕ
argfd fd s = if leb nofile fd || s.ofile fd == 0 then none else some (s.ofile fd)

-- The loop of fdalloc() from descriptor fd on.
pub fdalloc_loop : ℕ → ℕ → (ℕ → ℕ) → Option ℕ
fdalloc_loop zero fd ofile = none
fdalloc_loop (suc n) fd ofile =
    let rest = fdalloc_loop n (fd + 1) ofile in if ofile fd == 0 then some fd else rest

pub fdalloc : ℕ → Files → Option ℕ × Files
fdalloc f s = elim (fdalloc_loop nofile 0 s.ofile) [
  | none ↦ (none, s)
  | some fd ↦ (some fd, record s { ofile = update s.ofile fd f })
]

-- sys_dup() after fdalloc()
abbrev pub dup_to : ℕ → Option ℕ × Files → Outcome (Option ℕ × Files)
dup_to f (none, s) = ok (none, s)
dup_to f (some fd, s) = filedup f s >>= λ u. ok (some fd, u)

-- sys_dup(); none for -1
pub sys_dup : ℕ → Files → Outcome (Option ℕ × Files)
sys_dup old s = elim (argfd old s) [ none ↦ ok (none, s) | some f ↦ dup_to f (fdalloc f s) ]

-- sys_close(): 0 or -1 as a Boolean
pub sys_close : ℕ → Files → Outcome (Bool × Files)
sys_close fd s = elim (argfd fd s) [
  | none ↦ ok (false, s)
  | some f ↦ fileclose f (record s { ofile = update s.ofile fd 0 }) >>= λ u. ok (true, u)
]

-- if(f) fileclose(f)
pub close_if : ℕ → Files → Outcome Files
close_if f s = if f == 0 then ok s else fileclose f s

-- The two ends of a pipe, as pipealloc() fills them in.
abbrev pub read_end : ℕ → File → File
read_end pi f = record f { type = fd_pipe; readable = true; writable = false; pipe = pi }

abbrev pub write_end : ℕ → File → File
write_end pi f = record f { type = fd_pipe; readable = false; writable = true; pipe = pi }

-- pipealloc() after its allocations; `pi` is the answer of kalloc(), and the files are its result.
pub pipe_files : ℕ → ℕ → ℕ → Files → Outcome (Option (ℕ × ℕ) × Files)
pipe_files pi f0 f1 s =
    let undone = close_if f0 s >>= λ u. close_if f1 u in
    let t = update s.file f0 (read_end pi (s.file f0)) in
    if f0 == 0 || f1 == 0 || pi == 0
    then (undone >>= λ w. ok (none, w))
    else ok (some (f0, f1), record s { file = update t f1 (write_end pi (t f1)) })

-- After the second filealloc(), and after the first, without which there is no second.
abbrev pub pipe_two : ℕ → ℕ → ℕ × Files → Outcome (Option (ℕ × ℕ) × Files)
pipe_two pi f0 (f1, s) = pipe_files pi f0 f1 s

abbrev pub pipe_one : ℕ → ℕ × Files → Outcome (Option (ℕ × ℕ) × Files)
pipe_one pi (f0, s) = pipe_two pi f0 (if f0 == 0 then (0, s) else filealloc s)

pub pipealloc : ℕ → Files → Outcome (Option (ℕ × ℕ) × Files)
pipealloc pi s = pipe_one pi (filealloc s)

-- The end of a failed sys_pipe(), where both files are closed.
pub pipe_undo : ℕ → ℕ → Files → Outcome (Bool × Files)
pipe_undo rf wf s = fileclose rf s >>= λ u. fileclose wf u >>= λ w. ok (false, w)

-- sys_pipe() after the second fdalloc(); `copied` is the success of both calls of copyout().
abbrev pub pipe_second : Bool → ℕ → ℕ → ℕ → Option ℕ × Files → Outcome (Bool × Files)
pipe_second copied rf wf fd0 (none, s) = pipe_undo rf wf (record s { ofile = update s.ofile fd0 0 })
pipe_second copied rf wf fd0 (some fd1, s) =
    if copied
    then ok (true, s)
    else pipe_undo rf wf (record s { ofile = update (update s.ofile fd0 0) fd1 0 })

-- sys_pipe() after the first fdalloc()
abbrev pub pipe_first : Bool → ℕ → ℕ → Option ℕ × Files → Outcome (Bool × Files)
pipe_first copied rf wf (none, s) = pipe_undo rf wf s
pipe_first copied rf wf (some fd0, s) = pipe_second copied rf wf fd0 (fdalloc wf s)

-- sys_pipe(): 0 or -1 as a Boolean
pub sys_pipe : ℕ → Bool → Files → Outcome (Bool × Files)
sys_pipe pi copied s = pipealloc pi s >>= λ (r, s'). elim r [
  | none ↦ ok (false, s')
  | some (rf, wf) ↦ pipe_first copied rf wf (fdalloc rf s')
]

-- The body of kexit()'s loop over the descriptors
pub close_fd : ℕ → Files → Outcome Files
close_fd fd s =
    let f = s.ofile fd in
    if f == 0 then ok s else fileclose f s >>= λ u. ok (record u { ofile = update u.ofile fd 0 })

-- The loop from fd on
pub close_all : ℕ → ℕ → Files → Outcome Files
close_all zero fd s = ok s
close_all (suc n) fd s = close_fd fd s >>= λ u. close_all n (fd + 1) u
