-- ===== src/Pipe.antt =====
-- labs/week7/EE23B102/xv6-riscv/kernel/pipe.c: a pipe is a ring of 512 bytes between processes.
-- A call of pipewrite or piperead holds the pipe's lock until it returns or sleeps, so each function
-- here is one such stretch: `asleep` is the sleep, and the call goes on from there with the pipe that
-- other processes have left. The kernel's copyin and copyout of one byte, and the answers of killed(),
-- are parameters. A count n is at least 0; the loops run no round for a negative one.
pub mod Window
pub mod Transfer
pub mod Receive
mod Tests
use cs3500_os.Base.{
  ℕ, zero, suc, ◌+◌, ◌-◌, ◌%◌, ◌^◌, Bool, true, false, ◌&&◌, ◌||◌, not, List, [], ◌∷◌, ◌++◌, Option,
  none, some, ◌==◌, if◌then◌else◌, update,
}

abbrev pub pipesize : ℕ
pipesize = 512

-- struct pipe; the counters are uint and wrap.
pub record Pipe : Type 0 where
  pub bytes : ℕ → ℕ
  pub nread : ℕ
  pub nwrite : ℕ
  pub readopen : Bool
  pub writeopen : Bool

-- The sleep channels &pi->nread and &pi->nwrite.
pub data Channel : Type 0 where
  readers writers : Channel

-- The end of a stretch of pipewrite: it returned a count, returned -1, or sleeps on &pi->nwrite with
-- i bytes written. `woken` lists the channels on which it called wakeup().
pub data Written : Type 0 where
  wrote : (i : ℕ) → (woken : List Channel) → Pipe → Written
  refused : Pipe → Written
  asleep : (i : ℕ) → (woken : List Channel) → Pipe → Written

-- pi->data[pi->nwrite++ % PIPESIZE] = ch
pub put : Pipe → ℕ → Pipe
put pi ch = record pi {
  bytes = update pi.bytes (pi.nwrite % pipesize) ch;
  nwrite = (pi.nwrite + 1) % 2 ^ 32;
}

module _ (copyin : ℕ → Option ℕ) (killed : ℕ → Bool) (addr : ℕ) where
  -- The loop of pipewrite with `left` = n - i rounds to go.
  pub pipewrite_loop : ℕ → ℕ → Pipe → Written
  unfolding put
  pipewrite_loop zero i pi = wrote i (readers ∷ []) pi
  pipewrite_loop (suc left) i pi =
      let next = λ (ch : ℕ). pipewrite_loop left (i + 1) (put pi ch) in
      if not pi.readopen || killed i
      then refused pi
      else if pi.nwrite == (pi.nread + pipesize) % 2 ^ 32
      then asleep i (readers ∷ []) pi
      else elim (copyin ((addr + i) % 2 ^ 64)) [
        | none ↦ wrote i (readers ∷ []) pi
        | some ch ↦ next ch
      ]

  -- From the call (i = 0), or from a sleep with i bytes written.
  pub pipewrite : ℕ → ℕ → Pipe → Written
  unfolding pipewrite_loop
  pipewrite n i pi = pipewrite_loop (n - i) i pi

-- The end of a stretch of piperead; `out` is what it gave to copyout, oldest first.
pub data Got : Type 0 where
  got : (i : ℕ) → (out : List ℕ) → (woken : List Channel) → Pipe → Got
  refused : Pipe → Got
  asleep : Pipe → Got

-- ch = pi->data[pi->nread++ % PIPESIZE]
pub shift : Pipe → Pipe
shift pi = record pi { nread = (pi.nread + 1) % 2 ^ 32 }

module _ (copyout : ℕ → Bool) (addr : ℕ) where
  -- The for loop of piperead, with `left` = n - i rounds to go; copyout answers per address.
  pub piperead_loop : ℕ → ℕ → List ℕ → Pipe → Got
  unfolding shift
  piperead_loop zero i out pi = got i out (writers ∷ []) pi
  piperead_loop (suc left) i out pi =
      let ch = pi.bytes (pi.nread % pipesize) in
      let next = piperead_loop left (i + 1) (out ++ ch ∷ []) (shift pi) in
      if pi.nread == pi.nwrite
      then got i out (writers ∷ []) pi
      else if copyout ((addr + i) % 2 ^ 64)
      then next
      else got i out (writers ∷ []) (shift pi)

  -- The call, or its continuation after a sleep.
  pub piperead : Bool → ℕ → Pipe → Got
  unfolding piperead_loop
  piperead killed n pi =
      if pi.nread == pi.nwrite && pi.writeopen
      then (if killed then refused pi else asleep pi)
      else piperead_loop n 0 [] pi

-- What pipeclose leaves, and whether it freed the pipe's page.
pub record Closed : Type 0 where
  pub pipe : Pipe
  pub woken : List Channel
  pub freed : Bool

pub pipeclose : Pipe → Bool → Closed
pipeclose pi writable =
    let pi' =
      if writable then record pi { writeopen = false } else record pi { readopen = false } in
    record {
      pipe = pi';
      woken = (if writable then readers else writers) ∷ [];
      freed = not pi'.readopen && not pi'.writeopen;
    }
