-- ===== src/Pipe/Tests.antt =====
-- Tests of pipe.c. The counters stand just below 2^32, so that the calls wrap them.
use cs3500_os.Base.{
  ℕ, ◌-◌, ◌^◌, ◌≡◌, refl, true, false, not, [], ◌∷◌, Option, some, none, arith, ◌==◌, if◌then◌else◌,
}
use cs3500_os.Pipe.{Pipe, Got, writers, shift, pipewrite, piperead_loop, piperead}
use cs3500_os.Pipe.Window.{IsValid, contents}
use cs3500_os.Pipe.Transfer.{Sends, pipewrite-Sends}
use cs3500_os.Pipe.Receive.{Reads, piperead-Reads}

-- Holds 7 and 8.
abbrev two_bytes : Pipe
two_bytes = record {
  bytes = λ i. if i == 510 then 7 else if i == 511 then 8 else 0;
  nread = 2 ^ 32 - 2;
  nwrite = 0;
  readopen = true;
  writeopen = true;
}

two_bytes-IsValid : IsValid two_bytes
two_bytes-IsValid = omega arith

contents-two_bytes : contents two_bytes ≡ 7 ∷ 8 ∷ []
contents-two_bytes = refl

-- User memory holds 9 at every address but 1002.
abbrev user : ℕ → Option ℕ
user a = if a == 1002 then none else some 9

pipewrite-Sends_example :
    Sends user (λ i. false) 1000 5 0 two_bytes (pipewrite user (λ i. false) 1000 5 0 two_bytes)
pipewrite-Sends_example =
    pipewrite-Sends user (λ i. false) 1000 5 0 two_bytes (omega arith) two_bytes-IsValid

piperead-Reads_example :
    Reads (λ a. true) 1000 false 5 two_bytes (piperead (λ a. true) 1000 false 5 two_bytes)
piperead-Reads_example = piperead-Reads (λ a. true) 1000 false 5 two_bytes two_bytes-IsValid

-- A fault of copyout takes the second byte out of the pipe, and the caller is told of one byte.
piperead_loses :
    piperead (λ a. not (a == 1001)) 1000 false 5 two_bytes
    ≡ Got.got 1 (7 ∷ []) (writers ∷ []) (record two_bytes { nread = 0 })
unfolding piperead piperead_loop shift
piperead_loses = refl
