-- ===== src/Pipe/Transfer.antt =====
-- pipe.c: pipewrite and piperead as operations on a bounded queue of bytes.
use mathlib.Core.List.{append_assoc, append-nil}
use cs3500_os.Base.{
  ℕ, zero, suc, ◌+◌, ◌-◌, ◌%◌, ◌^◌, ◌≤◌, ◌<◌, ◌≡◌, refl, sym, ◌∙◌, ap, Bool, true, false, ◌||◌, not,
  ◌⊎◌, inl, inr, List, [], ◌∷◌, ◌++◌, Option, none, some, arith, ◌==◌, length, Bool-cases,
  Option-cases, ==→eq, ==→ne,
}
use cs3500_os.Pipe.{Pipe, pipesize, readers, Written, put, pipewrite_loop, pipewrite}
use cs3500_os.Pipe.Window.{size, IsValid, contents, put-contents, size_full}

module _ (copyin : ℕ → Option ℕ) (killed : ℕ → Bool) (addr : ℕ) where
  -- The bytes of user memory from addr + i on.
  abbrev pub Copied : ℕ → List ℕ → Type 0
  Copied i [] = Unit
  Copied i (x ∷ xs) = (copyin ((addr + i) % 2 ^ 64) ≡ some x) × Copied (i + 1) xs

  -- From i to j, the user's bytes went to the end of the pipe.
  pub record Sent (i : ℕ) (pi : Pipe) (j : ℕ) (pi' : Pipe) : Type 0 where
    pub bytes : List ℕ
    pub valid : IsValid pi'
    pub appended : contents pi' ≡ contents pi ++ bytes
    pub copied : Copied i bytes
    pub count : j ≡ i + length bytes

  -- How a stretch of pipewrite may end.
  abbrev pub Sends : ℕ → ℕ → Pipe → Written → Type 0
  Sends n i pi (Written.wrote j woken pi') =
      Sent i pi j pi' × ((j ≡ n) ⊎ (copyin ((addr + j) % 2 ^ 64) ≡ none)) × (woken ≡ readers ∷ [])
  Sends n i pi (Written.refused pi') =
      (j : ℕ) × Sent i pi j pi' × ((pi.readopen ≡ false) ⊎ (killed j ≡ true))
  Sends n i pi (Written.asleep j woken pi') =
      Sent i pi j pi' × (j < n) × (size pi' ≡ 512) × (woken ≡ readers ∷ [])

  Sent-none : (i : ℕ) (pi : Pipe) → IsValid pi → Sent i pi i pi
  Sent-none i pi v = record {
    bytes = [];
    valid = v;
    appended = sym (append-nil (contents pi));
    copied = tt;
    count = omega arith;
  }

  Sent-more :
      (i : ℕ) (pi : Pipe) (ch j : ℕ) (pi' : Pipe)
      → contents (put pi ch) ≡ contents pi ++ ch ∷ []
      → copyin ((addr + i) % 2 ^ 64) ≡ some ch
      → Sent (i + 1) (put pi ch) j pi'
      → Sent i pi j pi'
  Sent-more i pi ch j pi' e c s = record {
    bytes = ch ∷ s.bytes;
    valid = s.valid;
    appended = s.appended ∙ ap (λ l. l ++ s.bytes) e ∙ append_assoc (contents pi) (ch ∷ []) s.bytes;
    copied = (c, s.copied);
    count = omega (arith, s.count);
  }

  Sends-more :
      (n i : ℕ) (pi : Pipe) (ch : ℕ) (w : Written)
      → contents (put pi ch) ≡ contents pi ++ ch ∷ []
      → copyin ((addr + i) % 2 ^ 64) ≡ some ch
      → Sends n (i + 1) (put pi ch) w
      → Sends n i pi w
  unfolding put
  Sends-more n i pi ch (Written.wrote j woken pi') e c s =
      (Sent-more i pi ch j pi' e c s.0, s.1, s.2)
  Sends-more n i pi ch (Written.refused pi') e c s = (s.0, Sent-more i pi ch s.0 pi' e c s.1, s.2)
  Sends-more n i pi ch (Written.asleep j woken pi') e c s =
      (Sent-more i pi ch j pi' e c s.0, s.1, s.2, s.3)

  pipewrite_loop-Sends :
      (left n i : ℕ) (pi : Pipe)
      → i + left ≡ n
      → IsValid pi
      → Sends n i pi (pipewrite_loop copyin killed addr left i pi)
  unfolding pipewrite_loop
  pipewrite_loop-Sends zero n i pi e v = (Sent-none i pi v, inl (omega arith), refl)
  pipewrite_loop-Sends (suc left) n i pi e v = elim (Bool-cases (not pi.readopen || killed i)) [
    | inl stop ↦ rw stop (i, Sent-none i pi v, ground arith)
    | inr go ↦ elim (Bool-cases (pi.nwrite == (pi.nread + pipesize) % 2 ^ 32)) [
      | inl full ↦
          rw (go, full) (Sent-none i pi v, omega arith, size_full pi v (==→eq _ _ full), refl)
      | inr room ↦ elim (Option-cases (copyin ((addr + i) % 2 ^ 64))) [
        | inl fault ↦ rw (go, room, fault) (Sent-none i pi v, inr fault, refl)
        | inr (ch, c) ↦
            let (v', a) = put-contents pi ch v (==→ne _ _ room) in
            rw (go, room, c)
              (Sends-more n i pi ch _ a c
                (pipewrite_loop-Sends left n (i + 1) (put pi ch) (omega arith) v'))
      ]
    ]
  ]

  -- A stretch of pipewrite on a valid pipe, from i written bytes of n on, keeps the pipe valid and
  -- appends to its contents exactly the bytes of user memory from addr + i to addr + j; it returns
  -- j at j = n or at a fault of copyin, sleeps only with j < n on a pipe of 512 bytes, and returns
  -- -1 only if the read end is closed or the process is killed.
  pub pipewrite-Sends :
      (n i : ℕ) (pi : Pipe)
      → i ≤ n
      → IsValid pi
      → Sends n i pi (pipewrite copyin killed addr n i pi)
  unfolding pipewrite
  pipewrite-Sends n i pi h v = pipewrite_loop-Sends (n - i) n i pi (omega arith) v
