-- ===== src/Pipe/Receive.antt =====
-- pipe.c: piperead and the contents of the pipe; pipeclose.
use mathlib.Core.List.{append_assoc, append-nil}
use cs3500_os.Base.{
  ℕ, zero, suc, ◌+◌, ◌%◌, ◌^◌, ◌≡◌, refl, sym, ◌∙◌, ap, subst, Bool, true, false, not, ◌⊎◌, inl,
  inr, List, [], ◌∷◌, ◌++◌, arith, ◌==◌, if◌then◌else◌, length, Bool-cases, ==→eq, ==→ne,
}
use cs3500_os.Pipe.{Pipe, pipesize, writers, Got, shift, piperead_loop, piperead, pipeclose}
use cs3500_os.Pipe.Window.{IsValid, contents, shift-contents, contents_empty}

cons_ne_nil : {x : ℕ} {xs : List ℕ} → x ∷ xs ≡ [] → ⊥
cons_ne_nil e = cc

module _ (copyout : ℕ → Bool) (addr : ℕ) where
  -- What left the pipe between i and j: the bytes that reached the user, and at most one more, which
  -- is lost because copyout failed on it after nread had moved.
  pub record Received (n i : ℕ) (pi : Pipe) (out : List ℕ) (j : ℕ) (out' : List ℕ) (pi' : Pipe)
      : Type 0 where
    pub bytes : List ℕ
    pub lost : List ℕ
    pub valid : IsValid pi'
    pub given : out' ≡ out ++ bytes
    pub count : j ≡ i + length bytes
    pub taken : contents pi ≡ bytes ++ (lost ++ contents pi')
    pub ended :
        (lost ≡ []) × ((j ≡ n) ⊎ (contents pi' ≡ []))
        ⊎ (length lost ≡ 1) × (copyout ((addr + j) % 2 ^ 64) ≡ false)

  abbrev Gets : ℕ → ℕ → Pipe → List ℕ → Got → Type 0
  Gets n i pi out (Got.got j out' woken pi') =
      Received n i pi out j out' pi' × (woken ≡ writers ∷ [])
  Gets n i pi out (Got.refused pi') = ⊥
  Gets n i pi out (Got.asleep pi') = ⊥

  Received-none :
      (n i : ℕ) (pi : Pipe) (out : List ℕ)
      → IsValid pi
      → (i ≡ n) ⊎ (contents pi ≡ [])
      → Received n i pi out i out pi
  Received-none n i pi out v e = record {
    bytes = [];
    lost = [];
    valid = v;
    given = sym (append-nil out);
    count = omega arith;
    taken = refl;
    ended = inl (refl, e);
  }

  Gets-more :
      (n i : ℕ) (pi : Pipe) (ch : ℕ) (out : List ℕ) (g : Got)
      → contents pi ≡ ch ∷ contents (shift pi)
      → Gets n (i + 1) (shift pi) (out ++ ch ∷ []) g
      → Gets n i pi out g
  Gets-more n i pi ch out (Got.got j out' woken pi') e (r, w) = (
    record {
      bytes = ch ∷ r.bytes;
      lost = r.lost;
      valid = r.valid;
      given = r.given ∙ append_assoc out (ch ∷ []) r.bytes;
      count = omega (arith, r.count);
      taken = e ∙ ap (◌∷◌ ch) r.taken;
      ended = r.ended;
    },
    w,
  )
  Gets-more n i pi ch out (Got.refused pi') e b = b
  Gets-more n i pi ch out (Got.asleep pi') e b = b

  piperead_loop-Gets :
      (left n i : ℕ) (out : List ℕ) (pi : Pipe)
      → i + left ≡ n
      → IsValid pi
      → Gets n i pi out (piperead_loop copyout addr left i out pi)
  unfolding piperead_loop
  piperead_loop-Gets zero n i out pi e v = (Received-none n i pi out v (inl (omega arith)), refl)
  piperead_loop-Gets (suc left) n i out pi e v = elim (Bool-cases (pi.nread == pi.nwrite)) [
    | inl empty ↦
        rw empty (Received-none n i pi out v (inr (contents_empty pi v (==→eq _ _ empty))), refl)
    | inr some_left ↦
        let (v', t) = shift-contents pi v (==→ne _ _ some_left) in
        elim (Bool-cases (copyout ((addr + i) % 2 ^ 64))) [
          | inl fits ↦
              rw (some_left, fits)
                (Gets-more n i pi _ out _ t
                  (piperead_loop-Gets left n (i + 1) _ (shift pi) (omega arith) v'))
          | inr fault ↦
              rw (some_left, fault)
                (
                  record {
                    bytes = [];
                    lost = pi.bytes (pi.nread % pipesize) ∷ [];
                    valid = v';
                    given = sym (append-nil out);
                    count = omega arith;
                    taken = t;
                    ended = inr (refl, fault);
                  },
                  refl,
                )
        ]
  ]

  -- How a stretch of piperead may end.
  abbrev pub Reads : Bool → ℕ → Pipe → Got → Type 0
  Reads killed n pi (Got.got j out woken pi') =
      Received n 0 pi [] j out pi'
      × (woken ≡ writers ∷ [])
      × ((contents pi ≡ []) → pi.writeopen ≡ false)
  Reads killed n pi (Got.refused pi') =
      (pi' ≡ pi) × (contents pi ≡ []) × (pi.writeopen ≡ true) × (killed ≡ true)
  Reads killed n pi (Got.asleep pi') =
      (pi' ≡ pi) × (contents pi ≡ []) × (pi.writeopen ≡ true) × (killed ≡ false)

  Reads-got :
      (killed : Bool) (n : ℕ) (pi : Pipe) (g : Got)
      → ((contents pi ≡ []) → pi.writeopen ≡ false)
      → Gets n 0 pi [] g
      → Reads killed n pi g
  Reads-got killed n pi (Got.got j out woken pi') h (r, w) = (r, w, h)
  Reads-got killed n pi (Got.refused pi') h b = absurd b
  Reads-got killed n pi (Got.asleep pi') h b = absurd b

  piperead_waits :
      (killed : Bool) (n : ℕ) (pi : Pipe)
      → (pi.nread == pi.nwrite) ≡ true
      → pi.writeopen ≡ true
      → piperead copyout addr killed n pi ≡ (if killed then Got.refused pi else Got.asleep pi)
  unfolding piperead
  piperead_waits killed n pi empty open_end = simp (empty, open_end)

  -- A stretch of piperead on a valid pipe either takes bytes off the front of its contents, in
  -- order, and returns their number j (j = n or the pipe is then empty, or copyout fails at addr +
  -- j and one more byte is lost), or leaves an empty pipe with an open write end unchanged: it
  -- returns -1 if the process is killed, and sleeps otherwise.
  pub piperead-Reads :
      (killed : Bool) (n : ℕ) (pi : Pipe)
      → IsValid pi
      → Reads killed n pi (piperead copyout addr killed n pi)
  unfolding piperead
  piperead-Reads killed n pi v = elim (Bool-cases (pi.nread == pi.nwrite)) [
    | inl empty ↦
        let nothing = contents_empty pi v (==→eq _ _ empty) in
        elim (Bool-cases pi.writeopen) [
          | inl open_end ↦
              subst (Reads killed n pi) (sym (piperead_waits killed n pi empty open_end))
                (waits killed nothing open_end)
          | inr shut ↦
              simp (empty, shut)
                (Reads-got killed n pi _ (λ _. shut)
                  (piperead_loop-Gets n n 0 [] pi (omega arith) v))
        ]
    | inr some_left ↦
        let (v', t) = shift-contents pi v (==→ne _ _ some_left) in
        rw some_left (
          Reads-got killed n pi _ (λ e. absurd (cons_ne_nil (sym t ∙ e)))
            (piperead_loop-Gets n n 0 [] pi (omega arith) v))
  ]
    where
      waits :
          (killed : Bool)
          → contents pi ≡ []
          → pi.writeopen ≡ true
          → Reads killed n pi (if killed then Got.refused pi else Got.asleep pi)
      waits true nothing open_end = (refl, nothing, open_end, refl)
      waits false nothing open_end = (refl, nothing, open_end, refl)

-- Of two closes of the two ends of an open pipe, in either order, the first keeps the pipe and its
-- contents and the second frees it.
pub pipeclose_frees :
    (pi : Pipe)
    → (pi.readopen ≡ true)
    → (pi.writeopen ≡ true)
    → (writable : Bool)
    → ((pipeclose pi writable).freed ≡ false)
      × ((pipeclose (pipeclose pi writable).pipe (not writable)).freed ≡ true)
      × (contents (pipeclose pi writable).pipe ≡ contents pi)
unfolding pipeclose
pipeclose_frees pi r w writable = ground arith
