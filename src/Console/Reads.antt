-- ===== src/Console/Reads.antt =====
-- console.c: what consoleread takes off the bytes that wait.
use cs3500_os.Base.{
  ℕ, zero, suc, ◌+◌, ◌-◌, ◌%◌, ◌^◌, ◌≡◌, ◌≢◌, refl, sym, ap, subst, Bool, true, false, not, List,
  [], ◌∷◌, ◌++◌, arith, ltb, ◌==◌, if◌then◌else◌, inl, inr, Bool-cases, ==→eq, ==→ne,
}
use cs3500_os.Console.{Cons, Ended, returned, refused, asleep, consoleread, newline, ctrl_d}
use cs3500_os.Console.Lines.{window, span, waiting, line, IsCons}

-- The reader on the list of the bytes that wait.
pub data Took : Type 0 where
  gives : (count : ℕ) → (out : List ℕ) → (rest : List ℕ) → Took
  dies : (out : List ℕ) → (rest : List ℕ) → Took
  waits : (left : ℕ) → (dst : ℕ) → (out : List ℕ) → (rest : List ℕ) → Took

abbrev pub take_line : (ℕ → Bool) → Bool → ℕ → ℕ → ℕ → List ℕ → List ℕ → Took
take_line copyout killed target zero dst out ws = gives target out ws
take_line copyout killed target (suc n) dst out [] =
    if killed then dies out [] else waits (suc n) dst out []
take_line copyout killed target (suc n) dst out (c ∷ ws) =
    if c == ctrl_d
    then gives (target - suc n) out (if ltb (suc n) target then c ∷ ws else ws)
    else if not (copyout dst)
    then gives (target - suc n) out ws
    else if c == newline
    then gives (target - n) (out ++ c ∷ []) ws
    else take_line copyout killed target n ((dst + 1) % 2 ^ 64) (out ++ c ∷ []) ws

-- The end of a stretch, seen as the reader on the list sees it, with the line that is being typed
-- untouched.
abbrev pub Agrees : Cons → Ended → Took → Type 0
Agrees c (returned n out c') k = IsCons c' × (line c' ≡ line c) × (k ≡ gives n out (waiting c'))
Agrees c (refused out c') k = IsCons c' × (line c' ≡ line c) × (k ≡ dies out (waiting c'))
Agrees c (asleep n dst out c') k =
    IsCons c' × (line c' ≡ line c) × (k ≡ waits n dst out (waiting c'))

abbrev pub taken : Cons → Cons
taken c = record c { r = (c.r + 1) % 2 ^ 32 }

taken-IsCons : (c : Cons) → IsCons c → c.r ≢ c.w → IsCons (taken c)
taken-IsCons c v ne = record {
  r_fits = omega arith;
  w_fits = v.w_fits;
  e_fits = v.e_fits;
  bounded = omega (arith, v.bounded, v.r_fits, v.w_fits);
  one_line = v.one_line;
}

taken-waiting :
    (c : Cons) → IsCons c → c.r ≢ c.w → waiting c ≡ c.buf (c.r % 128) ∷ waiting (taken c)
taken-waiting c v ne =
    let shorter : span c.r c.w ≡ suc (span (taken c).r c.w) = omega (arith, v.r_fits, v.w_fits) in
    ap (window c.buf c.r) shorter

untaken : (c : Cons) → IsCons c → record c { r = ((taken c).r + 2 ^ 32 - 1) % 2 ^ 32 } ≡ c
untaken c v =
    let same : ((taken c).r + 2 ^ 32 - 1) % 2 ^ 32 ≡ c.r = omega (arith, v.r_fits) in
    ap (λ x. record { buf = c.buf; r = x; w = c.w; e = c.e }) same

module _ (copyout : ℕ → Bool) (killed : Bool) (target : ℕ) where
  -- consoleread, from its call or from a sleep, with n bytes to go, does with the bytes that wait
  -- what the reader on a list does, keeps the buffer valid, and leaves the line that is being
  -- typed alone: it takes bytes until n are taken, or a newline is, or a copy fails, whose byte is
  -- lost, or the next is ^D, which it takes as well if it has given none before in the call; if no
  -- byte waits, it returns -1 if the process is killed and sleeps otherwise.
  pub consoleread-take_line :
      (n dst : ℕ) (out : List ℕ) (c : Cons)
      → IsCons c
      → Agrees c
          (consoleread copyout killed target n dst out c)
          (take_line copyout killed target n dst out (waiting c))
  unfolding consoleread
  consoleread-take_line zero dst out c v = (v, refl, refl)
  consoleread-take_line (suc n) dst out c v = elim (Bool-cases (c.r == c.w)) [
    | inl y ↦
        let none_left : span c.r c.w ≡ 0 = omega (arith, ==→eq c.r c.w y, v.r_fits) in
        let empty : waiting c ≡ [] = ap (window c.buf c.r) none_left in none_waiting killed y empty
    | inr some_left ↦
        let ne = ==→ne c.r c.w some_left in
        let w = taken-IsCons c v ne in
        let e = taken-waiting c v ne in
        subst
          (λ ws.
            Agrees c (consoleread copyout killed target (suc n) dst out c)
              (take_line copyout killed target (suc n) dst out ws))
          (sym e)
          (elim (Bool-cases (c.buf (c.r % 128) == ctrl_d)) [
            | inl d ↦ elim (Bool-cases (ltb (suc n) target)) [
              | inl later ↦
                  rw (some_left, d, later)
                    (subst
                      (λ x.
                        IsCons x
                        × (line x ≡ line c)
                        × (gives (target - suc n) out (c.buf (c.r % 128) ∷ waiting (taken c))
                            ≡ gives (target - suc n) out (waiting x)))
                      (sym (untaken c v)) (v, refl, ap (gives (target - suc n) out) (sym e)))
              | inr first ↦ rw (some_left, d, first) (w, refl, refl)
            ]
            | inr other ↦ elim (Bool-cases (copyout dst)) [
              | inr fails ↦ rw (some_left, other, fails) (w, refl, refl)
              | inl copies ↦ elim (Bool-cases (c.buf (c.r % 128) == newline)) [
                | inl ends ↦ rw (some_left, other, copies, ends) (w, refl, refl)
                | inr goes ↦
                    rw (some_left, other, copies, goes)
                      (consoleread-take_line n ((dst + 1) % 2 ^ 64) (out ++ c.buf (c.r % 128) ∷ [])
                        (taken c) w)
              ]
            ]
          ])
  ]
    where
      none_waiting :
          (k : Bool)
          → (c.r == c.w) ≡ true
          → waiting c ≡ []
          → Agrees c
              (consoleread copyout k target (suc n) dst out c)
              (take_line copyout k target (suc n) dst out (waiting c))
      none_waiting true y empty = rw (y, empty) (v, refl, refl)
      none_waiting false y empty = rw (y, empty) (v, refl, refl)
