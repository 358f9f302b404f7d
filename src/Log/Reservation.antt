-- ===== src/Log/Reservation.antt =====
-- log.c: the log space that begin_op() reserves and log_write() uses.
use cs3500_os.Base.{
  ℕ, suc, ◌+◌, ◌-◌, ◌*◌, ◌≤◌, ◌<◌, ◌≡◌, ◌≢◌, refl, sym, ap, ◌⊎◌, inl, inr, Bool, true, false, List,
  [], ◌∷◌, ◌++◌, some, arith, ◌==◌, length, length-append, All, Absent, Distinct, member, ok, panic,
  update, subst, Bool-cases, ==→eq, gt→leb, ge→ltb,
}
use cs3500_os.Log.{
  Log, Cache, Trace, logblocks, maxopblocks, begin_op, log_write, commit, end_op_begin,
  end_op_finish,
}

-- The log with the operations in progress: for each, how many more blocks it may write.
pub record Ops : Type 0 where
  pub log : Log
  pub left : List ℕ

abbrev sum : List ℕ → ℕ
sum [] = 0
sum (x ∷ xs) = x + sum xs

-- Calls in any order, each operation calling log_write() at most MAXOPBLOCKS times. The commit of
-- end_op() runs without the lock, and so what others do may come between it and end_op()'s ends.
pub data Step (start : ℕ) (s : Ops) : Ops → Type 0 where
  begins :
      {log' : Log}
      → begin_op s.log ≡ some log'
      → Step start s (record { log = log'; left = maxopblocks ∷ s.left })
  writes :
      {log' : Log} (c c' : Cache) (b n : ℕ) (xs ys : List ℕ)
      → s.left ≡ xs ++ (suc n ∷ ys)
      → log_write b s.log c ≡ ok (log', c')
      → Step start s (record { log = log'; left = xs ++ (n ∷ ys) })
  ends :
      {log' : Log} (do_commit : Bool) (n : ℕ) (xs ys : List ℕ)
      → s.left ≡ xs ++ (n ∷ ys)
      → end_op_begin s.log ≡ ok (do_commit, log')
      → Step start s (record { log = log'; left = xs ++ ys })
  commits :
      (c c' : Cache) (t : Trace)
      → s.log.committing ≡ true
      → commit start s.log.lh c ≡ (c', t)
      → Step start s (record { log = record (s.log) { lh = [] }; left = s.left })
  finishes :
      s.log.committing ≡ true
      → s.log.lh ≡ []
      → Step start s (record { log = end_op_finish s.log; left = s.left })

pub data Reach (start : ℕ) (s : Ops) : Ops → Type 0 where
  here : Reach start s s
  next : {t u : Ops} → Reach start s t → Step start t u → Reach start s u

-- The lock's users have reserved enough: what is logged and what may still be logged fits.
pub record IsReserved (s : Ops) : Type 0 where
  pub counted : s.log.outstanding ≡ length s.left
  pub small : All (λ n. n ≤ 10) s.left
  pub room : length s.log.lh + sum s.left ≤ 30
  pub idle : (s.log.committing ≡ false) ⊎ (s.left ≡ [])
  pub absorbed : Distinct s.log.lh

sum-append : (xs ys : List ℕ) → sum (xs ++ ys) ≡ sum xs + sum ys
sum-append [] ys = omega arith
sum-append (x ∷ xs) ys = omega (arith, sum-append xs ys)

sum_small : (xs : List ℕ) → All (λ n. n ≤ 10) xs → sum xs ≤ length xs * 10
sum_small [] h = omega arith
sum_small (x ∷ xs) h = omega (arith, sum_small xs h.1, h.0)

small-append :
    (xs ys : List ℕ) → All (λ n. n ≤ 10) (xs ++ ys) → All (λ n. n ≤ 10) xs × All (λ n. n ≤ 10) ys
small-append [] ys h = (tt, h)
small-append (x ∷ xs) ys h = let (a, b) = small-append xs ys h.1 in ((h.0, a), b)

append-small :
    (xs ys : List ℕ) → All (λ n. n ≤ 10) xs → All (λ n. n ≤ 10) ys → All (λ n. n ≤ 10) (xs ++ ys)
append-small [] ys a b = b
append-small (x ∷ xs) ys a b = (a.0, append-small xs ys a.1 b)

Absent-of_member : (x : ℕ) (xs : List ℕ) → member x xs ≡ false → Absent x xs
Absent-of_member x [] h = tt
Absent-of_member x (y ∷ ys) h = (ground arith, Absent-of_member x ys (ground arith))

Absent-append : (x y : ℕ) (xs : List ℕ) → Absent y xs → x ≢ y → Absent y (xs ++ x ∷ [])
Absent-append x y [] h ne = (ne, tt)
Absent-append x y (z ∷ zs) h ne = (h.0, Absent-append x y zs h.1 ne)

Distinct-append : (x : ℕ) (xs : List ℕ) → Absent x xs → Distinct xs → Distinct (xs ++ x ∷ [])
Distinct-append x [] a d = (tt, tt)
Distinct-append x (y ∷ ys) a d =
    (Absent-append x y ys d.0 (λ e. a.0 (sym e)), Distinct-append x ys a.1 d.1)

begin_op-some :
    (log log' : Log)
    → begin_op log ≡ some log'
    → (record log { outstanding = log.outstanding + 1 } ≡ log')
      × (length log.lh + (log.outstanding + 1) * 10 ≤ 30)
      × (log.committing ≡ false)
unfolding begin_op
begin_op-some log log' e = (ground arith, ground arith, ground arith)

begin_op-IsReserved :
    (s : Ops) (log' : Log)
    → begin_op s.log ≡ some log'
    → IsReserved s
    → IsReserved (record { log = log'; left = maxopblocks ∷ s.left })
begin_op-IsReserved s log' e v =
    let (l, room, idle) = begin_op-some s.log log' e in
    subst (λ l. IsReserved (record { log = l; left = maxopblocks ∷ s.left })) l
      (record {
        counted = omega (arith, v.counted);
        small = (omega arith, v.small);
        room = omega (arith, sum_small s.left v.small, v.counted);
        idle = inl idle;
        absorbed = v.absorbed;
      })

-- What log_write() does to a log with room and an operation in progress.
log_write_cases :
    (b : ℕ) (log : Log) (c : Cache)
    → length log.lh < logblocks
    → 0 < log.outstanding
    → (log_write b log c ≡ ok (log, c)) × (member b log.lh ≡ true)
      ⊎ (log_write b log c
          ≡ ok (
            record log { lh = log.lh ++ b ∷ [] },
            record c { pins = update c.pins b (c.pins b + 1) },
          ))
        × (member b log.lh ≡ false)
unfolding log_write
log_write_cases b log c room busy = elim (Bool-cases (member b log.lh)) [
  | inl m ↦ inl (simp (gt→leb logblocks (length log.lh) room, ge→ltb log.outstanding 1 busy, m), m)
  | inr m ↦ inr (simp (gt→leb logblocks (length log.lh) room, ge→ltb log.outstanding 1 busy, m), m)
]

has_room :
    (s : Ops) (n : ℕ) (xs ys : List ℕ)
    → s.left ≡ xs ++ (suc n ∷ ys)
    → IsReserved s
    → (length s.log.lh < logblocks) × (0 < s.log.outstanding)
has_room s n xs ys e v = (
  omega (arith, v.room, ap sum e, sum-append xs (suc n ∷ ys)),
  omega (arith, v.counted, ap length e, length-append xs (suc n ∷ ys)),
)

-- While an operation is in progress, nobody commits.
busy-idle :
    (s : Ops) (n : ℕ) (xs ys : List ℕ)
    → s.left ≡ xs ++ (n ∷ ys)
    → IsReserved s
    → s.log.committing ≡ false
busy-idle s n xs ys e v = elim v.idle [
  | inl idle ↦ idle
  | inr none_left ↦
      absurd (omega (arith, ap length e, ap length none_left, length-append xs (n ∷ ys)))
]

log_write-IsReserved :
    (s : Ops) (log' : Log) (c c' : Cache) (b n : ℕ) (xs ys : List ℕ)
    → s.left ≡ xs ++ (suc n ∷ ys)
    → log_write b s.log c ≡ ok (log', c')
    → IsReserved s
    → IsReserved (record { log = log'; left = xs ++ (n ∷ ys) })
log_write-IsReserved s log' c c' b n xs ys e w v =
    let (room, busy) = has_room s n xs ys e v in
    let (small_xs, small_ys) = small-append xs (suc n ∷ ys) (subst (All (λ n. n ≤ 10)) e v.small) in
    let small : All (λ n. n ≤ 10) (xs ++ (n ∷ ys)) =
      append-small xs (n ∷ ys) small_xs (omega (arith, small_ys.0), small_ys.1) in
    let size : length (xs ++ (n ∷ ys)) ≡ s.log.outstanding =
      omega
        (arith, v.counted, ap length e, length-append xs (suc n ∷ ys), length-append xs (n ∷ ys)) in
    let total : suc (sum (xs ++ (n ∷ ys))) ≡ sum s.left =
      omega (arith, ap sum e, sum-append xs (suc n ∷ ys), sum-append xs (n ∷ ys)) in
    elim (log_write_cases b s.log c room busy) [
      | inl (w', m) ↦
          let same : s.log ≡ log' = cc in
          subst (λ l. IsReserved (record { log = l; left = xs ++ (n ∷ ys) })) same
            (record {
              counted = omega arith;
              small = small;
              room = omega (arith, v.room);
              idle = inl (busy-idle s (suc n) xs ys e v);
              absorbed = v.absorbed;
            })
      | inr (w', m) ↦
          let grown : record (s.log) { lh = s.log.lh ++ b ∷ [] } ≡ log' = cc in
          subst (λ l. IsReserved (record { log = l; left = xs ++ (n ∷ ys) })) grown
            (record {
              counted = omega arith;
              small = small;
              room = omega (arith, v.room, length-append s.log.lh (b ∷ []));
              idle = inl (busy-idle s (suc n) xs ys e v);
              absorbed = Distinct-append b s.log.lh (Absent-of_member b s.log.lh m) v.absorbed;
            })
    ]

-- end_op() either is to commit, as the last operation, or only counts down.
end_op_cases :
    (log log' : Log) (do_commit : Bool)
    → log.committing ≡ false
    → end_op_begin log ≡ ok (do_commit, log')
    → ((log.outstanding ≡ 1) × (record log { outstanding = 0; committing = true } ≡ log'))
      ⊎ (record log { outstanding = log.outstanding - 1 } ≡ log')
unfolding end_op_begin
end_op_cases log log' do_commit idle e = elim (Bool-cases (log.outstanding == 1)) [
  | inl last ↦ inl (==→eq log.outstanding 1 last, ground arith)
  | inr more ↦ inr (ground arith)
]

empty_list : (xs : List ℕ) → length xs ≡ 0 → xs ≡ []
empty_list [] e = refl
empty_list (x ∷ xs) e = absurd (omega arith)

end_op-IsReserved :
    (s : Ops) (log' : Log) (do_commit : Bool) (n : ℕ) (xs ys : List ℕ)
    → s.left ≡ xs ++ (n ∷ ys)
    → end_op_begin s.log ≡ ok (do_commit, log')
    → IsReserved s
    → IsReserved (record { log = log'; left = xs ++ ys })
end_op-IsReserved s log' do_commit n xs ys e w v =
    let idle = busy-idle s n xs ys e v in
    let (small_xs, small_ys) = small-append xs (n ∷ ys) (subst (All (λ n. n ≤ 10)) e v.small) in
    let small : All (λ n. n ≤ 10) (xs ++ ys) = append-small xs ys small_xs small_ys.1 in
    let size : suc (length (xs ++ ys)) ≡ s.log.outstanding =
      omega (arith, v.counted, ap length e, length-append xs (n ∷ ys), length-append xs ys) in
    let total : sum (xs ++ ys) ≤ sum s.left =
      omega (arith, ap sum e, sum-append xs (n ∷ ys), sum-append xs ys) in
    elim (end_op_cases s.log log' do_commit idle w) [
      | inl (one, l) ↦
          subst (λ l. IsReserved (record { log = l; left = xs ++ ys })) l
            (record {
              counted = omega arith;
              small = small;
              room = omega (arith, v.room);
              idle = inr (empty_list (xs ++ ys) (omega arith));
              absorbed = v.absorbed;
            })
      | inr l ↦
          subst (λ l. IsReserved (record { log = l; left = xs ++ ys })) l
            (record {
              counted = omega arith;
              small = small;
              room = omega (arith, v.room);
              idle = inl idle;
              absorbed = v.absorbed;
            })
    ]

Step-IsReserved : {start : ℕ} {s t : Ops} → Step start s t → IsReserved s → IsReserved t
unfolding end_op_finish
Step-IsReserved {s = s} (begins {log'} e) v = begin_op-IsReserved s log' e v
Step-IsReserved {s = s} (writes {log'} c c' b n xs ys e w) v =
    log_write-IsReserved s log' c c' b n xs ys e w v
Step-IsReserved {s = s} (ends {log'} do_commit n xs ys e w) v =
    end_op-IsReserved s log' do_commit n xs ys e w v
Step-IsReserved {s = s} (commits c c' t on e) v = record {
  counted = v.counted;
  small = v.small;
  room = omega (arith, v.room);
  idle = v.idle;
  absorbed = tt;
}
Step-IsReserved {s = s} (finishes on e) v = record {
  counted = v.counted;
  small = v.small;
  room = v.room;
  idle = inl refl;
  absorbed = v.absorbed;
}

Reach-IsReserved : {start : ℕ} {s t : Ops} → IsReserved s → Reach start s t → IsReserved t
Reach-IsReserved v here = v
Reach-IsReserved v (next r st) = Step-IsReserved st (Reach-IsReserved v r)

-- The log after initlog().
abbrev pub fresh : Ops
fresh = record { log = record { lh = []; outstanding = 0; committing = false }; left = [] }

-- From an empty log, after any sequence of begin_op, log_write (at most MAXOPBLOCKS for each
-- operation) and the parts of end_op, of which the commit runs without the lock: an operation with
-- blocks left may call log_write and end_op without a panic, and the log lists distinct blocks and
-- has room for one more.
pub log_write_never_panics :
    (start : ℕ) (s : Ops) (b n : ℕ) (xs ys : List ℕ) (c : Cache)
    → Reach start fresh s
    → s.left ≡ xs ++ (suc n ∷ ys)
    → (log_write b s.log c ≢ panic)
      × (end_op_begin s.log ≢ panic)
      × Distinct s.log.lh
      × (length s.log.lh < logblocks)
unfolding end_op_begin
log_write_never_panics start s b n xs ys c r e =
    let v : IsReserved s =
      Reach-IsReserved
        (record { counted = refl; small = tt; room = omega arith; idle = inl refl; absorbed = tt })
        r in
    let (room, busy) = has_room s n xs ys e v in
    (
      λ p. elim (log_write_cases b s.log c room busy) [ inl (w, _) ↦ cc | inr (w, _) ↦ cc ],
      λ p. (let q = simp (busy-idle s (suc n) xs ys e v) at p in cc),
      v.absorbed,
      room,
    )
