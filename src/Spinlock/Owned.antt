-- ===== src/Spinlock/Owned.antt =====
-- spinlock.c: the invariant of the steps on a lock: who has its word, and when lk->cpu names it.
use cs3500_os.Base.{
  ℕ, ◌≡◌, refl, ap, sym, ◌∙◌, inl, inr, Bool, true, false, not, arith, ◌==◌, if◌then◌else◌, update,
  ok, ◌>>◌, panic_if, Bool-cases, ==→eq, eq→==, ==→ne, subst, fun_ext,
}
use cs3500_os.Spinlock.{
  Cpu, Lock, push_off, pop_off, holding, acquire_start, acquire_swap, acquire_record, release_start,
  release_word,
}
use cs3500_os.Spinlock.Steps.{
  Phase, outside, spinning, got, inside, clearing, popping, has_word, is_inside, is_busy, IsOff,
  World, at_phase, at_cpu, Step, starts, spins, takes, records, clears, frees, pops, works, Reach,
  start, next,
}

-- The CPU that has the word, if it is set; lk->cpu names it while it is inside.
pub record IsOwned (w : World) : Type 0 where
  pub free : w.lock.locked ≡ false → (c : ℕ) → has_word (w.phase c) ≡ false
  pub taken : w.lock.locked ≡ true → (c : ℕ) × (has_word (w.phase c) ≡ true)
  pub one : (c d : ℕ) → has_word (w.phase c) ≡ true → has_word (w.phase d) ≡ true → c ≡ d
  pub cpu :
      (c : ℕ) → has_word (w.phase c) ≡ true → w.lock.cpu ≡ (if is_inside (w.phase c) then c else 0)
  pub idle : w.lock.locked ≡ false → w.lock.cpu ≡ 0
  pub off : (c : ℕ) → is_busy (w.phase c) ≡ true → IsOff (w.cpus c)

pub locked_by :
    (w : World) (me : ℕ) → IsOwned w → has_word (w.phase me) ≡ true → w.lock.locked ≡ true
locked_by w me v had = elim (Bool-cases w.lock.locked) [
  | inl y ↦ y
  | inr n ↦ absurd (cc (v.free n me, had))
]

-- A step of me that neither takes nor gives the word, nor stores to lk->cpu.
same-IsOwned :
    (w : World) (me : ℕ) (p : Phase) (c : Cpu)
    → IsOwned w
    → has_word p ≡ has_word (w.phase me)
    → is_inside p ≡ is_inside (w.phase me)
    → (is_busy p ≡ true → IsOff c)
    → IsOwned (at_cpu w me p c)
same-IsOwned w me p c v h i o = record {
  free = λ e d. words d ∙ v.free e d;
  taken = λ e. let (d, t) = v.taken e in (d, words d ∙ t);
  one = λ d e x y. v.one d e (sym (words d) ∙ x) (sym (words e) ∙ y);
  cpu = λ d x. v.cpu d (sym (words d) ∙ x) ∙ ap (λ b. if b then d else 0) (sym (insides d));
  idle = v.idle;
  off = λ d. elim (Bool-cases (me == d)) [ inl y ↦ rw y o | inr n ↦ rw n (v.off d) ];
}
  where
    words : (d : ℕ) → has_word (update w.phase me p d) ≡ has_word (w.phase d)
    words d = elim (Bool-cases (me == d)) [
      | inl y ↦ rw y h ∙ ap (λ k. has_word (w.phase k)) (==→eq me d y)
      | inr n ↦ rw n refl
    ]

    insides : (d : ℕ) → is_inside (update w.phase me p d) ≡ is_inside (w.phase d)
    insides d = elim (Bool-cases (me == d)) [
      | inl y ↦ rw y i ∙ ap (λ k. is_inside (w.phase k)) (==→eq me d y)
      | inr n ↦ rw n refl
    ]

cpus_same : (w : World) (me : ℕ) (p : Phase) → at_cpu w me p (w.cpus me) ≡ at_phase w me p w.lock
cpus_same w me p =
    ap (λ k. record { lock = w.lock; phase = update w.phase me p; cpus = k })
      (fun_ext λ d. elim (Bool-cases (me == d)) [
        | inl y ↦ rw y (ap w.cpus (==→eq me d y))
        | inr n ↦ rw n refl
      ])

-- A step after which me has the word and no other CPU.
mine-IsOwned :
    (w : World) (me : ℕ) (p : Phase) (lk : Lock)
    → IsOwned w
    → ((c : ℕ) → has_word (w.phase c) ≡ true → me ≡ c)
    → has_word p ≡ true
    → lk.locked ≡ true
    → lk.cpu ≡ (if is_inside p then me else 0)
    → IsOff (w.cpus me)
    → IsOwned (at_phase w me p lk)
mine-IsOwned w me p lk v only h locked named o = record {
  free = λ e. absurd (cc);
  taken = λ e. (me, rw (eq→== me me refl) h);
  one = λ c d x y. sym (mine c x) ∙ mine d y;
  cpu = λ c x. elim (Bool-cases (me == c)) [
    | inl y ↦ rw y (named ∙ ap (λ k. if is_inside p then k else 0) (==→eq me c y))
    | inr n ↦ absurd (==→ne me c n (mine c x))
  ];
  idle = λ e. absurd (cc);
  off = λ c. elim (Bool-cases (me == c)) [
    | inl y ↦ λ b. subst (λ k. IsOff (w.cpus k)) (==→eq me c y) o
    | inr n ↦ rw n (v.off c)
  ];
}
  where
    mine : (c : ℕ) → has_word (update w.phase me p c) ≡ true → me ≡ c
    mine c x = elim (Bool-cases (me == c)) [ inl y ↦ ==→eq me c y | inr n ↦ only c (simp n at x) ]

frees-IsOwned :
    (w : World) (me : ℕ)
    → IsOwned w
    → w.phase me ≡ clearing
    → IsOwned (at_phase w me popping (release_word w.lock))
unfolding release_word
frees-IsOwned w me v h = record {
  free = λ e c. nobody c;
  taken = λ e. absurd (cc);
  one = λ c d x y. absurd (cc (nobody c, x));
  cpu = λ c x. absurd (cc (nobody c, x));
  idle = λ e. v.cpu me had ∙ rw h refl;
  off = λ c. elim (Bool-cases (me == c)) [
    | inl y ↦ λ b. subst (λ k. IsOff (w.cpus k)) (==→eq me c y) (v.off me (ap is_busy h))
    | inr n ↦ rw n (v.off c)
  ];
}
  where
    had : has_word (w.phase me) ≡ true
    had = ap has_word h

    nobody : (c : ℕ) → has_word (update w.phase me popping c) ≡ false
    nobody c = elim (Bool-cases (me == c)) [
      | inl y ↦ rw y refl
      | inr n ↦ elim (Bool-cases (has_word (w.phase c))) [
        | inl x ↦ absurd (==→ne me c n (v.one me c had x))
        | inr x ↦ rw n x
      ]
    ]

Step-IsOwned : (w w' : World) → IsOwned w → Step w w' → IsOwned w'
unfolding acquire_start acquire_swap acquire_record release_start holding push_off pop_off
Step-IsOwned w w' v (starts me c h e f) = rw f (
    same-IsOwned w me spinning c v (sym (ap has_word h)) (sym (ap is_inside h))
      (λ b. started (holding me w.lock) e))
  where
    started : (b : Bool) → (panic_if b >> ok (push_off (w.cpus me))) ≡ ok c → IsOff c
    started true e = absurd (cc)
    started false e = let x : push_off (w.cpus me) ≡ c = cc in subst IsOff x (refl, omega arith)
Step-IsOwned w w' v (spins me h e f) =
    let same : (acquire_swap w.lock).1 ≡ w.lock =
      ap (λ b. record { locked = b; cpu = w.lock.cpu }) (sym e) in
    rw f (
      subst (λ l. IsOwned (at_phase w me spinning l)) (sym same)
        (subst IsOwned (cpus_same w me spinning) (
          same-IsOwned w me spinning (w.cpus me) v (sym (ap has_word h)) (sym (ap is_inside h))
            (λ b. v.off me (ap is_busy h)))))
Step-IsOwned w w' v (takes me h e f) = rw f (
    mine-IsOwned w me got _ v (λ c x. absurd (cc (v.free e c, x))) refl refl (v.idle e)
      (v.off me (ap is_busy h)))
Step-IsOwned w w' v (records me h f) =
    let had = ap has_word h in
    rw f (
      mine-IsOwned w me inside _ v (λ c x. v.one me c had x) refl (locked_by w me v had) refl
        (v.off me (ap is_busy h)))
Step-IsOwned w w' v (clears me lk h e f) =
    let had = ap has_word h in
    let (set, zero_cpu) = cleared (holding me w.lock) e in
    rw f (
      mine-IsOwned w me clearing lk v (λ c x. v.one me c had x) refl (set ∙ locked_by w me v had)
        zero_cpu (v.off me (ap is_busy h)))
  where
    cleared :
        (b : Bool)
        → (panic_if (not b) >> ok (record { locked = w.lock.locked; cpu = 0 })) ≡ ok lk
        → (lk.locked ≡ w.lock.locked) × (lk.cpu ≡ 0)
    cleared false e = absurd (cc)
    cleared true e =
        let x : record { locked = w.lock.locked; cpu = 0 } ≡ lk = cc in
        (sym (ap (λ (l : Lock). l.locked) x), sym (ap (λ (l : Lock). l.cpu) x))
Step-IsOwned w w' v (frees me h f) = rw f (frees-IsOwned w me v h)
Step-IsOwned w w' v (pops me c h e f) =
    rw f (
      same-IsOwned w me outside c v (sym (ap has_word h)) (sym (ap is_inside h)) (λ b. absurd (cc)))
Step-IsOwned w w' v (works me c (inl h) f) =
    rw f (same-IsOwned w me _ c v refl refl (λ b. absurd (cc (ap is_busy h, b))))
Step-IsOwned w w' v (works me c (inr (h, o)) f) = rw f (same-IsOwned w me _ c v refl refl (λ b. o))

pub Reach-IsOwned : (w : World) → Reach w → IsOwned w
Reach-IsOwned w (start cs) = record {
  free = λ e c. refl;
  taken = λ e. absurd (cc);
  one = λ c d x y. absurd (cc);
  cpu = λ c x. absurd (cc);
  idle = λ e. refl;
  off = λ c b. absurd (cc);
}
Reach-IsOwned w (next {w = before} r st) = Step-IsOwned before w (Reach-IsOwned before r) st
