-- ===== src/Spinlock/Exclusion.antt =====
-- spinlock.c: which CPU has the lock, and what it and the others see of it.
use cs3500_os.Base.{
  ℕ, ◌≡◌, ◌≢◌, refl, ap, sym, ◌∙◌, ◌⊎◌, inl, inr, true, false, ◌==◌, ok, Bool-cases, ==→eq, eq→==,
  ==→ne, ge→ltb,
}
use cs3500_os.Spinlock.{Cpu, push_off, pop_off, holding, acquire_start, release_start}
use cs3500_os.Spinlock.Steps.{
  Phase, outside, spinning, got, inside, clearing, popping, has_word, is_inside, is_busy, World,
  Reach,
}
use cs3500_os.Spinlock.Owned.{IsOwned, locked_by, Reach-IsOwned}

is_inside-has_word : (p : Phase) → is_inside p ≡ true → has_word p ≡ true
is_inside-has_word inside e = refl
is_inside-has_word outside e = absurd (cc)
is_inside-has_word spinning e = absurd (cc)
is_inside-has_word got e = absurd (cc)
is_inside-has_word clearing e = absurd (cc)
is_inside-has_word popping e = absurd (cc)

holding-is_inside :
    (w : World) (me : ℕ) → IsOwned w → me ≢ 0 → holding me w.lock ≡ is_inside (w.phase me)
unfolding holding
holding-is_inside w me v some_cpu = elim (Bool-cases (is_inside (w.phase me))) [
  | inl y ↦
      let had = is_inside-has_word (w.phase me) y in
      let named : w.lock.cpu ≡ me = v.cpu me had ∙ rw y refl in
      rw (y, locked_by w me v had, eq→== w.lock.cpu me named) refl
  | inr n ↦ elim (Bool-cases w.lock.locked) [
    | inr free ↦ rw (n, free) refl
    | inl taken ↦ elim (Bool-cases (w.lock.cpu == me)) [
      | inr other ↦ rw (n, taken, other) refl
      | inl named ↦
          let (o, had) = v.taken taken in
          let e : w.lock.cpu ≡ me = ==→eq w.lock.cpu me named in
          elim (Bool-cases (is_inside (w.phase o))) [
            | inl y ↦
                let same : o ≡ me = sym (v.cpu o had ∙ rw y refl) ∙ e in
                absurd (cc (ap (λ k. is_inside (w.phase k)) same, y, n))
            | inr m ↦ absurd (some_cpu (sym e ∙ v.cpu o had ∙ rw m refl))
          ]
    ]
  ]
]

-- One CPU has the word, and it is set; or none has it, and it is not set.
abbrev pub HasOwner : World → Type 0
HasOwner w =
    ((o : ℕ) × (w.lock.locked ≡ true) × ((c : ℕ) → has_word (w.phase c) ≡ (o == c)))
    ⊎ ((w.lock.locked ≡ false) × ((c : ℕ) → has_word (w.phase c) ≡ false))

-- No panic in what the CPU does next.
abbrev pub Proceeds : World → ℕ → Phase → Type 0
Proceeds w me outside = acquire_start me w.lock (w.cpus me) ≡ ok (push_off (w.cpus me))
Proceeds w me inside = release_start me w.lock ≡ ok (record { locked = true; cpu = 0 })
Proceeds w me popping = (c : Cpu) × (pop_off (w.cpus me) ≡ ok c)
Proceeds w me spinning = Unit {0}
Proceeds w me got = Unit {0}
Proceeds w me clearing = Unit {0}

IsOwned-HasOwner : (w : World) → IsOwned w → HasOwner w
IsOwned-HasOwner w v = elim (Bool-cases w.lock.locked) [
  | inr free ↦ inr (free, v.free free)
  | inl taken ↦
      let (o, had) = v.taken taken in
      inl (
        o,
        taken,
        λ c. elim (Bool-cases (o == c)) [
          | inl y ↦ ap (λ k. has_word (w.phase k)) (sym (==→eq o c y)) ∙ had ∙ sym y
          | inr n ↦ elim (Bool-cases (has_word (w.phase c))) [
            | inl x ↦ absurd (==→ne o c n (v.one o c had x))
            | inr x ↦ x ∙ sym n
          ]
        ],
      )
]

IsOwned-Proceeds :
    (w : World) (me : ℕ) (p : Phase) → IsOwned w → me ≢ 0 → w.phase me ≡ p → Proceeds w me p
unfolding acquire_start release_start pop_off
IsOwned-Proceeds w me outside v some_cpu h =
    let out : holding me w.lock ≡ false = holding-is_inside w me v some_cpu ∙ ap is_inside h in
    rw out refl
IsOwned-Proceeds w me inside v some_cpu h =
    let is_in : holding me w.lock ≡ true = holding-is_inside w me v some_cpu ∙ ap is_inside h in
    rw (is_in, locked_by w me v (ap has_word h)) refl
IsOwned-Proceeds w me popping v some_cpu h =
    let (off, deep) = v.off me (ap is_busy h) in rw (off, ge→ltb (w.cpus me).noff 1 deep) (_, refl)
IsOwned-Proceeds w me spinning v some_cpu h = tt
IsOwned-Proceeds w me got v some_cpu h = tt
IsOwned-Proceeds w me clearing v some_cpu h = tt

-- In each state that the interleaved steps of acquire and release of all CPUs reach from a free
-- lock, where the swap of the word, the stores of lk->cpu and the release of the word are separate
-- steps, and where a CPU outside may change its own state in any way and one inside only with a
-- push_off open and interrupts off: if the word is set, exactly one CPU has it, from its swap to
-- its release of the word, and otherwise none has. For a CPU that is not null, holding() is true
-- exactly if it is between its store of lk->cpu and its clearing of it; if it is outside, the
-- start of acquire returns without a panic; if it is inside, release returns without a panic up to
-- lk->cpu = 0; and behind the release of the word, pop_off returns without a panic.
pub Reach-HasOwner :
    (w : World) (me : ℕ)
    → Reach w
    → me ≢ 0
    → HasOwner w × (holding me w.lock ≡ is_inside (w.phase me)) × Proceeds w me (w.phase me)
Reach-HasOwner w me r some_cpu =
    let v = Reach-IsOwned w r in
    (
      IsOwned-HasOwner w v,
      holding-is_inside w me v some_cpu,
      IsOwned-Proceeds w me (w.phase me) v some_cpu refl,
    )
