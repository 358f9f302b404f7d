-- ===== src/Bio/Unique.antt =====
-- bio.c: the blocks that the buffers hold, and the references to them.
use cs3500_os.Base.{
  ℕ, suc, ◌+◌, ◌≤◌, ◌<◌, ◌≡◌, refl, sym, ap, ap₂, subst, ◌∙◌, true, false, ◌&&◌, List, [], ◌∷◌,
  Option, none, some, arith, ◌==◌, if◌then◌else◌, Outcome, ok, panic, All, Bool-cases, Option-cases,
  ==→eq, inl, inr, ◌⊎◌, zero, get_elem?, set, drop,
}
use cs3500_os.Bio.{Buf, holds, find_cached, claim, recycle, bget, bunpin, unlink, brelse}

-- How many buffers hold the block.
abbrev pub copies : ℕ → ℕ → List Buf → ℕ
copies dev blockno [] = 0
copies dev blockno (b ∷ bs) =
    let rest = copies dev blockno bs in if holds b dev blockno then rest + 1 else rest

-- The references to the buffers that hold the block.
abbrev pub refs : ℕ → ℕ → List Buf → ℕ
refs dev blockno [] = 0
refs dev blockno (b ∷ bs) =
    let rest = refs dev blockno bs in if holds b dev blockno then b.refcnt + rest else rest

-- One more for the block itself.
abbrev pub one_for : ℕ → ℕ → ℕ → ℕ → ℕ
one_for dev blockno jd jb = if dev == jd && blockno == jb then 1 else 0

abbrev pub OneMore : ℕ → ℕ → List Buf → List Buf → Type 0
OneMore dev blockno bs bs' =
    (jd jb : ℕ) → refs jd jb bs' ≡ refs jd jb bs + one_for dev blockno jd jb

-- Device 0 stands for the buffers that hold no block yet.
abbrev pub IsCache : List Buf → Type 0
IsCache bs = (dev blockno : ℕ) → copies (suc dev) blockno bs ≤ 1

-- b is the buffer of the cache that held the block, with one reference more.
abbrev pub Hits : ℕ → ℕ → List Buf → Buf → List Buf → Type 0
Hits dev blockno bs b bs' =
    (i : ℕ) × (old : Buf) × (get_elem? bs i ≡ some old)
    × (holds old dev blockno ≡ true)
    × (b ≡ record old { refcnt = old.refcnt + 1 })
    × (bs' ≡ set bs i b)

-- b is the last buffer of the cache that was not in use (all behind it are), now for the block and without its data.
abbrev pub Reuses : ℕ → ℕ → List Buf → Buf → List Buf → Type 0
Reuses dev blockno bs b bs' =
    (i : ℕ) × (old : Buf) × (get_elem? bs i ≡ some old)
    × (old.refcnt ≡ 0)
    × (b ≡ record { self = old.self; dev = dev; blockno = blockno; valid = false; refcnt = 1 })
    × (bs' ≡ set bs i b)
    × All (λ c. 0 < c.refcnt) (drop (suc i) bs)

-- What find_cached gives.
abbrev Cached : ℕ → ℕ → List Buf → Option (Buf × List Buf) → Type 0
Cached dev blockno bs none = copies dev blockno bs ≡ 0
Cached dev blockno bs (some (b, bs')) =
    (holds b dev blockno ≡ true)
    × (0 < b.refcnt)
    × ((jd jb : ℕ) → copies jd jb bs' ≡ copies jd jb bs)
    × OneMore dev blockno bs bs'
    × Hits dev blockno bs b bs'

find_cached-Cached :
    (dev blockno : ℕ) (bs : List Buf) → Cached dev blockno bs (find_cached dev blockno bs)
unfolding find_cached
find_cached-Cached dev blockno [] = refl
find_cached-Cached dev blockno (b ∷ bs) = elim (Bool-cases (holds b dev blockno)) [
  | inl here ↦
      simp here
        (refl, omega arith, λ jd jb. refl, λ jd jb. ground arith, (zero, b, refl, here, refl, refl))
  | inr away ↦ simp away (go away (find_cached dev blockno bs) (find_cached-Cached dev blockno bs))
]
  where
    go :
        holds b dev blockno ≡ false
        → (r : Option (Buf × List Buf)) → Cached dev blockno bs r
        → Cached dev blockno (b ∷ bs) (elim r [ none ↦ none | some (x, bs') ↦ some (x, b ∷ bs') ])
    go away none c = simp away c
    go away (some (x, bs')) c = (
      c.0,
      c.1,
      λ jd jb. ap (λ k. if holds b jd jb then k + 1 else k) (c.2 jd jb),
      λ jd jb. ground (arith, c.3 jd jb),
      later c.4,
    )
      where
        later : Hits dev blockno bs x bs' → Hits dev blockno (b ∷ bs) x (b ∷ bs')
        later (i, old, at, h, e, s) = (suc i, old, at, h, e, ap (◌∷◌ b) s)

-- What recycle gives: a claimed buffer that was not in use.
abbrev Recycled : ℕ → ℕ → List Buf → Option (Buf × List Buf) → Type 0
Recycled dev blockno bs none = All (λ b. 0 < b.refcnt) bs
Recycled dev blockno bs (some (b, bs')) =
    Reuses dev blockno bs b bs'
    × ((jd jb : ℕ) → copies jd jb bs' ≤ copies jd jb bs + one_for dev blockno jd jb)
    × OneMore dev blockno bs bs'

recycle-Recycled :
    (dev blockno : ℕ) (bs : List Buf) → Recycled dev blockno bs (recycle dev blockno bs)
unfolding recycle
recycle-Recycled dev blockno [] = tt
recycle-Recycled dev blockno (b ∷ bs) =
    go (recycle dev blockno bs) (recycle-Recycled dev blockno bs)
  where
    go :
        (r : Option (Buf × List Buf))
        → Recycled dev blockno bs r
        → Recycled dev blockno (b ∷ bs) (elim r [
          | some (x, bs') ↦ some (x, b ∷ bs')
          | none ↦
              if b.refcnt == 0 then some (claim dev blockno b, claim dev blockno b ∷ bs) else none
        ])
    go (some (x, bs')) ((i, old, at, free, e, s, used), c, m) = (
      (suc i, old, at, free, e, ap (◌∷◌ b) s, used),
      λ jd jb. ground (arith, c jd jb),
      λ jd jb. ground (arith, m jd jb),
    )
    go none c = elim (Bool-cases (b.refcnt == 0)) [
      | inr used ↦ simp used (ground arith, c)
      | inl free ↦ simp free (
        (zero, b, refl, ==→eq _ _ free, refl, refl, c),
        λ jd jb. ground arith,
        λ jd jb. ground (arith, free),
      )
    ]

-- bget
abbrev pub Gets : ℕ → ℕ → List Buf → Outcome (Buf × List Buf) → Type 0
Gets dev blockno bs panic = (copies dev blockno bs ≡ 0) × All (λ b. 0 < b.refcnt) bs
Gets dev blockno bs (ok (b, bs')) =
    (holds b dev blockno ≡ true)
    × (0 < b.refcnt)
    × IsCache bs'
    × OneMore dev blockno bs bs'
    × (Hits dev blockno bs b bs' ⊎ (copies dev blockno bs ≡ 0) × Reuses dev blockno bs b bs')

-- If each block of a device other than 0 is cached at most once, then bget either panics, and the
-- block is not cached and all buffers are in use, or gives a buffer that holds the block and is
-- referenced: the buffer of the cache that held it, with one reference more; or, if none held it,
-- the last buffer of the list without references, now for the block, with valid = 0 and one
-- reference. No other buffer changes, each block is still cached at most once, and the references
-- to the buffers of each block are as before, but for one more to the block asked for.
pub bget-Gets :
    (dev blockno : ℕ) (bs : List Buf) → IsCache bs → Gets dev blockno bs (bget dev blockno bs)
unfolding bget
bget-Gets dev blockno bs v =
    go (find_cached dev blockno bs) (find_cached-Cached dev blockno bs) (recycle dev blockno bs)
      (recycle-Recycled dev blockno bs)
  where
    go :
        (r : Option (Buf × List Buf))
        → Cached dev blockno bs r
        → (s : Option (Buf × List Buf)) → Recycled dev blockno bs s
        → Gets dev blockno bs
            (elim r [ some x ↦ ok x | none ↦ elim s [ some x ↦ ok x | none ↦ panic ] ])
    go (some (b, bs')) c s d =
        (c.0, c.1, λ jd jb. subst (λ k. k ≤ 1) (sym (c.2 (suc jd) jb)) (v jd jb), c.3, inl c.4)
    go none c none d = (c, d)
    go none c (some (b, bs')) ((i, old, at, free, e, s, used), d, m) = (
      ground (arith, e),
      ground (arith, e),
      λ jd jb. elim (Bool-cases (dev == suc jd && blockno == jb)) [
        | inl same ↦
            let x : dev ≡ suc jd = ground arith in
            let y : blockno ≡ jb = ground arith in
            let z : copies (suc jd) jb bs ≡ 0 = ap₂ (λ p q. copies p q bs) (sym x) (sym y) ∙ c in
            let u = d (suc jd) jb in let u' = simp same at u in omega arith
        | inr differ ↦ let u = d (suc jd) jb in let u' = simp differ at u in omega (arith, v jd jb)
      ],
      m,
      inr (c, (i, old, at, free, e, s, used)),
    )

copies-unlink :
    (self jd jb : ℕ) (bs : List Buf) (b : Buf) (bs' : List Buf)
    → unlink self bs ≡ some (b, bs')
    → copies jd jb bs ≡ copies jd jb (b ∷ bs')
unfolding unlink
copies-unlink self jd jb [] b bs' e = absurd (cc)
copies-unlink self jd jb (x ∷ bs) b bs' e = elim (Bool-cases (x.self == self)) [
  | inl here ↦
      let e' = simp here at e in
      let same : x ≡ b = cc in
      let rest : bs ≡ bs' = cc in ap₂ (λ y ys. copies jd jb (y ∷ ys)) same rest
  | inr away ↦ elim (Option-cases (unlink self bs)) [
    | inl n ↦ let e' = simp (away, n) at e in absurd (cc)
    | inr ((y, ys), n) ↦
        let e' = simp (away, n) at e in
        let same : y ≡ b = cc in
        let rest : x ∷ ys ≡ bs' = cc in
        let r = copies-unlink self jd jb bs y ys n in
        ap (λ k. if holds x jd jb then k + 1 else k) r
        ∙ ground arith
        ∙ ap₂ (λ z zs. copies jd jb (z ∷ zs)) same rest
  ]
]

copies-bunpin : (self jd jb : ℕ) (bs : List Buf) → copies jd jb (bunpin self bs) ≡ copies jd jb bs
unfolding bunpin
copies-bunpin self jd jb [] = refl
copies-bunpin self jd jb (b ∷ bs) = ground (arith, copies-bunpin self jd jb bs)

-- brelse leaves the number of buffers that hold a block, for each block, as it was.
pub brelse-copies :
    (self jd jb : ℕ) (bs : List Buf) → copies jd jb (brelse self bs) ≡ copies jd jb bs
unfolding brelse
brelse-copies self jd jb bs = elim (Option-cases (unlink self bs)) [
  | inl n ↦ rw (brelse, n) refl
  | inr ((b, others), n) ↦ elim (Bool-cases (b.refcnt == 1)) [
    | inl last ↦ simp (brelse, n, last) (sym (copies-unlink self jd jb bs b others n))
    | inr more ↦ simp (brelse, n, more) (copies-bunpin self jd jb bs)
  ]
]
