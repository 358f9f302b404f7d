-- ===== src/Virtio/Chains.antt =====
-- virtio_disk.c: a request takes three free descriptors or none, and gives them back.
use cs3500_os.Base.{
  ℕ, zero, suc, ◌+◌, ◌≤◌, ◌<◌, ◌≡◌, ◌≢◌, refl, sym, ap, subst, ◌∙◌, ◌⊎◌, inl, inr, Bool, true,
  false, Option, none, some, ◌==◌, if◌then◌else◌, update, arith, Outcome, ok, panic, ◌>>=◌, ◌>>◌,
  Bool-cases, eq→==, ne→==, ==→eq, ==→ne, gt→leb, ltb, ltb→lt, ltb→ge,
}
use cs3500_os.Virtio.{
  Disk, Idx, alloc_from, alloc_desc, clear_desc, free_desc, third_desc, second_desc, first_desc,
  alloc3_desc,
}

-- What the search for a free descriptor finds among n from i on.
abbrev Finds : Disk → ℕ → ℕ → Option ℕ × Disk → Type 0
Finds d n i (none, d') = (d' ≡ d) × ((k : ℕ) → i ≤ k → k < i + n → d.free k ≡ false)
Finds d n i (some j, d') =
    (j < i + n)
    × (d.free j ≡ true)
    × (d' ≡ record d { free = update d.free j false })
    × ((k : ℕ) → i ≤ k → k < j → d.free k ≡ false)

alloc_from-Finds : (n i : ℕ) (d : Disk) → Finds d n i (alloc_from n i d)
unfolding alloc_from
alloc_from-Finds zero i d = (refl, λ k lo hi. absurd (omega arith))
alloc_from-Finds (suc n) i d = elim (Bool-cases (d.free i)) [
  | inl y ↦ rw y (omega arith, y, refl, λ k lo hi. absurd (omega arith))
  | inr no_free ↦ rw no_free (widen (alloc_from n (i + 1) d) no_free (alloc_from-Finds n (i + 1) d))
]
  where
    or_here : (k : ℕ) → i ≤ k → d.free i ≡ false → (i + 1 ≤ k → d.free k ≡ false) → d.free k ≡ false
    or_here k lo here later = elim (Bool-cases (i == k)) [
      | inl same ↦ ap d.free (sym (==→eq i k same)) ∙ here
      | inr differ ↦ later (ground (arith, differ, lo))
    ]

    widen : (r : Option ℕ × Disk) → d.free i ≡ false → Finds d n (i + 1) r → Finds d (suc n) i r
    widen (none, d') here (e, h) = (e, λ k lo hi. or_here k lo here (λ up. h k up (omega arith)))
    widen (some j, d') here (lt, f, e, h) =
        (omega arith, f, e, λ k lo hi. or_here k lo here (λ up. h k up hi))

alloc_desc-Finds : (d : Disk) → Finds d 8 0 (alloc_desc d)
unfolding alloc_desc
alloc_desc-Finds d = alloc_from-Finds 8 0 d

pub free_desc-clear :
    (d : Disk) (i : ℕ) → i < 8 → d.free i ≡ false → free_desc i d ≡ ok (clear_desc d i)
unfolding free_desc
free_desc-clear d i lt used = rw (gt→leb 8 i lt, used, ◌>>◌) refl

-- What alloc3_desc does: it takes three free descriptors, in their order, and changes nothing else; or
-- no three are free, and the same are free as before.
abbrev pub Takes : Disk → Outcome (Option Idx × Disk) → Type 0
Takes d panic = ⊥
Takes d (ok (some x, d')) =
    (x.first < x.second)
    × (x.second < x.third)
    × (x.third < 8)
    × (d.free x.first ≡ true)
    × (d.free x.second ≡ true)
    × (d.free x.third ≡ true)
    × (d' ≡ record d {
      free = update (update (update d.free x.first false) x.second false) x.third false;
    })
Takes d (ok (none, d')) =
    ((i j k : ℕ) → i < j → j < k → k < 8 → d.free i ≡ true → d.free j ≡ true → d.free k ≡ true → ⊥)
    × ((i : ℕ) → d'.free i ≡ d.free i)

-- Taking a descriptor and giving it back
put_back : (f : ℕ → Bool) (i k : ℕ) → f i ≡ true → update (update f i false) i true k ≡ f k
put_back f i k h = elim (Bool-cases (i == k)) [
  | inl y ↦ rw y (sym (ap f (sym (==→eq i k y)) ∙ h))
  | inr n ↦ rw n refl
]

abbrev take_one : Disk → ℕ → Disk
take_one d i = record d { free = update d.free i false }

-- A free descriptor that is not free any more is one of those taken.
was_taken : (f : ℕ → Bool) (i k : ℕ) → f k ≡ true → update f i false k ≡ false → i ≡ k
was_taken f i k h g = elim (Bool-cases (i == k)) [
  | inl y ↦ ==→eq i k y
  | inr n ↦ absurd (ground (arith, h, g, n))
]

still_free : (f : ℕ → Bool) (i k : ℕ) → update f i false k ≡ true → (i ≢ k) × (f k ≡ true)
still_free f i k h = elim (Bool-cases (i == k)) [
  | inl y ↦ absurd (ground (arith, h, y))
  | inr n ↦ (==→ne i k n, subst (λ b. (if b then false else f k) ≡ true) n h)
]

module _ (d : Disk) (i j : ℕ) (order : i < j) (jlt : j < 8) (fi : d.free i ≡ true)
    (fj : d.free j ≡ true) where
  abbrev two_taken : Disk
  two_taken = take_one (take_one d i) j

  two_back : (k : ℕ) → (clear_desc (clear_desc two_taken i) j).free k ≡ d.free k
  two_back k = elim (Bool-cases (j == k)) [
    | inl y ↦ rw y (sym (ap d.free (sym (==→eq j k y)) ∙ fj))
    | inr n ↦ elim (Bool-cases (i == k)) [
      | inl y ↦ rw (n, y) (sym (ap d.free (sym (==→eq i k y)) ∙ fi))
      | inr m ↦ rw (n, m) refl
    ]
  ]

  third_desc-Takes :
      ((k : ℕ) → k < j → (take_one d i).free k ≡ false)
      → (r : Option ℕ × Disk) → Finds two_taken 8 0 r
      → Takes d (third_desc i j r)
  unfolding third_desc
  third_desc-Takes below (none, d') (e, h) =
      let used_i : two_taken.free i ≡ false =
        rw (ne→== j i (λ q. absurd (omega (arith, q))), eq→== i i refl) refl in
      let used_j : (clear_desc two_taken i).free j ≡ false =
        rw (ne→== i j (λ q. absurd (omega (arith, q))), eq→== j j refl) refl in
      subst (λ x. Takes d (third_desc i j (none, x))) (sym e)
        (rw
          (
            free_desc-clear two_taken i (omega arith) used_i,
            ◌>>=◌,
            free_desc-clear (clear_desc two_taken i) j jlt used_j,
            ◌>>=◌,
          )
          (
            (λ a b c ab bc lt fa fb fc.
                let ha = among a (omega arith) fa in
                let hb = among b (omega arith) fb in
                let hc = among c lt fc in ground (arith, ha, hb, hc, ab, bc)),
            two_back,
          ))
    where
      among : (a : ℕ) → a < 8 → d.free a ≡ true → (i ≡ a) ⊎ (j ≡ a)
      among a lt fa = elim (Bool-cases (i == a)) [
        | inl y ↦ inl (==→eq i a y)
        | inr n ↦
            let free_one : (take_one d i).free a ≡ true = rw n fa in
            inr (was_taken (take_one d i).free j a free_one (h a (omega arith) lt))
      ]
  third_desc-Takes below (some k, d') (lt, f, e, h) =
      let (jk, f1) = still_free (take_one d i).free j k f in
      let (ik, f0) = still_free d.free i k f1 in
      let behind : j < k = elim (Bool-cases (ltb k j)) [
        | inl y ↦ absurd (ground (arith, below k (ltb→lt k j y), f1))
        | inr n ↦ omega (arith, jk, ltb→ge k j n)
      ] in
      (order, behind, lt, fi, fj, f0, e)

module _ (d : Disk) (i : ℕ) (ilt : i < 8) (fi : d.free i ≡ true) where
  second_desc-Takes :
      ((k : ℕ) → k < i → d.free k ≡ false)
      → (r : Option ℕ × Disk) → Finds (take_one d i) 8 0 r
      → Takes d (second_desc i r)
  unfolding second_desc
  second_desc-Takes below (none, d') (e, h) =
      let used_i : (take_one d i).free i ≡ false = rw (eq→== i i refl) refl in
      subst (λ x. Takes d (second_desc i (none, x))) (sym e)
        (rw (free_desc-clear (take_one d i) i ilt used_i, ◌>>=◌)
          (
            (λ a b c ab bc lt fa fb fc.
                let ha = was_taken d.free i a fa (h a (omega arith) (omega arith)) in
                let hb = was_taken d.free i b fb (h b (omega arith) (omega arith)) in
                omega (arith, ha, hb)),
            λ k. put_back d.free i k fi,
          ))
  second_desc-Takes below (some j, d') (lt, f, e, h) =
      let (ij, fj) = still_free d.free i j f in
      let behind : i < j = elim (Bool-cases (ltb j i)) [
        | inl y ↦ absurd (ground (arith, below j (ltb→lt j i y), fj))
        | inr n ↦ omega (arith, ij, ltb→ge j i n)
      ] in
      subst (λ x. Takes d (third_desc i j (alloc_desc x))) (sym e)
        (third_desc-Takes d i j behind lt fi fj (λ k up. h k (omega arith) up)
          (alloc_desc (take_one (take_one d i) j)) (alloc_desc-Finds (take_one (take_one d i) j)))

-- alloc3_desc never panics: it either takes three free descriptors, in increasing order, and
-- changes nothing else; or no three are free, and then the same are free as before.
pub alloc3_desc-Takes : (d : Disk) → Takes d (alloc3_desc d)
unfolding alloc3_desc first_desc
alloc3_desc-Takes d = go (alloc_desc d) (alloc_desc-Finds d)
  where
    go : (r : Option ℕ × Disk) → Finds d 8 0 r → Takes d (first_desc r)
    go (none, d') (e, h) = (
      (λ a b c ab bc lt fa fb fc. absurd (ground (arith, h a (omega arith) (omega arith), fa))),
      λ k. ap (λ x. x.free k) e,
    )
    go (some i, d') (lt, f, e, h) =
        subst (λ x. Takes d (second_desc i (alloc_desc x))) (sym e)
          (second_desc-Takes d i lt f (λ k up. h k (omega arith) up) (alloc_desc (take_one d i))
            (alloc_desc-Finds (take_one d i)))
