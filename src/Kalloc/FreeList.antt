-- ===== src/Kalloc/FreeList.antt =====
-- kalloc.c: the free list in memory as a list of pages.
use cs3500_os.Base.{
  ℕ, zero, suc, ◌+◌, ◌-◌, ◌*◌, ◌/◌, ◌%◌, ◌≤◌, ◌<◌, ◌≡◌, ◌≢◌, refl, sym, List, [], ◌∷◌, inl, inr,
  arith, subst, ◌∙◌, ltb, leb, ◌==◌, All, Absent, Distinct, update, ok, panic, ◌↔◌, true, false,
  Bool-cases, leb→le, leb→gt, ne→==, eq→==,
}
use cs3500_os.Kalloc.{
  pgsize, phystop, pg_round_up, Kmem, memset_page, kfree, kalloc, free_pages, freerange, kinit,
}

-- Following `next` from h visits exactly the pages of the list, and ends with null.
abbrev pub Chain : (ℕ → ℕ) → ℕ → List ℕ → Type 0
Chain mem h [] = h ≡ 0
Chain mem h (x ∷ xs) = (h ≡ x) × Chain mem (mem x) xs

-- The pages from p up, the highest first.
abbrev pub descending : ℕ → ℕ → List ℕ
descending p zero = []
descending p (suc n) = (p + n * 4096) ∷ descending p n

module _ (kernel_end : ℕ) where
  -- What kfree accepts.
  pub record IsPage (pa : ℕ) : Type 0 where
    pub aligned : pa % 4096 ≡ 0
    pub above : kernel_end ≤ pa
    pub below : pa < phystop

  pub record IsFree (k : Kmem) (xs : List ℕ) : Type 0 where
    pub chain : Chain k.mem k.freelist xs
    pub pages : All IsPage xs
    pub distinct : Distinct xs

  pub memset_page_other :
      (mem : ℕ → ℕ) (pa w x : ℕ)
      → pa % 4096 ≡ 0
      → IsPage x
      → x ≢ pa
      → memset_page mem pa w x ≡ mem x
  memset_page_other mem pa w x a p ne = ground (arith, p.aligned)

  -- Overwriting a page, and its first word once more, leaves a chain through other pages alone.
  pub Chain-memset_page :
      (mem : ℕ → ℕ) (h pa w : ℕ) (xs : List ℕ)
      → pa % 4096 ≡ 0
      → All IsPage xs
      → Absent pa xs
      → Chain mem h xs
      → Chain (memset_page mem pa w) h xs
  Chain-memset_page mem h pa w [] a ps d c = c
  Chain-memset_page mem h pa w (x ∷ xs) a ps d c = (
    c.0,
    rw (memset_page_other mem pa w x a ps.0 d.0)
        (Chain-memset_page mem (mem x) pa w xs a ps.1 d.1 c.1),
  )

  pub Chain-update :
      (mem : ℕ → ℕ) (h pa v : ℕ) (xs : List ℕ)
      → Absent pa xs
      → Chain mem h xs
      → Chain (update mem pa v) h xs
  Chain-update mem h pa v [] d c = c
  Chain-update mem h pa v (x ∷ xs) d c =
      (c.0, rw (ne→== pa x (λ e. d.0 (sym e))) (Chain-update mem (mem x) pa v xs d.1 c.1))

  -- kfree panics exactly if the address is not page-aligned, below the end of the kernel, or at or
  -- above PHYSTOP.
  pub kfree-panic : (k : Kmem) (pa : ℕ) → (kfree kernel_end k pa ≡ panic) ↔ ¬ IsPage pa
  unfolding kfree
  kfree-panic k pa = (λ e p. ground (arith, p.aligned, p.above, p.below), λ np. go np)
    where
      go : ¬ IsPage pa → kfree kernel_end k pa ≡ panic
      go np = elim (Bool-cases (pa % 4096 == 0)) [
        | inr e ↦ ground arith
        | inl e ↦ elim (Bool-cases (ltb pa kernel_end)) [
          | inl f ↦ ground arith
          | inr f ↦ elim (Bool-cases (leb phystop pa)) [
            | inl g ↦ ground arith
            | inr g ↦
                absurd (
                  np
                    (record { aligned = ground arith; above = ground arith; below = ground arith }))
          ]
        ]
      ]

  pub kfree_runs :
      (k : Kmem) (pa : ℕ)
      → IsPage pa
      → kfree kernel_end k pa
        ≡ ok (record {
          mem = update (memset_page k.mem pa 0x0101010101010101) pa k.freelist;
          freelist = pa;
        })
  unfolding kfree
  kfree_runs k pa p = ground (arith, p.aligned, p.above, p.below)

  -- Freeing a page that kfree accepts and that is not in the free list returns with that page in
  -- front of the list and the rest of the list unchanged, although the page is overwritten.
  pub kfree-IsFree :
      (k : Kmem) (xs : List ℕ) (pa : ℕ)
      → IsFree k xs
      → IsPage pa
      → Absent pa xs
      → (k' : Kmem) × (kfree kernel_end k pa ≡ ok k') × IsFree k' (pa ∷ xs)
  kfree-IsFree k xs pa v p d = (
    record { mem = update (memset_page k.mem pa 0x0101010101010101) pa k.freelist; freelist = pa },
    kfree_runs k pa p,
    record {
      chain = (
        refl,
        rw (eq→== pa pa refl)
            (Chain-update _ _ _ _ xs d (Chain-memset_page _ _ _ _ xs p.aligned v.pages d v.chain)),
      );
      pages = (p, v.pages);
      distinct = (d, v.distinct);
    },
  )

  kalloc_pop :
      (k : Kmem) (x : ℕ)
      → 0 < kernel_end
      → IsPage x
      → k.freelist ≡ x
      → kalloc k ≡ (x, record { mem = memset_page k.mem x 0x0505050505050505; freelist = k.mem x })
  unfolding kalloc
  kalloc_pop k x pos p e = rw (e, ne→== x 0 (omega (arith, p.above)))

  -- With a positive kernel end, kalloc on a nonempty free list returns its first page, leaves the
  -- rest as the free list, and changes memory only by filling that page with the byte 5.
  pub kalloc-IsFree :
      (k : Kmem) (x : ℕ) (xs : List ℕ)
      → 0 < kernel_end
      → IsFree k (x ∷ xs)
      → ((kalloc k).0 ≡ x)
        × IsFree (kalloc k).1 xs
        × ((a : ℕ) → (kalloc k).1.mem a ≡ memset_page k.mem x 0x0505050505050505 a)
  unfolding kalloc
  kalloc-IsFree k x xs pos v = rw (kalloc_pop k x pos v.pages.0 v.chain.0) (
    refl,
    record {
      chain =
          Chain-memset_page k.mem (k.mem x) x _ xs v.pages.0.aligned v.pages.1 v.distinct.0
            v.chain.1;
      pages = v.pages.1;
      distinct = v.distinct.1;
    },
    λ a. refl,
  )

  -- With no free page kalloc returns null and changes nothing.
  pub kalloc_empty : (k : Kmem) → IsFree k [] → kalloc k ≡ (0, k)
  unfolding kalloc
  kalloc_empty k v = rw (eq→== k.freelist 0 v.chain)

  descending-Absent : (p q n : ℕ) → p + n * 4096 ≤ q → Absent q (descending p n)
  descending-Absent p q zero h = tt
  descending-Absent p q (suc n) h = (omega arith, descending-Absent p q n (omega arith))

  free_pages_more :
      (fuel p pa_end : ℕ) (k k' : Kmem)
      → leb (p + pgsize) pa_end ≡ true
      → kfree kernel_end k p ≡ ok k'
      → free_pages kernel_end (suc fuel) p pa_end k
        ≡ free_pages kernel_end fuel (p + pgsize) pa_end k'
  unfolding free_pages
  free_pages_more fuel p pa_end k k' more e = ground arith

  free_pages_stop :
      (fuel p pa_end : ℕ) (k : Kmem)
      → leb (p + pgsize) pa_end ≡ false
      → free_pages kernel_end (suc fuel) p pa_end k ≡ ok k
  unfolding free_pages
  free_pages_stop fuel p pa_end k stop = rw (stop, free_pages)

  free_pages-IsFree :
      (fuel p base m n pa_end : ℕ) (k : Kmem)
      → p ≡ base + m * 4096
      → n ≡ (pa_end - base) / 4096
      → kernel_end ≤ base
      → pa_end ≤ phystop
      → base % 4096 ≡ 0
      → p ≤ pa_end
      → (pa_end - p) / 4096 < fuel
      → IsFree k (descending base m)
      → (k' : Kmem) × (free_pages kernel_end fuel p pa_end k ≡ ok k')
        × IsFree k' (descending base n)
  free_pages-IsFree zero p base m n pa_end k pe ne lo hi al le f v = absurd (omega arith)
  free_pages-IsFree (suc fuel) p base m n pa_end k pe ne lo hi al le f v =
      elim (Bool-cases (leb (p + pgsize) pa_end)) [
        | inl more ↦
            let room : p + 4096 ≤ pa_end = leb→le (p + pgsize) pa_end more in
            let (k', e, v') =
              kfree-IsFree k (descending base m) p v
                (record { aligned = omega arith; above = omega arith; below = omega arith })
                (descending-Absent base p m (omega arith)) in
            let (k'', e', v'') =
              free_pages-IsFree fuel (p + pgsize) base (suc m) n pa_end k' (omega arith) ne lo hi al
                room (omega arith) (subst (λ q. IsFree k' (q ∷ descending base m)) pe v') in
            (k'', free_pages_more fuel p pa_end k k' more e ∙ e', v'')
        | inr stop ↦
            let full : pa_end < p + 4096 = leb→gt (p + pgsize) pa_end stop in
            let last : m ≡ n = omega arith in
            (
              k,
              free_pages_stop fuel p pa_end k stop,
              subst (λ q. IsFree k (descending base q)) last v,
            )
      ]

  -- freerange on an empty list frees every whole page between its bounds, once each, and nothing
  -- else.
  pub freerange-IsFree :
      (k : Kmem) (pa_start pa_end : ℕ)
      → kernel_end ≤ pa_start
      → pa_start ≤ pa_end
      → pa_end ≤ phystop
      → pg_round_up pa_start ≤ pa_end
      → IsFree k []
      → (k' : Kmem) × (freerange kernel_end pa_start pa_end k ≡ ok k')
        × IsFree k' (descending (pg_round_up pa_start) ((pa_end - pg_round_up pa_start) / 4096))
  unfolding freerange
  freerange-IsFree k pa_start pa_end lo le hi round v =
      free_pages-IsFree (pa_end / pgsize + 1) (pg_round_up pa_start) (pg_round_up pa_start) 0 _
        pa_end k (omega arith) refl (omega arith) hi (omega arith) round (omega arith) v

  -- For a kernel that ends at or below PHYSTOP, kinit returns with a free list in memory whose
  -- pages are distinct and are those from PGROUNDUP(end) up to PHYSTOP.
  pub kinit-IsFree :
      (mem : ℕ → ℕ)
      → kernel_end ≤ phystop
      → (k' : Kmem) × (kinit kernel_end mem ≡ ok k')
        × IsFree k'
            (descending (pg_round_up kernel_end) ((phystop - pg_round_up kernel_end) / 4096))
  unfolding kinit
  kinit-IsFree mem le =
      freerange-IsFree _ kernel_end phystop (omega arith) le (omega arith) (omega arith)
        (record { chain = refl; pages = tt; distinct = tt })
