-- ===== src/PageTable/Alloc.antt =====
-- vm.c: uvmalloc() maps new pages, or leaves all as it was.
use cs3500_os.Base.{
  ℕ, zero, suc, bit_or, ◌+◌, ◌-◌, ◌*◌, ◌/◌, ◌%◌, ◌^◌, ◌≤◌, ◌<◌, ◌≡◌, refl, sym, ap, subst, ◌∙◌,
  true, false, ltb, ◌==◌, List, [], ◌∷◌, arith, inl, inr, Bool-cases, ne→==, ◌⊎◌, Outcome, ok,
  ge→ltb, ltb→lt, ltb→ge,
}
use cs3500_os.Kalloc.{Kmem, kalloc, pgsize, pg_round_up}
use cs3500_os.Kalloc.FreeList.{IsFree, kalloc_empty}
use cs3500_os.PageTable.{pte_v, maxva, uvmdealloc, alloc_loop, uvmalloc}
use cs3500_os.PageTable.Tree.{Tree, IsTree, view}
use cs3500_os.PageTable.Swap.{kalloc-same}
use cs3500_os.PageTable.Map.{inside, mappages-Mapped}
use cs3500_os.PageTable.Fresh.{Fresh, taken, taken-IsTree, taken-view, x-IsFree}
use cs3500_os.PageTable.Extend.{Fresh-next}
use cs3500_os.PageTable.Rollback.{Restores, uvmdealloc-Clears, Fresh-Restores}
use cs3500_os.PageTable.Failing.{Keeps-Fresh, kfree-Keeps}
use cs3500_os.PageTable.Bits.{user_perm_below}
use cs3500_os.PageTable.Runs.{runs_stop, runs_empty, runs_more, runs_full}

-- The pages that uvmalloc() adds, from the page-aligned o on
abbrev pub new_pages : ℕ → ℕ → ℕ
new_pages o newsz = (newsz + 4095 - o) / 4096

module _ (kernel_end : ℕ) where
  -- What uvmalloc() does: n new pages from o on, or nothing.
  abbrev pub Allocated : Tree kernel_end → ℕ → ℕ → ℕ → ℕ → Outcome (ℕ × Kmem) → Type 0
  Allocated t o n newsz perm out =
      ((u : Tree kernel_end) × (out ≡ ok (newsz, u.kmem)) × Fresh kernel_end t u o n perm)
      ⊎ ((u : Tree kernel_end) × (out ≡ ok (0, u.kmem)) × Restores kernel_end t u)

  module _ (t : Tree kernel_end) (o n newsz xperm : ℕ) (pos : 0 < kernel_end) (al : o % 4096 ≡ 0)
      (hi : o + n * 4096 ≤ maxva) (whole : newsz ≤ o + n * 4096)
      (tight : o + n * 4096 < newsz + 4096) (small : bit_or 18 xperm < 1024)
      (empty : (w : ℕ) → w < maxva → inside o n w ≡ true → view t.kmem.mem t.root w ≡ 0) where
    -- Memory has run out after m pages.
    fails :
        (u : Tree kernel_end) (m : ℕ)
        → m ≤ n
        → Fresh kernel_end t u o m (bit_or 18 xperm)
        → (z : Tree kernel_end) × (uvmdealloc kernel_end u.root (o + m * 4096) o u.kmem
            ≡ ok (o, z.kmem))
          × Restores kernel_end t z
    fails u m le f =
        let (z, e, c) = uvmdealloc-Clears kernel_end u o m f.valid pos al (omega arith) f.owned in
        (
          z,
          e,
          Fresh-Restores kernel_end t u z o m (bit_or 18 xperm) f al (omega arith)
              (λ w lt y. let all : inside o n w ≡ true = ground (arith, y, le) in empty w lt all) c,
        )

    -- What a round does that has found the page x.
    abbrev Turn : ℕ → ℕ → Tree kernel_end → Type 0
    Turn fuel m u =
        ((z : Tree kernel_end) × Fresh kernel_end t z o (suc m) (bit_or 18 xperm)
          × (alloc_loop kernel_end (suc fuel) u.root (o + m * 4096) o newsz xperm u.kmem
              ≡ alloc_loop kernel_end fuel z.root (o + suc m * 4096) o newsz xperm z.kmem))
        ⊎ ((z : Tree kernel_end) × (alloc_loop kernel_end (suc fuel) u.root (o + m * 4096) o newsz
                xperm u.kmem
              ≡ ok (0, z.kmem))
            × Restores kernel_end t z)

    turn :
        (fuel m : ℕ) (u : Tree kernel_end) (x : ℕ) (xs : List ℕ)
        → m < n
        → ltb (o + m * 4096) newsz ≡ true
        → Fresh kernel_end t u o m (bit_or 18 xperm)
        → u.pages ≡ x ∷ xs
        → Turn fuel m u
    turn fuel m u x xs lt more f popped =
        let page = (x-IsFree kernel_end u f.valid x xs pos popped).pages.0 in
        let got : kalloc u.kmem ≡ (x, (kalloc u.kmem).1) =
          ap (λ y. (y, (kalloc u.kmem).1)) (kalloc-same kernel_end u f.valid x xs pos popped).0 in
        let some_page : (x == 0) ≡ false = ne→== x 0 (omega (arith, page.above, pos)) in
        let none_mapped : (w : ℕ)
            → w < maxva
            → inside (o + m * 4096) 1 w ≡ true
            → pte_v (view (taken kernel_end u f.valid x xs pos popped).kmem.mem u.root w) ≡ false =
          (λ w small_w here.
            let out : inside o m w ≡ false = ground (arith, here) in
            let all : inside o n w ≡ true = ground (arith, here, lt) in
            ap pte_v (
              taken-view kernel_end u f.valid x xs pos popped w small_w
              ∙ (f.outside w small_w out ∙ empty w small_w all))) in
        elim (mappages-Mapped kernel_end (taken kernel_end u f.valid x xs pos popped) (o + m * 4096)
          1 x (bit_or 18 xperm) (taken-IsTree kernel_end u f.valid x xs pos popped) pos
          (omega (arith, al)) (omega arith) (omega arith) (omega (arith, page.below)) none_mapped) [
            | inl (z, e, g) ↦
                let step : (o + m * 4096 + pgsize) % 2 ^ 64 ≡ o + suc m * 4096 = omega arith in
                inl (
                  z,
                  Fresh-next kernel_end t u z o m (bit_or 18 xperm) f x xs pos popped al
                      (omega arith) small g,
                  runs_more kernel_end fuel u.root (o + m * 4096) o newsz xperm u.kmem
                        (kalloc u.kmem).1 z.kmem x more got some_page e
                      ∙ (ap (λ a. alloc_loop kernel_end fuel u.root a o newsz xperm z.kmem) step
                          ∙ ap
                              (λ r.
                                alloc_loop kernel_end fuel r (o + suc m * 4096) o newsz xperm
                                  z.kmem)
                              (sym g.grows.same_root)),
                )
            | inr (z, zero, less, e, out, g) ↦
                let (y, run, k) =
                  kfree-Keeps kernel_end u z f.valid x xs pos popped (o + m * 4096)
                    (bit_or 18 xperm) g in
                let (back, d, r) =
                  fails y m (omega arith)
                    (Keeps-Fresh kernel_end t u y o m (bit_or 18 xperm) f k) in
                inr (
                  back,
                  runs_full kernel_end fuel u.root (o + m * 4096) o newsz xperm u.kmem
                      (kalloc u.kmem).1 z.kmem x more got some_page y.kmem back.kmem o e run
                      (ap (λ q. uvmdealloc kernel_end q (o + m * 4096) o y.kmem) (sym k.same_root)
                        ∙ d),
                  r,
                )
            | inr (z, suc j, less, e, out, g) ↦ absurd (omega arith)
          ]

    rounds :
        (fuel m : ℕ) (u : Tree kernel_end) (ys : List ℕ)
        → u.pages ≡ ys
        → m < n
        → ltb (o + m * 4096) newsz ≡ true
        → Fresh kernel_end t u o m (bit_or 18 xperm)
        → ((z : Tree kernel_end)
            → Fresh kernel_end t z o (suc m) (bit_or 18 xperm)
            → Allocated t o n newsz
                (bit_or 18 xperm)
                (alloc_loop kernel_end fuel z.root (o + suc m * 4096) o newsz xperm z.kmem))
        → Allocated t o n newsz
            (bit_or 18 xperm)
            (alloc_loop kernel_end (suc fuel) u.root (o + m * 4096) o newsz xperm u.kmem)
    rounds fuel m u [] e lt more f later =
        let dry =
          kalloc_empty kernel_end u.kmem (subst (IsFree kernel_end u.kmem) e f.valid.free) in
        let (z, d, r) = fails u m (omega arith) f in
        inr (
          z,
          runs_empty kernel_end fuel u.root (o + m * 4096) o newsz xperm u.kmem u.kmem z.kmem o more
              dry d,
          r,
        )
    rounds fuel m u (x ∷ xs) e lt more f later = elim (turn fuel m u x xs lt more f e) [
      | inl (z, g, run) ↦ subst (Allocated t o n newsz (bit_or 18 xperm)) (sym run) (later z g)
      | inr (z, run, r) ↦ inr (z, run, r)
    ]

    stops :
        (fuel m : ℕ) (u : Tree kernel_end)
        → m ≤ n
        → ltb (o + m * 4096) newsz ≡ false
        → Fresh kernel_end t u o m (bit_or 18 xperm)
        → Allocated t o n newsz
            (bit_or 18 xperm)
            (alloc_loop kernel_end fuel u.root (o + m * 4096) o newsz xperm u.kmem)
    stops fuel m u le stop f =
        let past = ltb→ge (o + m * 4096) newsz stop in
        let same : m ≡ n = omega (arith, past) in
        inl (
          u,
          runs_stop kernel_end fuel u.root (o + m * 4096) o newsz xperm u.kmem stop,
          subst (λ q. Fresh kernel_end t u o q (bit_or 18 xperm)) same f,
        )

    alloc_loop-Allocated :
        (fuel m : ℕ) (u : Tree kernel_end)
        → m ≤ n
        → n ≤ fuel + m
        → Fresh kernel_end t u o m (bit_or 18 xperm)
        → Allocated t o n newsz
            (bit_or 18 xperm)
            (alloc_loop kernel_end fuel u.root (o + m * 4096) o newsz xperm u.kmem)
    alloc_loop-Allocated zero m u le enough f = elim (Bool-cases (ltb (o + m * 4096) newsz)) [
      | inr stop ↦ stops zero m u le stop f
      | inl more ↦ absurd (omega (arith, ltb→lt (o + m * 4096) newsz more))
    ]
    alloc_loop-Allocated (suc fuel) m u le enough f = elim (Bool-cases (ltb (o + m * 4096) newsz)) [
      | inr stop ↦ stops (suc fuel) m u le stop f
      | inl more ↦
          let lt : m < n = omega (arith, ltb→lt (o + m * 4096) newsz more) in
          rounds fuel m u u.pages refl lt more f
            (λ z g. alloc_loop-Allocated fuel (suc m) z (omega arith) (omega arith) g)
    ]

  Fresh-refl :
      (t : Tree kernel_end) (o perm : ℕ) → IsTree kernel_end t → Fresh kernel_end t t o 0 perm
  Fresh-refl t o perm v = record {
    valid = v;
    same_root = refl;
    owned = record {
      spare = λ w lt y _. absurd (ground (arith, y));
      once = λ w x lw lx yw yx _ _ _. absurd (ground (arith, yw));
    };
    mapped = λ w lt y. absurd (ground (arith, y));
    zeroed = λ w i lt y _. absurd (ground (arith, y));
    outside = λ w lt y. refl;
    conserved = λ p h. inl h;
    old = λ p lv ab. (lv, ab, (λ a home. refl), λ w lt y. absurd (ground (arith, y)));
  }

  -- On a tree of page tables, with a positive kernel end, oldsz <= newsz <= MAXVA - 4096, xperm
  -- below 2^10, and no PTE in the pages from PGROUNDUP(oldsz) up to newsz: uvmalloc returns
  -- without a panic. Either it returns newsz, and the tree is kept, each of those pages has a PTE
  -- of its own page, which was free and holds zero bytes, with the bits R, U and xperm, and the
  -- hardware reads what it read before for all other addresses; or it returns 0, the hardware
  -- reads what it read before for all addresses, and each page that was free is free again or a
  -- table. In both cases the pages that were neither free nor tables are unchanged, and no free
  -- page is lost.
  pub uvmalloc-Allocated :
      (t : Tree kernel_end) (oldsz newsz xperm : ℕ)
      → IsTree kernel_end t
      → 0 < kernel_end
      → oldsz ≤ newsz
      → newsz + 4096 ≤ maxva
      → xperm < 1024
      → ((w : ℕ)
          → w < maxva
          → inside (pg_round_up oldsz) (new_pages (pg_round_up oldsz) newsz) w ≡ true
          → view t.kmem.mem t.root w ≡ 0)
      → Allocated t
          (pg_round_up oldsz)
          (new_pages (pg_round_up oldsz) newsz)
          newsz
          (bit_or 18 xperm)
          (uvmalloc kernel_end t.root oldsz newsz xperm t.kmem)
  unfolding uvmalloc
  uvmalloc-Allocated t oldsz newsz xperm v pos le hi small empty =
      let start : pg_round_up oldsz + 0 * 4096 ≡ pg_round_up oldsz = omega arith in
      rw (ge→ltb newsz oldsz le) (
        subst
          (λ a.
            Allocated t (pg_round_up oldsz) (new_pages (pg_round_up oldsz) newsz) newsz
              (bit_or 18 xperm)
              (alloc_loop kernel_end (newsz / pgsize + 1) t.root a (pg_round_up oldsz) newsz xperm
                t.kmem))
          start
          (alloc_loop-Allocated t (pg_round_up oldsz) (new_pages (pg_round_up oldsz) newsz) newsz
            xperm pos (omega arith) (omega arith) (omega arith) (omega arith)
            (user_perm_below xperm small) empty (newsz / pgsize + 1) 0 t (omega arith) (omega arith)
            (Fresh-refl t (pg_round_up oldsz) (bit_or 18 xperm) v)))
