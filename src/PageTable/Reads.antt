-- ===== src/PageTable/Reads.antt =====
-- vm.c: uvmcreate() makes an empty page table, walkaddr() reads one, and uvmclear() clears PTE_U.
use cs3500_os.Base.{
  ℕ, ◌+◌, ◌*◌, ◌/◌, ◌≤◌, ◌<◌, ◌≡◌, refl, sym, ap, subst, ◌∙◌, true, false, not, leb, ◌==◌,
  if◌then◌else◌, List, [], ◌∷◌, All, Absent, update, arith, inl, inr, Bool-cases, ne→==, eq→==,
  ==→eq, ◌&&◌, ◌⊎◌, ok, gt→leb,
}
use cs3500_os.Kalloc.{Kmem, kalloc, memset_page}
use cs3500_os.Kalloc.FreeList.{IsFree, IsPage, kalloc-IsFree, kalloc_empty, Chain-memset_page}
use cs3500_os.PageTable.{
  pte_v, pte_u, pte2pa, slot, walk_from, walk, walkaddr, maxva, uvmcreate, uvmclear, without_u,
}
use cs3500_os.PageTable.Tree.{Tree, IsTree, view, view_page}
use cs3500_os.PageTable.Extends.{view_empty, memset_page_in}
use cs3500_os.PageTable.Walk.{walk_from-Leads, walk_from-view}
use cs3500_os.PageTable.Write.{stored, stored-IsTree}
use cs3500_os.PageTable.Put.{Leads-view, stored-view, Grows, stored-Grows}

-- The page that a user may reach at va, or 0.
abbrev pub user_page : (ℕ → ℕ) → ℕ → ℕ → ℕ
user_page mem root va =
    if leb maxva va
    then 0
    else if pte_v (view mem root va) && pte_u (view mem root va)
    then pte2pa (view mem root va)
    else 0

abbrev root_levels : ℕ → ℕ → ℕ
root_levels x = update (λ q. 3) x 2

-- What walkaddr() does with the answer of walk(), where pte is *p.
abbrev answer : ℕ → ℕ → ℕ
answer p pte =
    if p == 0 then 0 else if not (pte_v pte) then 0 else if not (pte_u pte) then 0 else pte2pa pte

abbrev asked : ℕ → ℕ
asked seen = if pte_v seen && pte_u seen then pte2pa seen else 0

found :
    (p pte seen : ℕ) → (p == 0) ≡ false → seen ≡ pte → pte_v seen ≡ true → answer p pte ≡ asked seen
found p pte seen there e valid =
    subst (λ q. answer p q ≡ asked seen) e
      (elim (Bool-cases (pte_u seen)) [
        | inl y ↦ rw (there, valid, y) refl
        | inr n ↦ rw (there, valid, n) refl
      ])

missed :
    (p pte seen : ℕ)
    → ((p ≡ 0) × (seen ≡ 0)) ⊎ (seen ≡ pte)
    → pte_v seen ≡ false
    → answer p pte ≡ asked seen
missed p pte seen (inl (z, e)) bad = rw (z, bad) refl
missed p pte seen (inr e) bad =
    subst (λ q. answer p q ≡ asked seen) e
      (elim (Bool-cases (p == 0)) [ inl y ↦ rw (y, bad) refl | inr n ↦ rw (n, bad) refl ])

module _ (kernel_end : ℕ) where
  -- The root alone
  abbrev created : Kmem → ℕ → List ℕ → Tree kernel_end
  created k x xs = record {
    kmem = record { mem = memset_page (kalloc k).1.mem x 0; freelist = (kalloc k).1.freelist };
    root = x;
    level = root_levels x;
    prefix = λ q. 0;
    pages = xs;
  }

  -- On a tree of page tables, with a positive kernel end, walkaddr returns the page of the leaf
  -- PTE that the hardware reads for va, if that is valid and has PTE_U, and 0 otherwise, also from
  -- MAXVA on.
  pub walkaddr-user_page :
      (t : Tree kernel_end) (va : ℕ)
      → IsTree kernel_end t
      → 0 < kernel_end
      → walkaddr t.root va t.kmem ≡ ok (user_page t.kmem.mem t.root va)
  unfolding walkaddr walk
  walkaddr-user_page t va v pos = elim (Bool-cases (leb maxva va)) [
    | inl y ↦ rw y refl
    | inr n ↦
        rw (n, (walk_from-view 2 t.root va t.kmem).0)
          (ap ok (elim (Bool-cases (pte_v (view t.kmem.mem t.root va))) [
            | inl valid ↦
                let (leaf, at, ll, lp, leads) =
                  walk_from-Leads kernel_end 2 t.root va t v v.at_root (omega arith)
                    (v.root_prefix ∙ ground (arith, n)) valid in
                let there =
                  ne→== (walk_from false 2 t.root va t.kmem).0 0
                    (omega (arith, at, (v.table leaf (omega (arith, ll))).above, pos)) in
                found _ _ _ there
                  (Leads-view t.kmem.mem 2 t.root va leaf leads ∙ ap t.kmem.mem (sym at)) valid
            | inr bad ↦ missed _ _ _ (walk_from-view 2 t.root va t.kmem).1 bad
          ]))
  ]

  -- uvmclear()
  pub record Drops (t u : Tree kernel_end) (va : ℕ) : Type 0 where
    pub valid : IsTree kernel_end u
    pub grows : Grows kernel_end t u
    pub views :
        (w : ℕ)
        → w < maxva
        → view u.kmem.mem u.root w ≡ (
            if w / 4096 == va / 4096
            then without_u (view t.kmem.mem t.root w)
            else view t.kmem.mem t.root w)

  -- With a positive kernel end: uvmcreate answers 0 and changes nothing if no page is free; otherwise
  -- it takes the first free page as the root of a tree of page tables, in which the hardware reads 0
  -- for all addresses.
  pub uvmcreate-IsTree :
      (k : Kmem) (xs : List ℕ)
      → 0 < kernel_end
      → IsFree kernel_end k xs
      → ((xs ≡ []) × (uvmcreate k ≡ (0, k)))
        ⊎ ((t : Tree kernel_end) × (uvmcreate k ≡ (t.root, t.kmem))
            × IsTree kernel_end t
            × (t.root ∷ t.pages ≡ xs)
            × ((w : ℕ) → view t.kmem.mem t.root w ≡ 0))
  unfolding uvmcreate
  uvmcreate-IsTree k [] pos f = inl (refl, rw (kalloc_empty kernel_end k f) refl)
  uvmcreate-IsTree k (x ∷ xs) pos f =
      let (got, rest, after) = kalloc-IsFree kernel_end k x xs pos f in
      let page = f.pages.0 in
      let some_page : ((kalloc k).0 == 0) ≡ false =
        ne→== _ _ (omega (arith, got, page.above, pos)) in
      inr (
        created k x xs,
        rw some_page (
            ap
              (λ y. (
                y,
                record { mem = memset_page (kalloc k).1.mem y 0; freelist = (kalloc k).1.freelist },
              ))
              got),
        record {
          at_root = rw (eq→== x x refl) refl;
          root_prefix = refl;
          table = λ p h. subst (IsPage kernel_end) (only p h) page;
          child = λ p i l lv lt small valid.
              let e : x ≡ p = only p (omega (arith, lv, lt)) in
              let none_there : memset_page (kalloc k).1.mem x 0 (p + 8 * i) ≡ 0 =
                subst (λ q. memset_page (kalloc k).1.mem x 0 (q + 8 * i) ≡ 0) e
                  (memset_page_in (kalloc k).1.mem x 0 i small) in
              absurd (ground (arith, valid, ap pte_v none_there));
          free = record {
            chain =
                Chain-memset_page kernel_end (kalloc k).1.mem (kalloc k).1.freelist x 0 xs
                  page.aligned rest.pages f.distinct.0 rest.chain;
            pages = rest.pages;
            distinct = rest.distinct;
          };
          apart = others xs f.distinct.0;
        },
        refl,
        λ w.
            view_empty (memset_page (kalloc k).1.mem x 0) 2 x w
              (memset_page_in (kalloc k).1.mem x 0),
      )
    where
      only : (p : ℕ) → root_levels x p ≤ 2 → x ≡ p
      only p h = ground (arith, h)

      others : (ys : List ℕ) → Absent x ys → All (λ p. root_levels x p ≡ 3) ys
      others [] ab = tt
      others (y ∷ ys) (ne, ab) = (rw (ne→== x y (λ e. ne (sym e))) refl, others ys ab)

  -- On a tree of page tables, with a positive kernel end, uvmclear of an address below MAXVA with a
  -- valid PTE returns without a panic, keeps the tree, and clears PTE_U in what the hardware reads for
  -- this page, and nothing else.
  pub uvmclear-Drops :
      (t : Tree kernel_end) (va : ℕ)
      → IsTree kernel_end t
      → 0 < kernel_end
      → va < maxva
      → pte_v (view t.kmem.mem t.root va) ≡ true
      → (u : Tree kernel_end) × (uvmclear t.root va t.kmem ≡ ok u.kmem) × Drops t u va
  unfolding uvmclear walk
  uvmclear-Drops t va v pos lt valid =
      let (leaf, at, ll, lp, leads) =
        walk_from-Leads kernel_end 2 t.root va t v v.at_root (omega arith)
          (v.root_prefix ∙ omega (arith, lt)) valid in
      let x = without_u (t.kmem.mem (slot 0 leaf va)) in
      let there =
        ne→== (slot 0 leaf va) 0 (omega (arith, (v.table leaf (omega (arith, ll))).above, pos)) in
      let seen = Leads-view t.kmem.mem 2 t.root va leaf leads in
      (
        stored kernel_end t v leaf va (without_u (t.kmem.mem (slot 0 leaf va))),
        rw (gt→leb maxva va lt, (walk_from-view 2 t.root va t.kmem).0, at, there) refl,
        record {
          valid =
              stored-IsTree kernel_end t v leaf va (without_u (t.kmem.mem (slot 0 leaf va))) ll lp;
          grows = stored-Grows kernel_end t v leaf va (without_u (t.kmem.mem (slot 0 leaf va))) ll;
          views = λ w small.
              stored-view kernel_end t v leaf va (without_u (t.kmem.mem (slot 0 leaf va))) ll lp
                leads w small
              ∙ (elim (Bool-cases (w / 4096 == va / 4096)) [
                | inl y ↦ rw y (
                    ap without_u
                      (sym (view_page t.kmem.mem 2 t.root w va (omega arith) (==→eq _ _ y) ∙ seen)))
                | inr n ↦ rw n refl
              ]);
        },
      )
