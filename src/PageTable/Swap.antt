-- ===== src/PageTable/Swap.antt =====
-- vm.c: what happens to pages that are no tables leaves the tables alone: kalloc(), kfree() and memset().
use cs3500_os.Base.{
  ℕ, zero, suc, ◌+◌, ◌*◌, ◌/◌, ◌≤◌, ◌<◌, ◌≡◌, ◌≢◌, refl, sym, ap, subst, ◌∙◌, List, ◌∷◌, All,
  Absent, update, arith, inl, inr, Bool-cases, ok, panic,
}
use cs3500_os.Kalloc.{Kmem, kalloc, kfree, memset_page}
use cs3500_os.Kalloc.FreeList.{
  IsFree, IsPage, kfree-IsFree, kfree_runs, kalloc-IsFree, Chain-memset_page,
}
use cs3500_os.PageTable.{pte_v, pte2pa, px, slot}
use cs3500_os.PageTable.Tree.{Tree, IsTree, Leads, view_from, above, child-slot}
use cs3500_os.PageTable.Extends.{memset_page_out}
use cs3500_os.PageTable.Write.{update_other}

module _ (kernel_end : ℕ) (t : Tree kernel_end) (v : IsTree kernel_end t) where
  module _ (k : Kmem) (ys : List ℕ)
      (same : (a : ℕ) → t.level (a / 4096 * 4096) ≤ 2 → k.mem a ≡ t.kmem.mem a) where
    -- The tables with another rest of memory.
    abbrev pub swapped : Tree kernel_end
    swapped = record t { kmem = k; pages = ys }

    word : (p i : ℕ) → t.level p ≤ 2 → i < 512 → k.mem (p + 8 * i) ≡ t.kmem.mem (p + 8 * i)
    word p i h small =
        let al = (v.table p h).aligned in
        let home : (p + 8 * i) / 4096 * 4096 ≡ p = omega (arith, al, small) in
        same (p + 8 * i) (subst (λ q. t.level q ≤ 2) (sym home) h)

    pub swapped-IsTree :
        IsFree kernel_end k ys → All (λ p. t.level p ≡ 3) ys → IsTree kernel_end swapped
    swapped-IsTree free apart = record {
      at_root = v.at_root;
      root_prefix = v.root_prefix;
      table = v.table;
      child = λ p i l lv lt small valid.
          let keep = word p i (omega (arith, lv, lt)) small in
          let (c, e, cl, cp) = v.child p i l lv lt small (ap pte_v (sym keep) ∙ valid) in
          (c, keep ∙ e, cl, cp);
      free = free;
      apart = apart;
    }

    pub swapped-view_from :
        (l p w : ℕ)
        → t.level p ≡ l
        → l ≤ 2
        → t.prefix p ≡ above l w
        → view_from k.mem l p w ≡ view_from t.kmem.mem l p w
    swapped-view_from zero p w lv le pre = word p (px 0 w) (omega (arith, lv)) (omega arith)
    swapped-view_from (suc l) p w lv le pre =
        let keep = word p (px (suc l) w) (omega (arith, lv, le)) (omega arith) in
        elim (Bool-cases (pte_v (t.kmem.mem (slot (suc l) p w)))) [
          | inl valid ↦
              let (cl, cp) = child-slot kernel_end t p l w v lv (omega arith) pre valid in
              rw (keep, valid)
                (swapped-view_from l (pte2pa (t.kmem.mem (slot (suc l) p w))) w cl (omega arith) cp)
          | inr bad ↦ rw (keep, bad) refl
        ]

    pub swapped-Leads :
        (l p w leaf : ℕ)
        → t.level p ≡ l
        → l ≤ 2
        → t.prefix p ≡ above l w
        → Leads t.kmem.mem l p w leaf
        → Leads k.mem l p w leaf
    swapped-Leads zero p w leaf lv le pre h = h
    swapped-Leads (suc l) p w leaf lv le pre (valid, h) =
        let keep = word p (px (suc l) w) (omega (arith, lv, le)) (omega arith) in
        let (cl, cp) = child-slot kernel_end t p l w v lv (omega arith) pre valid in
        (
          ap pte_v keep ∙ valid,
          subst (λ q. Leads k.mem l (pte2pa q) w leaf) (sym keep)
              (swapped-Leads l _ w leaf cl (omega arith) cp h),
        )

  -- kfree() of a page that is no table
  pub kfree-same :
      (pa : ℕ)
      → IsPage kernel_end pa
      → t.level pa ≡ 3
      → Absent pa t.pages
      → (k : Kmem) × (kfree kernel_end t.kmem pa ≡ ok k)
        × IsFree kernel_end k (pa ∷ t.pages)
        × ((a : ℕ) → a / 4096 * 4096 ≢ pa → k.mem a ≡ t.kmem.mem a)
  kfree-same pa page lv ab =
      let (k, e, f) = kfree-IsFree kernel_end t.kmem t.pages pa v.free page ab in
      (k, e, f, λ a out. go k (sym e ∙ kfree_runs kernel_end t.kmem pa page) a out)
    where
      ok_inj : (x y : Kmem) → ok x ≡ ok y → x ≡ y
      ok_inj x y e = ap (λ o. elim o [ ok z ↦ z | panic ↦ x ]) e

      go :
          (k : Kmem)
          → ok k
            ≡ ok (record {
              mem = update (memset_page t.kmem.mem pa 0x0101010101010101) pa t.kmem.freelist;
              freelist = pa;
            })
          → (a : ℕ) → a / 4096 * 4096 ≢ pa
          → k.mem a ≡ t.kmem.mem a
      go k e a out =
          let al = page.aligned in
          ap (λ m. m.mem a) (ok_inj k _ e)
          ∙ (update_other (memset_page t.kmem.mem pa 0x0101010101010101) pa _ a
                (λ f. out (omega (arith, f, al)))
              ∙ memset_page_out t.kmem.mem pa _ a al out)

  -- kalloc() of a page that gets zero bytes, with 0 < kernel_end.
  pub kalloc-same :
      (x : ℕ) (xs : List ℕ)
      → 0 < kernel_end
      → t.pages ≡ x ∷ xs
      → ((kalloc t.kmem).0 ≡ x)
        × IsFree kernel_end
            (record {
              mem = memset_page (kalloc t.kmem).1.mem x 0;
              freelist = (kalloc t.kmem).1.freelist;
            })
            xs
        × ((a : ℕ) → a / 4096 * 4096 ≢ x → memset_page (kalloc t.kmem).1.mem x 0 a ≡ t.kmem.mem a)
  kalloc-same x xs pos e =
      let free = subst (IsFree kernel_end t.kmem) e v.free in
      let (got, rest, after) = kalloc-IsFree kernel_end t.kmem x xs pos free in
      let al = free.pages.0.aligned in
      (
        got,
        record {
          chain =
              Chain-memset_page kernel_end (kalloc t.kmem).1.mem (kalloc t.kmem).1.freelist x 0 xs
                al rest.pages free.distinct.0 rest.chain;
          pages = rest.pages;
          distinct = rest.distinct;
        },
        λ a out.
            memset_page_out (kalloc t.kmem).1.mem x 0 a al out
            ∙ (after a ∙ memset_page_out t.kmem.mem x _ a al out),
      )
