-- ===== src/PageTable/Grow.antt =====
-- vm.c: walk() links a new, empty table into the tree.
use cs3500_os.Base.{
  ℕ, zero, suc, ◌+◌, ◌*◌, ◌/◌, ◌≤◌, ◌<◌, ◌≡◌, ◌≢◌, refl, sym, ap, subst, ◌∙◌, true, false, ◌==◌,
  if◌then◌else◌, List, [], ◌∷◌, All, Absent, update, arith, inl, inr, Bool-cases, ne→==, eq→==,
  ==→eq, ==→ne,
}
use cs3500_os.Kalloc.{kalloc, memset_page}
use cs3500_os.Kalloc.FreeList.{
  Chain, IsFree, IsPage, Chain-update, Chain-memset_page, kalloc-IsFree,
}
use cs3500_os.PageTable.{px, pte2pa, pa2pte, pte_v, slot, new_table}
use cs3500_os.PageTable.Tree.{
  Tree, IsTree, view_from, above, child-slot, slot_ne, slot_at, pte2pa-pa2pte, above_px,
}
use cs3500_os.PageTable.Write.{update_other, update_self}
use cs3500_os.PageTable.Extends.{Extends, view_empty, memset_page_out, memset_page_in}

module _ (kernel_end : ℕ) where
  module _ (t : Tree kernel_end) (v : IsTree kernel_end t) (pos : 0 < kernel_end) (x : ℕ)
      (xs : List ℕ) (popped : t.pages ≡ x ∷ xs) (q l va : ℕ) (lv : t.level q ≡ suc l) (lt : l < 2)
      (pre : t.prefix q ≡ above (suc l) va)
      (missing : pte_v (t.kmem.mem (slot (suc l) q va)) ≡ false) where
    -- The state once the new table is linked.
    abbrev pub grown : Tree kernel_end
    grown = record {
      kmem = new_table (slot (suc l) q va) t.kmem;
      root = t.root;
      level = update t.level x l;
      prefix = update t.prefix x (above l va);
      pages = xs;
    }

    free' : IsFree kernel_end t.kmem (x ∷ xs)
    free' = subst (λ ys. IsFree kernel_end t.kmem ys) popped v.free

    apart' : All (λ p. t.level p ≡ 3) (x ∷ xs)
    apart' = subst (λ ys. All (λ p. t.level p ≡ 3) ys) popped v.apart

    pub kalloc_page : (kalloc t.kmem).0 ≡ x
    kalloc_page = (kalloc-IsFree kernel_end t.kmem x xs pos free').0

    pub x_page : IsPage kernel_end x
    x_page = free'.pages.0

    x_fresh : t.level x ≡ 3
    x_fresh = apart'.0

    table_ne : (p : ℕ) → t.level p ≤ 2 → p ≢ x
    table_ne p h e = absurd (omega (arith, h, x_fresh, ap t.level e))

    abbrev cleared : ℕ → ℕ
    cleared = memset_page (kalloc t.kmem).1.mem (kalloc t.kmem).0 0

    slot_out : slot (suc l) q va / 4096 * 4096 ≡ q
    slot_out = slot_at (suc l) q va (v.table q (omega (arith, lv, lt))).aligned

    grown_other :
        (a : ℕ) → a / 4096 * 4096 ≢ x → a ≢ slot (suc l) q va → grown.kmem.mem a ≡ t.kmem.mem a
    grown_other a out off =
        let (_, _, after) = kalloc-IsFree kernel_end t.kmem x xs pos free' in
        update_other cleared _ _ a off
        ∙ (ap (λ y. memset_page (kalloc t.kmem).1.mem y 0 a) kalloc_page
            ∙ (memset_page_out (kalloc t.kmem).1.mem x 0 a x_page.aligned out
                ∙ (after a ∙ memset_page_out t.kmem.mem x _ a x_page.aligned out)))

    pub grown_empty : (i : ℕ) → i < 512 → grown.kmem.mem (x + 8 * i) ≡ 0
    grown_empty i h =
        let off : x + 8 * i ≢ slot (suc l) q va = (λ e. table_ne q (omega (arith, lv, lt)) (
          sym slot_out ∙ (ap (λ s. s / 4096 * 4096) (sym e) ∙ omega (arith, x_page.aligned, h)))) in
        update_other cleared _ _ (x + 8 * i) off
        ∙ (ap (λ y. memset_page (kalloc t.kmem).1.mem y 0 (x + 8 * i)) kalloc_page
            ∙ memset_page_in (kalloc t.kmem).1.mem x 0 i h)

    pub grown_link : grown.kmem.mem (slot (suc l) q va) ≡ pa2pte x + 1
    grown_link =
        update_self cleared (slot (suc l) q va) _ _ refl ∙ ap (λ y. pa2pte y + 1) kalloc_page

    -- Another word of a table
    grown_entry :
        (p i : ℕ)
        → t.level p ≤ 2
        → i < 512
        → p + 8 * i ≢ slot (suc l) q va
        → grown.kmem.mem (p + 8 * i) ≡ t.kmem.mem (p + 8 * i)
    grown_entry p i h small off =
        let a = (v.table p h).aligned in
        let here : (p + 8 * i) / 4096 * 4096 ≡ p = omega (arith, a, small) in
        grown_other (p + 8 * i) (λ e. table_ne p h (sym here ∙ e)) off

    label_other :
        (p : ℕ) → t.level p ≤ 2 → (grown.level p ≡ t.level p) × (grown.prefix p ≡ t.prefix p)
    label_other p h = rw (ne→== x p (λ e. table_ne p h (sym e))) (refl, refl)

    pub label_new : (grown.level x ≡ l) × (grown.prefix x ≡ above l va)
    label_new = rw (eq→== x x refl) (refl, refl)

    child_old :
        (p i m : ℕ)
        → x ≢ p
        → t.level p ≡ suc m
        → m < 2
        → i < 512
        → pte_v (grown.kmem.mem (p + 8 * i)) ≡ true
        → (c : ℕ) × (grown.kmem.mem (p + 8 * i) ≡ pa2pte c + 1)
          × (grown.level c ≡ m)
          × (grown.prefix c ≡ t.prefix p * 512 + i)
    child_old p i m ne lp small hi valid = elim (Bool-cases (p + 8 * i == slot (suc l) q va)) [
      | inl hit ↦
          let same : p + 8 * i ≡ slot (suc l) q va = ==→eq _ _ hit in
          let a = (v.table p (omega (arith, lp, small))).aligned in
          let b = (v.table q (omega (arith, lv, lt))).aligned in
          let pq : p ≡ q = omega (arith, a, b, same, hi) in
          let ix : i ≡ px (suc l) va = omega (arith, a, b, same, hi) in
          let lm : l ≡ m = omega (arith, lv, lp, ap t.level pq) in
          (
            x,
            ap grown.kmem.mem same ∙ grown_link,
            label_new.0 ∙ lm,
            label_new.1
                ∙ (above_px l va lt
                    ∙ (ap (λ y. y * 512 + px (suc l) va) (sym pre ∙ ap t.prefix (sym pq))
                        ∙ ap (λ y. t.prefix p * 512 + y) (sym ix))),
          )
      | inr miss ↦
          let keep = grown_entry p i (omega (arith, lp, small)) hi (==→ne _ _ miss) in
          let (c, e, cl, cp) = v.child p i m lp small hi (ap pte_v (sym keep) ∙ valid) in
          let (gl, gp) = label_other c (omega (arith, cl, small)) in (c, keep ∙ e, gl ∙ cl, gp ∙ cp)
    ]

    fresh_rest :
        (ys : List ℕ) → Absent x ys → All (λ p. t.level p ≡ 3) ys → All (λ p. grown.level p ≡ 3) ys
    fresh_rest [] ab h = tt
    fresh_rest (y ∷ ys) (ne, ab) (h, hs) = (rw (ne→== x y (λ e. ne (sym e))) h, fresh_rest ys ab hs)

    link_off :
        (ys : List ℕ)
        → All (λ p. t.level p ≡ 3) ys
        → All (IsPage kernel_end) ys
        → Absent (slot (suc l) q va) ys
    link_off [] h g = tt
    link_off (y ∷ ys) (h, hs) (g, gs) = (
      (λ e.
          let b = v.table q (omega (arith, lv, lt)) in
          let same : q ≡ y = omega (arith, e, b.aligned, g.aligned) in
          absurd (omega (arith, lv, lt, h, ap t.level same))),
      link_off ys hs gs,
    )

    pub grown-IsTree : IsTree kernel_end grown
    grown-IsTree = record {
      at_root = (label_other t.root (omega (arith, v.at_root))).0 ∙ v.at_root;
      root_prefix = (label_other t.root (omega (arith, v.at_root))).1 ∙ v.root_prefix;
      table = λ p h. elim (Bool-cases (x == p)) [
        | inl e ↦ subst (IsPage kernel_end) (==→eq x p e) x_page
        | inr ne ↦ v.table p (subst (λ y. y ≤ 2) (ap (λ b. if b then l else t.level p) ne) h)
      ];
      child = λ p i m lp small hi valid. elim (Bool-cases (x == p)) [
        | inl e ↦
            let zero_pte : pte_v (grown.kmem.mem (p + 8 * i)) ≡ false =
              subst (λ y. pte_v (grown.kmem.mem (y + 8 * i)) ≡ false) (==→eq x p e)
                (ap pte_v (grown_empty i hi)) in
            absurd (ground (arith, zero_pte, valid))
        | inr ne ↦
            let lp' : t.level p ≡ suc m = sym (ap (λ b. if b then l else t.level p) ne) ∙ lp in
            let (c, e, cl, cp) = child_old p i m (==→ne x p ne) lp' small hi valid in
            (
              c,
              e,
              cl,
              cp ∙ ap (λ y. y * 512 + i) (sym (label_other p (omega (arith, lp', small))).1),
            )
      ];
      free =
          let (_, rest, _) = kalloc-IsFree kernel_end t.kmem x xs pos free' in
          record {
            chain =
                Chain-update kernel_end _ _ (slot (suc l) q va) _ xs
                  (link_off xs apart'.1 rest.pages)
                  (subst
                    (λ y.
                      Chain (memset_page (kalloc t.kmem).1.mem y 0) (kalloc t.kmem).1.freelist xs)
                    (sym kalloc_page)
                    (Chain-memset_page kernel_end (kalloc t.kmem).1.mem (kalloc t.kmem).1.freelist x
                      0 xs x_page.aligned rest.pages free'.distinct.0 rest.chain));
            pages = rest.pages;
            distinct = rest.distinct;
          };
      apart = fresh_rest xs free'.distinct.0 apart'.1;
    }

    grown_views :
        (m p w : ℕ)
        → t.level p ≡ m
        → m ≤ 2
        → t.prefix p ≡ above m w
        → view_from grown.kmem.mem m p w ≡ view_from t.kmem.mem m p w
    grown_views zero p w lp small pp =
        grown_entry p (px 0 w) (omega (arith, lp)) (omega arith)
          (slot_ne kernel_end t p q zero (suc l) w va v lp lv small (omega arith) (omega arith))
    grown_views (suc m) p w lp small pp =
        elim (Bool-cases (slot (suc m) p w == slot (suc l) q va)) [
          | inl hit ↦
              let same = ==→eq _ _ hit in
              let link : grown.kmem.mem (slot (suc m) p w) ≡ pa2pte x + 1 =
                ap grown.kmem.mem same ∙ grown_link in
              let old : pte_v (t.kmem.mem (slot (suc m) p w)) ≡ false =
                ap (λ s. pte_v (t.kmem.mem s)) same ∙ missing in
              let set : pte_v (pa2pte x + 1) ≡ true = ground arith in
              rw (old, link, set, pte2pa-pa2pte x x_page.aligned x_page.below)
                (view_empty grown.kmem.mem m x w grown_empty)
          | inr miss ↦
              let keep =
                grown_entry p (px (suc m) w) (omega (arith, lp, small)) (omega arith)
                  (==→ne _ _ miss) in
              elim (Bool-cases (pte_v (t.kmem.mem (slot (suc m) p w)))) [
                | inl valid ↦
                    let (cl, cp) = child-slot kernel_end t p m w v lp (omega arith) pp valid in
                    rw (keep, valid)
                      (grown_views m (pte2pa (t.kmem.mem (slot (suc m) p w))) w cl (omega arith) cp)
                | inr bad ↦ rw (keep, bad) refl
              ]
        ]

    pub grown-Extends : Extends kernel_end t grown
    grown-Extends = record {
      same_root = refl;
      label = label_other;
      entry = λ p i h hi valid.
          grown_entry p i h hi
            (λ e. absurd (ground (arith, missing, valid, ap (λ s. pte_v (t.kmem.mem s)) e)));
      views = grown_views;
      used = x ∷ [];
      split = popped;
      tables = (omega (arith, label_new.0, lt), tt);
      other = λ p h ab. rw (ne→== x p (λ e. (subst (Absent p) popped ab).0 e)) h;
      kept = λ a h ab.
          grown_other a (λ e. (subst (Absent (a / 4096 * 4096)) popped ab).0 (sym e))
            (λ e.
              absurd
                (omega (arith, lv, lt, h, ap t.level (ap (λ s. s / 4096 * 4096) e ∙ slot_out))));
    }
