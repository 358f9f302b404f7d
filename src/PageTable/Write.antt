-- ===== src/PageTable/Write.antt =====
-- vm.c: a store to a leaf PTE changes what the hardware reads for its page, and for no other.
use cs3500_os.Base.{
  ℕ, zero, suc, ◌+◌, ◌*◌, ◌/◌, ◌≤◌, ◌<◌, ◌≡◌, ◌≢◌, refl, sym, ap, ◌∙◌, List, [], ◌∷◌, All, Absent,
  update, arith, inl, inr, Bool-cases, ne→==, eq→==,
}
use cs3500_os.Kalloc.FreeList.{IsPage, Chain-update}
use cs3500_os.PageTable.{pte2pa, pte_v, slot, store}
use cs3500_os.PageTable.Tree.{Tree, IsTree, Leads, view_from, above, child-slot, slot_ne, slot_inj}

pub update_other : (f : ℕ → ℕ) (a v x : ℕ) → x ≢ a → update f a v x ≡ f x
update_other f a v x ne = rw (ne→== a x (λ e. ne (sym e))) refl

pub update_self : (f : ℕ → ℕ) (a v x : ℕ) → x ≡ a → update f a v x ≡ v
update_self f a v x e = rw (eq→== a x (sym e)) refl

module _ (kernel_end : ℕ) (t : Tree kernel_end) (v : IsTree kernel_end t) where
  -- The state after *pte = x, where pte is the leaf of va in the table p.
  abbrev pub stored : ℕ → ℕ → ℕ → Tree kernel_end
  stored p va x = record t { kmem = store t.kmem (slot 0 p va) x }

  module _ (p va x : ℕ) (leaf : t.level p ≡ 0) (pre : t.prefix p ≡ above 0 va) where
    stored_upper :
        (q m w : ℕ)
        → t.level q ≡ suc m
        → m < 2
        → (stored p va x).kmem.mem (slot (suc m) q w) ≡ t.kmem.mem (slot (suc m) q w)
    stored_upper q m w lv lt = update_other t.kmem.mem (slot 0 p va) x _ (
        slot_ne kernel_end t q p (suc m) 0 w va v lv leaf (omega arith) (omega arith) (omega arith))

    pub stored-view_same :
        (l q w : ℕ)
        → t.level q ≡ l
        → l ≤ 2
        → t.prefix q ≡ above l w
        → w / 4096 ≡ va / 4096
        → Leads t.kmem.mem l q w p
        → view_from (stored p va x).kmem.mem l q w ≡ x
    stored-view_same zero q w lv le pq same lead =
        update_self t.kmem.mem (slot 0 p va) x (slot 0 q w) (omega (arith, lead, same))
    stored-view_same (suc l) q w lv le pq same (valid, lead) =
        let (cl, cp) = child-slot kernel_end t q l w v lv (omega arith) pq valid in
        rw (stored_upper q l w lv (omega arith), valid)
          (stored-view_same l (pte2pa (t.kmem.mem (slot (suc l) q w))) w cl (omega arith) cp same
            lead)

    stored_leaf :
        (q w : ℕ)
        → t.level q ≡ 0
        → t.prefix q ≡ above 0 w
        → w / 4096 ≢ va / 4096
        → slot 0 q w ≢ slot 0 p va
    stored_leaf q w lv pq differ e =
        let a = v.table q (omega (arith, lv)) in
        let b = v.table p (omega (arith, leaf)) in
        let (qp, ix) = slot_inj 0 q p w va a.aligned b.aligned e in
        let up : above 0 w ≡ above 0 va = sym pq ∙ (ap t.prefix qp ∙ pre) in
        differ (omega (arith, up, ix))

    pub stored-view_other :
        (l q w : ℕ)
        → t.level q ≡ l
        → l ≤ 2
        → t.prefix q ≡ above l w
        → w / 4096 ≢ va / 4096
        → view_from (stored p va x).kmem.mem l q w ≡ view_from t.kmem.mem l q w
    stored-view_other zero q w lv le pq differ =
        update_other t.kmem.mem (slot 0 p va) x _ (stored_leaf q w lv pq differ)
    stored-view_other (suc l) q w lv le pq differ =
        elim (Bool-cases (pte_v (t.kmem.mem (slot (suc l) q w)))) [
          | inl valid ↦
              let (cl, cp) = child-slot kernel_end t q l w v lv (omega arith) pq valid in
              rw (stored_upper q l w lv (omega arith), valid)
                (stored-view_other l (pte2pa (t.kmem.mem (slot (suc l) q w))) w cl (omega arith) cp
                  differ)
          | inr bad ↦ rw (stored_upper q l w lv (omega arith), bad) refl
        ]

    off_list :
        (ys : List ℕ)
        → All (λ y. t.level y ≡ 3) ys
        → All (IsPage kernel_end) ys
        → Absent (slot 0 p va) ys
    off_list [] h g = tt
    off_list (y ∷ ys) (h, hs) (g, gs) = (
      (λ e.
          let b = v.table p (omega (arith, leaf)) in
          let same : p ≡ y = omega (arith, e, b.aligned, g.aligned) in
          absurd (omega (arith, leaf, h, ap t.level same))),
      off_list ys hs gs,
    )

    pub stored-IsTree : IsTree kernel_end (stored p va x)
    stored-IsTree = record {
      at_root = v.at_root;
      root_prefix = v.root_prefix;
      table = v.table;
      child = λ q i l lv lt small valid.
          let away : q + 8 * i ≢ slot 0 p va = (λ e.
            let a = v.table q (omega (arith, lv)) in
            let b = v.table p (omega (arith, leaf)) in
            let same : q ≡ p = omega (arith, a.aligned, b.aligned, e, small) in
            absurd (omega (arith, lv, leaf, ap t.level same))) in
          let keep = update_other t.kmem.mem (slot 0 p va) x (q + 8 * i) away in
          let (c, e, cl, cp) = v.child q i l lv lt small (ap pte_v (sym keep) ∙ valid) in
          (c, keep ∙ e, cl, cp);
      free = record {
        chain =
            Chain-update kernel_end t.kmem.mem t.kmem.freelist (slot 0 p va) x t.pages
              (off_list t.pages v.apart v.free.pages) v.free.chain;
        pages = v.free.pages;
        distinct = v.free.distinct;
      };
      apart = v.apart;
    }
