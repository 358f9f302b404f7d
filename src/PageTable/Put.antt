-- ===== src/PageTable/Put.antt =====
-- vm.c: walk() with alloc, and a store to the PTE that it answers.
use cs3500_os.Base.{
  ℕ, zero, suc, ◌+◌, ◌*◌, ◌/◌, ◌≤◌, ◌<◌, ◌≡◌, ◌≢◌, refl, sym, ap, subst, ◌∙◌, true, ◌==◌,
  if◌then◌else◌, List, [], ◌++◌, All, Absent, arith, inl, inr, Bool-cases, ==→eq, ==→ne,
}
use cs3500_os.Kalloc.{Kmem}
use cs3500_os.PageTable.{pte2pa, pte_v, slot, store, walk_from, maxva}
use cs3500_os.PageTable.Tree.{Tree, IsTree, Leads, view_from, view, above, slot_at, px_page}
use cs3500_os.PageTable.Write.{
  stored, stored-IsTree, stored-view_same, stored-view_other, update_other,
}
use cs3500_os.PageTable.Extends.{Extends}
use cs3500_os.PageTable.Walk.{
  Walks, walk_from-Walks, append_assoc, All-append, All-map, Absent-append,
}

pub Leads-view :
    (mem : ℕ → ℕ) (l p va leaf : ℕ)
    → Leads mem l p va leaf
    → view_from mem l p va ≡ mem (slot 0 leaf va)
Leads-view mem zero p va leaf e = ap (λ q. mem (slot 0 q va)) e
Leads-view mem (suc l) p va leaf (valid, h) = rw valid (Leads-view mem l _ va leaf h)

pub Leads-page :
    (mem : ℕ → ℕ) (l p va w leaf : ℕ)
    → l ≤ 2
    → va / 4096 ≡ w / 4096
    → Leads mem l p va leaf
    → Leads mem l p w leaf
Leads-page mem zero p va w leaf le e h = h
Leads-page mem (suc l) p va w leaf le e (valid, h) =
    let same : slot (suc l) p va ≡ slot (suc l) p w =
      ap (λ i. p + 8 * i) (px_page (suc l) va w le e) in
    (
      ap (λ s. pte_v (mem s)) (sym same) ∙ valid,
      subst (λ s. Leads mem l (pte2pa (mem s)) w leaf) same
          (Leads-page mem l _ va w leaf (omega arith) e h),
    )

module _ (kernel_end : ℕ) where
  -- What a tree of tables becomes as some free pages become tables and leaf PTEs change.
  pub record Grows (t u : Tree kernel_end) : Type 0 where
    pub same_root : u.root ≡ t.root
    pub low : (p : ℕ) → t.level p ≤ 2 → u.level p ≤ 2
    pub used : List ℕ
    pub split : t.pages ≡ used ++ u.pages
    pub tables : All (λ p. u.level p ≤ 2) used
    pub other : (p : ℕ) → t.level p ≡ 3 → Absent p t.pages → u.level p ≡ 3
    pub kept :
        (a : ℕ)
        → t.level (a / 4096 * 4096) ≡ 3
        → Absent (a / 4096 * 4096) t.pages
        → u.kmem.mem a ≡ t.kmem.mem a

  pub Extends-Grows : (t u : Tree kernel_end) → Extends kernel_end t u → Grows t u
  Extends-Grows t u e = record {
    same_root = e.same_root;
    low = λ p h. omega (arith, h, (e.label p h).0);
    used = e.used;
    split = e.split;
    tables = e.tables;
    other = e.other;
    kept = e.kept;
  }

  pub Grows-trans : (t u w : Tree kernel_end) → Grows t u → Grows u w → Grows t w
  Grows-trans t u w a b =
      let rest : (p : ℕ) → Absent p t.pages → Absent p u.pages =
        (λ p h. Absent-append p a.used u.pages (subst (Absent p) a.split h)) in
      record {
        same_root = b.same_root ∙ a.same_root;
        low = λ p h. b.low p (a.low p h);
        used = a.used ++ b.used;
        split =
            a.split ∙ (ap (λ r. a.used ++ r) b.split ∙ sym (append_assoc a.used b.used w.pages));
        tables =
            All-append (λ p. w.level p ≤ 2) a.used b.used
              (All-map (λ p. u.level p ≤ 2) (λ p. w.level p ≤ 2) a.used b.low a.tables) b.tables;
        other = λ p h ab. b.other p (a.other p h ab) (rest p ab);
        kept = λ x h ab. b.kept x (a.other _ h ab) (rest _ ab) ∙ a.kept x h ab;
      }

  pub stored-Grows :
      (t : Tree kernel_end) (v : IsTree kernel_end t) (p va x : ℕ)
      → t.level p ≡ 0
      → Grows t (stored kernel_end t v p va x)
  stored-Grows t v p va x leaf = record {
    same_root = refl;
    low = λ q h. h;
    used = [];
    split = refl;
    tables = tt;
    other = λ q h ab. h;
    kept = λ a h ab. update_other t.kmem.mem (slot 0 p va) x a (λ e.
        let home = slot_at 0 p va (v.table p (omega (arith, leaf))).aligned in
        absurd (omega (arith, leaf, h, ap t.level (ap (λ s. s / 4096 * 4096) e ∙ home))));
  }

  pub stored-view :
      (u : Tree kernel_end) (uv : IsTree kernel_end u) (leaf a x : ℕ) (ll : u.level leaf ≡ 0)
      (lp : u.prefix leaf ≡ above 0 a)
      → Leads u.kmem.mem 2 u.root a leaf
      → (w : ℕ) → w < maxva
      → view (stored kernel_end u uv leaf a x).kmem.mem u.root w
        ≡ (if w / 4096 == a / 4096 then x else view u.kmem.mem u.root w)
  stored-view u uv leaf a x ll lp leads w small = elim (Bool-cases (w / 4096 == a / 4096)) [
    | inl same ↦
        let e : w / 4096 ≡ a / 4096 = ==→eq _ _ same in
        rw same (
          stored-view_same kernel_end u uv leaf a x ll lp 2 u.root w uv.at_root (omega arith)
            (uv.root_prefix ∙ omega (arith, small)) e
            (Leads-page u.kmem.mem 2 u.root a w leaf (omega arith) (sym e) leads))
    | inr differ ↦ rw differ (
        stored-view_other kernel_end u uv leaf a x ll lp 2 u.root w uv.at_root (omega arith)
          (uv.root_prefix ∙ omega (arith, small)) (==→ne _ _ differ))
  ]

  pub walk_top :
      (t : Tree kernel_end) (a : ℕ)
      → IsTree kernel_end t
      → 0 < kernel_end
      → a < maxva
      → Walks kernel_end 2 t.root a t (walk_from true 2 t.root a t.kmem)
  walk_top t a v pos lt =
      walk_from-Walks kernel_end 2 t.root a t v pos v.at_root (omega arith)
        (v.root_prefix ∙ omega (arith, lt))

  -- The PTE that a walk found holds what the hardware read before, and a store to it changes what
  -- the hardware reads for this page only.
  pub record Puts (t : Tree kernel_end) (a x : ℕ) (r : ℕ × Kmem) : Type 0 where
    pub there : r.0 ≢ 0
    pub before : r.1.mem r.0 ≡ view t.kmem.mem t.root a
    pub tree : Tree kernel_end
    pub state : store r.1 r.0 x ≡ tree.kmem
    pub valid : IsTree kernel_end tree
    pub grows : Grows t tree
    pub after :
        (w : ℕ)
        → w < maxva
        → view tree.kmem.mem tree.root w
          ≡ (if w / 4096 == a / 4096 then x else view t.kmem.mem t.root w)

  module _ (t : Tree kernel_end) (v : IsTree kernel_end t) (a x : ℕ) (lt : a < maxva) where
    pub found-Puts :
        (r : ℕ × Kmem) (u : Tree kernel_end) (leaf : ℕ)
        → 0 < kernel_end
        → r.1 ≡ u.kmem
        → IsTree kernel_end u
        → Extends kernel_end t u
        → r.0 ≡ slot 0 leaf a
        → u.level leaf ≡ 0
        → u.prefix leaf ≡ above 0 a
        → Leads u.kmem.mem 2 t.root a leaf
        → Puts t a x r
    found-Puts r u leaf pos st uv ext at ll lp leads = record {
      there = (let b = (uv.table leaf (omega (arith, ll))).above in omega (arith, at, b, pos));
      before =
          ap (λ k. k.mem r.0) st
          ∙ (ap u.kmem.mem at
              ∙ (sym (Leads-view u.kmem.mem 2 t.root a leaf leads)
                  ∙ ext.views 2 t.root a v.at_root (omega arith)
                      (v.root_prefix ∙ omega (arith, lt))));
      tree = stored kernel_end u uv leaf a x;
      state = ap (λ k. store k r.0 x) st ∙ ap (λ s. store u.kmem s x) at;
      valid = stored-IsTree kernel_end u uv leaf a x ll lp;
      grows =
          Grows-trans t u (stored kernel_end u uv leaf a x) (Extends-Grows t u ext)
            (stored-Grows u uv leaf a x ll);
      after = λ w small.
          stored-view u uv leaf a x ll lp
            (subst (λ q. Leads u.kmem.mem 2 q a leaf) (sym ext.same_root) leads) w small
          ∙ ap (λ y. if w / 4096 == a / 4096 then x else y)
              (ap (λ q. view_from u.kmem.mem 2 q w) ext.same_root
                ∙ ext.views 2 t.root w v.at_root (omega arith)
                    (v.root_prefix ∙ omega (arith, small)));
    }
