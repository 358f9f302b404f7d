-- ===== src/PageTable/Walk.antt =====
-- vm.c: what walk() answers, and the state it leaves.
use cs3500_os.Base.{
  ℕ, zero, suc, ◌+◌, ◌≤◌, ◌<◌, ◌≡◌, refl, sym, ap, subst, ◌∙◌, true, false, ◌==◌, if◌then◌else◌,
  List, [], ◌∷◌, ◌++◌, All, Absent, arith, inl, inr, Bool-cases, ne→==, ◌⊎◌,
}
use cs3500_os.Kalloc.{Kmem, kalloc}
use cs3500_os.Kalloc.FreeList.{IsFree, kalloc_empty}
use cs3500_os.PageTable.{px, pte2pa, pa2pte, pte_v, slot, new_table, walk_from}
use cs3500_os.PageTable.Tree.{Tree, IsTree, Leads, view_from, above, child-slot, pte2pa-pa2pte}
use cs3500_os.PageTable.Grow.{
  grown, grown-IsTree, grown-Extends, grown_link, kalloc_page, label_new, x_page,
}
use cs3500_os.PageTable.Extends.{Extends}

-- walk() without alloc changes nothing, and finds the PTE that the hardware reads.
pub walk_from-view :
    (l p va : ℕ) (k : Kmem)
    → ((walk_from false l p va k).1 ≡ k)
      × (((walk_from false l p va k).0 ≡ 0) × (view_from k.mem l p va ≡ 0)
          ⊎ (view_from k.mem l p va ≡ k.mem (walk_from false l p va k).0))
unfolding walk_from
walk_from-view zero p va k = (refl, inr refl)
walk_from-view (suc l) p va k = elim (Bool-cases (pte_v (k.mem (slot (suc l) p va)))) [
  | inl valid ↦ rw valid (walk_from-view l (pte2pa (k.mem (slot (suc l) p va))) va k)
  | inr bad ↦ rw bad (refl, inl (refl, refl))
]

pub append_assoc : (xs ys zs : List ℕ) → (xs ++ ys) ++ zs ≡ xs ++ (ys ++ zs)
append_assoc [] ys zs = refl
append_assoc (x ∷ xs) ys zs = ap (λ r. x ∷ r) (append_assoc xs ys zs)

pub All-append : (P : ℕ → Type 0) (xs ys : List ℕ) → All P xs → All P ys → All P (xs ++ ys)
All-append P [] ys h g = g
All-append P (x ∷ xs) ys (h, hs) g = (h, All-append P xs ys hs g)

pub Absent-append : (p : ℕ) (xs ys : List ℕ) → Absent p (xs ++ ys) → Absent p ys
Absent-append p [] ys h = h
Absent-append p (x ∷ xs) ys (h, hs) = Absent-append p xs ys hs

pub All-map : (P Q : ℕ → Type 0) (xs : List ℕ) → ((x : ℕ) → P x → Q x) → All P xs → All Q xs
All-map P Q [] f h = tt
All-map P Q (x ∷ xs) f (h, hs) = (f x h, All-map P Q xs f hs)

module _ (kernel_end : ℕ) where
  pub Extends-refl : (t : Tree kernel_end) → Extends kernel_end t t
  Extends-refl t = record {
    same_root = refl;
    label = λ p h. (refl, refl);
    entry = λ p i h hi e. refl;
    views = λ m p w a b c. refl;
    used = [];
    split = refl;
    tables = tt;
    other = λ p h ab. h;
    kept = λ a h ab. refl;
  }

  pub Extends-trans :
      (t u w : Tree kernel_end)
      → Extends kernel_end t u
      → Extends kernel_end u w
      → Extends kernel_end t w
  Extends-trans t u w a b =
      let low : (p : ℕ) → t.level p ≤ 2 → u.level p ≤ 2 =
        (λ p h. omega (arith, h, (a.label p h).0)) in
      let rest : (p : ℕ) → Absent p t.pages → Absent p u.pages =
        (λ p h. Absent-append p a.used u.pages (subst (Absent p) a.split h)) in
      record {
        same_root = b.same_root ∙ a.same_root;
        label = λ p h.
            ((b.label p (low p h)).0 ∙ (a.label p h).0, (b.label p (low p h)).1 ∙ (a.label p h).1);
        entry = λ p i h hi e.
            let s = a.entry p i h hi e in b.entry p i (low p h) hi (ap pte_v s ∙ e) ∙ s;
        views = λ m p va lv le pre.
            let h : t.level p ≤ 2 = omega (arith, lv, le) in
            b.views m p va ((a.label p h).0 ∙ lv) le ((a.label p h).1 ∙ pre)
            ∙ a.views m p va lv le pre;
        used = a.used ++ b.used;
        split =
            a.split ∙ (ap (λ r. a.used ++ r) b.split ∙ sym (append_assoc a.used b.used w.pages));
        tables =
            All-append (λ p. w.level p ≤ 2) a.used b.used
              (All-map (λ p. u.level p ≤ 2) (λ p. w.level p ≤ 2) a.used
                (λ p h. omega (arith, h, (b.label p h).0)) a.tables)
              b.tables;
        other = λ p h ab. b.other p (a.other p h ab) (rest p ab);
        kept = λ x h ab. b.kept x (a.other _ h ab) (rest _ ab) ∙ a.kept x h ab;
      }

  -- The PTE that walk() finds where the hardware reads a valid one.
  pub walk_from-Leads :
      (l p va : ℕ) (t : Tree kernel_end)
      → IsTree kernel_end t
      → t.level p ≡ l
      → l ≤ 2
      → t.prefix p ≡ above l va
      → pte_v (view_from t.kmem.mem l p va) ≡ true
      → (leaf : ℕ) × ((walk_from false l p va t.kmem).0 ≡ slot 0 leaf va)
        × (t.level leaf ≡ 0)
        × (t.prefix leaf ≡ above 0 va)
        × Leads t.kmem.mem l p va leaf
  unfolding walk_from
  walk_from-Leads zero p va t v lv le pre h = (p, refl, lv, pre, refl)
  walk_from-Leads (suc l) p va t v lv le pre h =
      elim (Bool-cases (pte_v (t.kmem.mem (slot (suc l) p va)))) [
        | inl valid ↦
            let (cl, cp) = child-slot kernel_end t p l va v lv (omega arith) pre valid in
            let q = pte2pa (t.kmem.mem (slot (suc l) p va)) in
            let (leaf, e, ll, lp, leads) =
              walk_from-Leads l q va t v cl (omega arith) cp (
                subst (λ b. pte_v (if b then view_from t.kmem.mem l q va else 0) ≡ true) valid h) in
            rw valid (leaf, e, ll, lp, (refl, leads))
        | inr bad ↦ absurd (
            ground (
              arith,
              subst
                  (λ b.
                    pte_v (
                      if b
                      then view_from t.kmem.mem l (pte2pa (t.kmem.mem (slot (suc l) p va))) va
                      else 0)
                    ≡ true)
                  bad h,
            ))
      ]

  -- What walk() with alloc gives, from a table of level l on.
  pub record Walks (l p va : ℕ) (t : Tree kernel_end) (r : ℕ × Kmem) : Type 0 where
    pub tree : Tree kernel_end
    pub state : r.1 ≡ tree.kmem
    pub valid : IsTree kernel_end tree
    pub extends : Extends kernel_end t tree
    pub found :
        ((r.0 ≡ 0) × (tree.pages ≡ []))
        ⊎ ((leaf : ℕ) × (r.0 ≡ slot 0 leaf va)
            × (tree.level leaf ≡ 0)
            × (tree.prefix leaf ≡ above 0 va)
            × Leads tree.kmem.mem l p va leaf)

  -- From the walk in a child to the walk in the parent.
  Walks-child :
      (l p q va : ℕ) (t u : Tree kernel_end) (r : ℕ × Kmem)
      → Extends kernel_end t u
      → u.level p ≤ 2
      → pte_v (u.kmem.mem (slot (suc l) p va)) ≡ true
      → pte2pa (u.kmem.mem (slot (suc l) p va)) ≡ q
      → Walks l q va u r
      → Walks (suc l) p va t r
  Walks-child l p q va t u r ext low valid to w =
      let keep = w.extends.entry p (px (suc l) va) low (omega arith) valid in
      record {
        tree = w.tree;
        state = w.state;
        valid = w.valid;
        extends = Extends-trans t u w.tree ext w.extends;
        found = elim w.found [
          | inl none ↦ inl none
          | inr (leaf, e, ll, lp, leads) ↦ inr (
            leaf,
            e,
            ll,
            lp,
            (
              ap pte_v keep ∙ valid,
              subst (λ x. Leads w.tree.kmem.mem l x va leaf) (sym (ap pte2pa keep ∙ to)) leads,
            ),
          )
        ];
      }

  pub walk_from-Walks :
      (l p va : ℕ) (t : Tree kernel_end)
      → IsTree kernel_end t
      → 0 < kernel_end
      → t.level p ≡ l
      → l ≤ 2
      → t.prefix p ≡ above l va
      → Walks l p va t (walk_from true l p va t.kmem)
  unfolding walk_from
  walk_from-Walks zero p va t v pos lv le pre = record {
    tree = t;
    state = refl;
    valid = v;
    extends = Extends-refl t;
    found = inr (p, refl, lv, pre, refl);
  }
  walk_from-Walks (suc l) p va t v pos lv le pre =
      elim (Bool-cases (pte_v (t.kmem.mem (slot (suc l) p va)))) [
        | inl valid ↦
            let (cl, cp) = child-slot kernel_end t p l va v lv (omega arith) pre valid in
            let q = pte2pa (t.kmem.mem (slot (suc l) p va)) in
            rw valid (
              Walks-child l p q va t t _ (Extends-refl t) (omega (arith, lv, le)) valid refl
                (walk_from-Walks l q va t v pos cl (omega arith) cp))
        | inr bad ↦ rw bad (
            grow t.pages refl bad
              (λ u q uv ul up. walk_from-Walks l q va u uv pos ul (omega arith) up))
      ]
    where
      grow :
          (xs : List ℕ)
          → t.pages ≡ xs
          → pte_v (t.kmem.mem (slot (suc l) p va)) ≡ false
          → ((u : Tree kernel_end) (q : ℕ)
              → IsTree kernel_end u
              → u.level q ≡ l
              → u.prefix q ≡ above l va
              → Walks l q va u (walk_from true l q va u.kmem))
          → Walks (suc l) p va t (
              if (kalloc t.kmem).0 == 0
              then (0, (kalloc t.kmem).1)
              else walk_from true l (kalloc t.kmem).0 va (new_table (slot (suc l) p va) t.kmem))
      grow [] e bad sub =
          let out = kalloc_empty kernel_end t.kmem (subst (IsFree kernel_end t.kmem) e v.free) in
          rw out (record {
            tree = t;
            state = refl;
            valid = v;
            extends = Extends-refl t;
            found = inl (refl, e);
          })
      grow (x ∷ xs) e bad sub =
          let small : l < 2 = omega arith in
          let u = grown kernel_end t v pos x xs e p l va lv small pre bad in
          let page = x_page kernel_end t v pos x xs e p l va lv small pre bad in
          let (ul, up) = label_new kernel_end t v pos x xs e p l va lv small pre bad in
          let link = grown_link kernel_end t v pos x xs e p l va lv small pre bad in
          let set : pte_v (pa2pte x + 1) ≡ true = ground arith in
          let got = kalloc_page kernel_end t v pos x xs e p l va lv small pre bad in
          let some_page : ((kalloc t.kmem).0 == 0) ≡ false =
            ne→== _ _ (omega (arith, got, page.above, pos)) in
          let ext = grown-Extends kernel_end t v pos x xs e p l va lv small pre bad in
          rw some_page (
            subst
              (λ y.
                Walks (suc l) p va t (walk_from true l y va (new_table (slot (suc l) p va) t.kmem)))
              (sym got)
              (Walks-child l p x va t u _ ext
                (omega (arith, lv, le, (ext.label p (omega (arith, lv, le))).0))
                (ap pte_v link ∙ set) (ap pte2pa link ∙ pte2pa-pa2pte x page.aligned page.below)
                (sub u x (grown-IsTree kernel_end t v pos x xs e p l va lv small pre bad) ul up)))
