-- ===== src/PageTable/Rollback.antt =====
-- vm.c: uvmalloc() gives back what it has mapped when memory runs out.
use cs3500_os.Base.{
  ℕ, zero, suc, ◌+◌, ◌-◌, ◌*◌, ◌/◌, ◌%◌, ◌≤◌, ◌<◌, ◌≡◌, ◌≢◌, refl, sym, ap, subst, ◌∙◌, true, ◌==◌,
  List, Absent, arith, inl, inr, Bool-cases, eq→==, ◌⊎◌, ok, member, ◌>>=◌, lt→ltb, gt→leb, le→leb,
}
use cs3500_os.Kalloc.{pg_round_up, pgsize}
use cs3500_os.PageTable.{pte_v, pte2pa, maxva, uvmdealloc, uvmunmap, int_extend}
use cs3500_os.PageTable.Tree.{Tree, IsTree, view, view_page}
use cs3500_os.PageTable.Map.{inside}
use cs3500_os.PageTable.Clear.{pushed, freed, cleared_out, cleared_in, Clears}
use cs3500_os.PageTable.Unmap.{Clears-refl, uvmunmap-Unmapped}
use cs3500_os.PageTable.Owning.{Owned, Absent-pushed}
use cs3500_os.PageTable.Bits.{make_pte-pte_v}
use cs3500_os.PageTable.Fresh.{Fresh}

Absent-freed :
    (g : ℕ → ℕ) (a n p : ℕ) (ys : List ℕ)
    → ((w : ℕ) → a ≤ w → w < a + n * 4096 → pte2pa (g w) ≢ p)
    → Absent p ys
    → Absent p (freed true g a n ys)
Absent-freed g a zero p ys ne h = h
Absent-freed g a (suc n) p ys ne h =
    Absent-freed g (a + 4096) n p (pushed true (g a) ys)
      (λ w lo up. ne w (omega arith) (omega arith))
      (Absent-pushed true (g a) p ys (λ y. ne a (omega arith) (omega arith)) h)

member-pushed :
    (pte p : ℕ) (ys : List ℕ) → member p ys ≡ true → member p (pushed true pte ys) ≡ true
member-pushed pte p ys h = elim (Bool-cases (pte_v pte)) [
  | inr n ↦ rw n h
  | inl y ↦ elim (Bool-cases (pte2pa pte == p)) [ inl e ↦ rw (y, e) refl | inr d ↦ rw (y, d) h ]
]

member-freed :
    (g : ℕ → ℕ) (a n p : ℕ) (ys : List ℕ)
    → member p ys ≡ true
    → member p (freed true g a n ys) ≡ true
member-freed g a zero p ys h = h
member-freed g a (suc n) p ys h =
    member-freed g (a + 4096) n p (pushed true (g a) ys) (member-pushed (g a) p ys h)

-- The page of a valid PTE is among those given back.
freed_has :
    (g : ℕ → ℕ) (a n j : ℕ) (ys : List ℕ)
    → j < n
    → pte_v (g (a + j * 4096)) ≡ true
    → member (pte2pa (g (a + j * 4096))) (freed true g a n ys) ≡ true
freed_has g a zero j ys lt valid = absurd (omega arith)
freed_has g a (suc n) zero ys lt valid =
    let here : a + 0 * 4096 ≡ a = omega arith in
    let valid' : pte_v (g a) ≡ true = ap (λ x. pte_v (g x)) (sym here) ∙ valid in
    ap (λ x. member (pte2pa (g x)) (freed true g a (suc n) ys)) here
    ∙ member-freed g (a + 4096) n (pte2pa (g a)) (pushed true (g a) ys)
        (rw (valid', eq→== (pte2pa (g a)) (pte2pa (g a)) refl) refl)
freed_has g a (suc n) (suc j) ys lt valid =
    let step : a + suc j * 4096 ≡ a + 4096 + j * 4096 = omega arith in
    ap (λ x. member (pte2pa (g x)) (freed true g a (suc n) ys)) step
    ∙ freed_has g (a + 4096) n j (pushed true (g a) ys) (omega arith)
        (ap (λ x. pte_v (g x)) (sym step) ∙ valid)

module _ (kernel_end : ℕ) where
  -- All is as it was, but for free pages that have become tables.
  pub record Restores (t u : Tree kernel_end) : Type 0 where
    pub valid : IsTree kernel_end u
    pub same_root : u.root ≡ t.root
    pub views : (w : ℕ) → w < maxva → view u.kmem.mem u.root w ≡ view t.kmem.mem t.root w
    pub conserved : (p : ℕ) → member p t.pages ≡ true → (member p u.pages ≡ true) ⊎ (u.level p ≤ 2)
    pub old :
        (p : ℕ)
        → t.level p ≡ 3
        → Absent p t.pages
        → (u.level p ≡ 3)
          × Absent p u.pages
          × ((a : ℕ) → a / 4096 * 4096 ≡ p → u.kmem.mem a ≡ t.kmem.mem a)

  pub uvmdealloc-Clears :
      (u : Tree kernel_end) (o m : ℕ)
      → IsTree kernel_end u
      → 0 < kernel_end
      → o % 4096 ≡ 0
      → o + m * 4096 ≤ maxva
      → Owned kernel_end u o m
      → (z : Tree kernel_end) × (uvmdealloc kernel_end u.root (o + m * 4096) o u.kmem
          ≡ ok (o, z.kmem))
        × Clears kernel_end true u z o m
  unfolding uvmdealloc
  uvmdealloc-Clears u o zero v pos al hi own = (
    u,
    rw (le→leb (o + 0 * 4096) o (omega arith)) (ap (λ q. ok (q, u.kmem)) (omega arith)),
    Clears-refl kernel_end true u o v,
  )
  uvmdealloc-Clears u o (suc m) v pos al hi own =
      let (z, e, c) = uvmunmap-Unmapped kernel_end true u o (suc m) v pos al hi (λ y. own) in
      (z, run (suc m) (omega arith) hi z e, c)
    where
      run :
          (n : ℕ)
          → 0 < n
          → o + n * 4096 ≤ maxva
          → (z : Tree kernel_end) → uvmunmap kernel_end u.root o n true u.kmem ≡ ok z.kmem
          → uvmdealloc kernel_end u.root (o + n * 4096) o u.kmem ≡ ok (o, z.kmem)
      run n some le z e =
          let lo : pg_round_up o ≡ o = omega arith in
          let up : pg_round_up (o + n * 4096) ≡ o + n * 4096 = omega arith in
          let pages : (o + n * 4096 - o) / pgsize ≡ n = omega arith in
          let short : int_extend n ≡ n = ground arith in
          rw
            (
              gt→leb (o + n * 4096) o (omega arith),
              lo,
              up,
              lt→ltb o (o + n * 4096) (omega arith),
              pages,
              short,
              e,
              ◌>>=◌,
            )
            refl

  pub Fresh-Restores :
      (t u z : Tree kernel_end) (o m perm : ℕ)
      → Fresh kernel_end t u o m perm
      → o % 4096 ≡ 0
      → o + m * 4096 ≤ maxva
      → ((w : ℕ) → w < maxva → inside o m w ≡ true → view t.kmem.mem t.root w ≡ 0)
      → Clears kernel_end true u z o m
      → Restores t z
  Fresh-Restores t u z o m perm f al hi empty c = record {
    valid = c.valid;
    same_root = c.same_root ∙ f.same_root;
    views = λ w lt. c.views w lt ∙ (elim (Bool-cases (inside o m w)) [
      | inl y ↦
          cleared_in (inside o m w) (view u.kmem.mem u.root w) y (valid w lt y) ∙ sym (empty w lt y)
      | inr n ↦ cleared_out (inside o m w) (view u.kmem.mem u.root w) n ∙ f.outside w lt n
    ]);
    conserved = λ p h. elim (f.conserved p h) [
      | inl free ↦
          inl
            (ap (member p) c.given_back ∙ member-freed (view u.kmem.mem u.root) o m p u.pages free)
      | inr (inl table) ↦ inr (omega (arith, c.same_level p, table))
      | inr (inr (w, lt, y, e)) ↦ inl (ap (member p) c.given_back ∙ has w lt y p e)
    ];
    old = λ p lv ab.
        let (ul, uab, same, apart) = f.old p lv ab in
        let zab : Absent p z.pages = subst (Absent p) (sym c.given_back) (
          Absent-freed (view u.kmem.mem u.root) o m p u.pages
            (λ w lo up. apart w (omega arith) (ground (arith, lo, up))) uab) in
        (
          c.same_level p ∙ ul,
          zab,
          λ a home.
              c.kept a (ap u.level home ∙ ul) (subst (λ q. Absent q z.pages) (sym home) zab)
              ∙ same a home,
        );
  }
    where
      valid : (w : ℕ) → w < maxva → inside o m w ≡ true → pte_v (view u.kmem.mem u.root w) ≡ true
      valid w lt y = ap pte_v (f.mapped w lt y) ∙ make_pte-pte_v _ perm

      has :
          (w : ℕ)
          → w < maxva
          → inside o m w ≡ true
          → (p : ℕ) → pte2pa (view u.kmem.mem u.root w) ≡ p
          → member p (freed true (view u.kmem.mem u.root) o m u.pages) ≡ true
      has w lt y p e =
          let j = (w - o) / 4096 in
          let same : w / 4096 ≡ (o + (w - o) / 4096 * 4096) / 4096 = ground (arith, y, al) in
          let page =
            view_page u.kmem.mem 2 u.root w (o + (w - o) / 4096 * 4096) (omega arith) same in
          subst (λ q. member q (freed true (view u.kmem.mem u.root) o m u.pages) ≡ true)
            (ap pte2pa (sym page) ∙ e)
            (freed_has (view u.kmem.mem u.root) o m ((w - o) / 4096) u.pages (ground (arith, y))
              (ap pte_v (sym page) ∙ valid w lt y))
