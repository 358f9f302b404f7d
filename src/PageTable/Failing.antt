-- ===== src/PageTable/Failing.antt =====
-- vm.c: a round of the loop of uvmalloc() in which mappages() fails.
use cs3500_os.Base.{
  ℕ, ◌+◌, ◌*◌, ◌/◌, ◌%◌, ◌≤◌, ◌<◌, ◌≡◌, refl, sym, ap, subst, ◌∙◌, true, false, ◌==◌, if◌then◌else◌,
  List, ◌∷◌, Absent, arith, inl, inr, Bool-cases, ◌⊎◌, ok, member,
}
use cs3500_os.Kalloc.{kfree}
use cs3500_os.Kalloc.FreeList.{IsPage}
use cs3500_os.PageTable.{pte_v, pte2pa, maxva}
use cs3500_os.PageTable.Tree.{Tree, IsTree, view}
use cs3500_os.PageTable.Swap.{swapped, swapped-IsTree, swapped-view_from, kfree-same}
use cs3500_os.PageTable.Walk.{Absent-append}
use cs3500_os.PageTable.Map.{inside, Maps}
use cs3500_os.PageTable.Bits.{make_pte-pte_v}
use cs3500_os.PageTable.Fresh.{
  Fresh, taken, taken-view, x_level, x-IsFree, zero_other, member-append, All-member,
}

module _ (kernel_end : ℕ) where
  -- What a state must keep of another for Fresh.
  pub record Keeps (u z : Tree kernel_end) : Type 0 where
    pub valid : IsTree kernel_end z
    pub same_root : z.root ≡ u.root
    pub views : (w : ℕ) → w < maxva → view z.kmem.mem z.root w ≡ view u.kmem.mem u.root w
    pub tables : (p : ℕ) → u.level p ≤ 2 → z.level p ≤ 2
    pub free : (p : ℕ) → member p u.pages ≡ true → (member p z.pages ≡ true) ⊎ (z.level p ≤ 2)
    pub old :
        (p : ℕ)
        → u.level p ≡ 3
        → Absent p u.pages
        → (z.level p ≡ 3)
          × Absent p z.pages
          × ((a : ℕ) → a / 4096 * 4096 ≡ p → z.kmem.mem a ≡ u.kmem.mem a)

  pub Keeps-Fresh :
      (t u z : Tree kernel_end) (o m perm : ℕ)
      → Fresh kernel_end t u o m perm
      → Keeps u z
      → Fresh kernel_end t z o m perm
  Keeps-Fresh t u z o m perm f k =
      let valid : (w : ℕ)
          → w < maxva
          → inside o m w ≡ true
          → pte_v (view u.kmem.mem u.root w) ≡ true =
        (λ w lt y. ap pte_v (f.mapped w lt y) ∙ make_pte-pte_v _ perm) in
      record {
        valid = k.valid;
        same_root = k.same_root ∙ f.same_root;
        owned = record {
          spare = λ w lt y v.
              let (page, lv, ab) = f.owned.spare w lt y (valid w lt y) in
              let (zl, zab, _) = k.old (pte2pa (view u.kmem.mem u.root w)) lv ab in
              rw (k.views w lt) (page, zl, zab);
          once = λ w x lw lx yw yx vw vx e.
              f.owned.once w x lw lx yw yx (valid w lw yw) (valid x lx yx)
                (ap pte2pa (sym (k.views w lw)) ∙ (e ∙ ap pte2pa (k.views x lx)));
        };
        mapped = λ w lt y. rw (k.views w lt) (f.mapped w lt y);
        zeroed = λ w i lt y less.
            let (page, lv, ab) = f.owned.spare w lt y (valid w lt y) in
            let (_, _, same) = k.old (pte2pa (view u.kmem.mem u.root w)) lv ab in
            let al = page.aligned in
            let home : (pte2pa (view u.kmem.mem u.root w) + 8 * i) / 4096 * 4096
                ≡ pte2pa (view u.kmem.mem u.root w) =
              word_home (pte2pa (view u.kmem.mem u.root w)) i al less in
            rw (k.views w lt) (same _ home ∙ f.zeroed w i lt y less);
        outside = λ w lt y. k.views w lt ∙ f.outside w lt y;
        conserved = λ p h. elim (f.conserved p h) [
          | inl free ↦ elim (k.free p free) [ inl still ↦ inl still | inr table ↦ inr (inl table) ]
          | inr (inl table) ↦ inr (inl (k.tables p table))
          | inr (inr (w, lt, y, e)) ↦ inr (inr (w, lt, y, ap pte2pa (k.views w lt) ∙ e))
        ];
        old = λ p lv ab.
            let (ul, uab, same, apart) = f.old p lv ab in
            let (zl, zab, same') = k.old p ul uab in
            (
              zl,
              zab,
              (λ a home. same' a home ∙ same a home),
              λ w lt y e. apart w lt y (ap pte2pa (sym (k.views w lt)) ∙ e),
            );
      }
    where
      word_home : (p i : ℕ) → p % 4096 ≡ 0 → i < 512 → (p + 8 * i) / 4096 * 4096 ≡ p
      word_home p i al h = omega arith

  -- The page x that could not be mapped is given back.
  pub kfree-Keeps :
      (u z : Tree kernel_end) (v : IsTree kernel_end u) (x : ℕ) (xs : List ℕ) (pos : 0 < kernel_end)
      (popped : u.pages ≡ x ∷ xs) (a perm : ℕ)
      → Maps kernel_end (taken kernel_end u v x xs pos popped) z a 0 x perm
      → (y : Tree kernel_end) × (kfree kernel_end z.kmem x ≡ ok y.kmem) × Keeps u y
  kfree-Keeps u z v x xs pos popped a perm g =
      let free = x-IsFree kernel_end u v x xs pos popped in
      let page : IsPage kernel_end x = free.pages.0 in
      let x_absent : Absent x xs = free.distinct.0 in
      let xl : z.level x ≡ 3 = g.grows.other x (x_level kernel_end u v x xs pos popped) x_absent in
      let rest : (p : ℕ) → Absent p xs → Absent p z.pages =
        (λ p ab. Absent-append p g.grows.used z.pages (subst (Absent p) g.grows.split ab)) in
      let (k, run, kf, same) = kfree-same kernel_end z g.valid x page xl (rest x x_absent) in
      let tab : (b : ℕ) → z.level (b / 4096 * 4096) ≤ 2 → k.mem b ≡ z.kmem.mem b =
        (λ b h. same b (λ e. absurd (omega (arith, h, xl, ap z.level e)))) in
      (
        swapped kernel_end z g.valid k (x ∷ z.pages) tab,
        run,
        record {
          valid = swapped-IsTree kernel_end z g.valid k (x ∷ z.pages) tab kf (xl, g.valid.apart);
          same_root = g.grows.same_root;
          views = λ w lt.
              let out : inside a 0 w ≡ false = ground arith in
              swapped-view_from kernel_end z g.valid k (x ∷ z.pages) tab 2 z.root w g.valid.at_root
                (omega arith) (g.valid.root_prefix ∙ omega (arith, lt))
              ∙ (g.views w lt ∙ rw out (taken-view kernel_end u v x xs pos popped w lt));
          tables = g.grows.low;
          free = λ p h. elim (Bool-cases (x == p)) [
            | inl y ↦ inl (rw y refl)
            | inr n ↦
                let still : (if x == p then true else member p xs) ≡ true =
                  subst (λ ys. member p ys ≡ true) popped h in
                let late : member p xs ≡ true =
                  subst (λ b. (if b then true else member p xs) ≡ true) n still in
                elim (member-append p g.grows.used z.pages
                  (subst (λ ys. member p ys ≡ true) g.grows.split late)) [
                    | inl used ↦
                        inr (All-member (λ q. z.level q ≤ 2) p g.grows.used g.grows.tables used)
                    | inr left ↦ inl (rw n left)
                  ]
          ];
          old = λ p lv ab.
              let ab' : Absent p (x ∷ xs) = subst (Absent p) popped ab in
              (
                g.grows.other p lv ab'.1,
                (ab'.0, rest p ab'.1),
                λ b home.
                    same b (λ e. ab'.0 (sym e ∙ home))
                    ∙ (g.grows.kept b (ap u.level home ∙ lv)
                          (subst (λ q. Absent q xs) (sym home) ab'.1)
                        ∙ zero_other kernel_end u v x xs pos popped b (λ e. ab'.0 (sym e ∙ home))),
              );
        },
      )
