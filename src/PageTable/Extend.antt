-- ===== src/PageTable/Extend.antt =====
-- vm.c: a round of the loop of uvmalloc() that succeeds.
use cs3500_os.Base.{
  ℕ, suc, ◌+◌, ◌-◌, ◌*◌, ◌/◌, ◌%◌, ◌≤◌, ◌<◌, ◌≡◌, ◌≢◌, sym, ap, subst, ◌∙◌, true, false, ◌==◌,
  if◌then◌else◌, List, ◌∷◌, Absent, arith, inl, inr, Bool-cases, ==→eq, ◌⊎◌, member,
}
use cs3500_os.Kalloc.{kalloc}
use cs3500_os.Kalloc.FreeList.{IsPage}
use cs3500_os.PageTable.{pte_v, pte2pa, maxva, make_pte}
use cs3500_os.PageTable.Tree.{Tree, view}
use cs3500_os.PageTable.Extends.{memset_page_in}
use cs3500_os.PageTable.Walk.{Absent-append}
use cs3500_os.PageTable.Map.{inside, Maps}
use cs3500_os.PageTable.Clear.{Spare}
use cs3500_os.PageTable.Bits.{make_pte-pte_v, pte2pa-make_pte}
use cs3500_os.PageTable.Fresh.{
  Fresh, taken, taken-view, x_level, x-IsFree, zero_other, member-append, All-member,
}

inside_split :
    (o m w : ℕ)
    → inside o (suc m) w ≡ true
    → ((inside o m w ≡ true) × (inside (o + m * 4096) 1 w ≡ false))
      ⊎ (inside (o + m * 4096) 1 w ≡ true)
inside_split o m w h = elim (Bool-cases (inside (o + m * 4096) 1 w)) [
  | inl y ↦ inr y
  | inr n ↦ inl (ground (arith, h, n), n)
]

module _ (kernel_end : ℕ) (t u z : Tree kernel_end) (o m perm : ℕ)
    (f : Fresh kernel_end t u o m perm) (x : ℕ) (xs : List ℕ) (pos : 0 < kernel_end)
    (popped : u.pages ≡ x ∷ xs) (al : o % 4096 ≡ 0) (hi : o + suc m * 4096 ≤ maxva)
    (small : perm < 1024)
    (g : Maps kernel_end
      (taken kernel_end u f.valid x xs pos popped)
      z
      (o + m * 4096)
      1
      x
      perm) where
  x_page : IsPage kernel_end x
  x_page = (x-IsFree kernel_end u f.valid x xs pos popped).pages.0

  x_absent : Absent x xs
  x_absent = (x-IsFree kernel_end u f.valid x xs pos popped).distinct.0

  rest : (p : ℕ) → Absent p xs → Absent p z.pages
  rest p ab = Absent-append p g.grows.used z.pages (subst (Absent p) g.grows.split ab)

  x_view :
      (w : ℕ)
      → w < maxva
      → inside (o + m * 4096) 1 w ≡ true
      → view z.kmem.mem z.root w ≡ make_pte x perm
  x_view w lt h =
      let off : x + (w / 4096 * 4096 - (o + m * 4096)) ≡ x = ground (arith, h, al) in
      g.views w lt ∙ rw h (ap (λ q. make_pte q perm) off)

  x_pte :
      (w : ℕ) → w < maxva → inside (o + m * 4096) 1 w ≡ true → pte2pa (view z.kmem.mem z.root w) ≡ x
  x_pte w lt h =
      ap pte2pa (x_view w lt h) ∙ pte2pa-make_pte x perm x_page.aligned x_page.below small

  other_view :
      (w : ℕ)
      → w < maxva
      → inside (o + m * 4096) 1 w ≡ false
      → view z.kmem.mem z.root w ≡ view u.kmem.mem u.root w
  other_view w lt h = g.views w lt ∙ rw h (taken-view kernel_end u f.valid x xs pos popped w lt)

  -- A page that is neither free nor a table
  carried :
      (p : ℕ)
      → u.level p ≡ 3
      → Absent p u.pages
      → (z.level p ≡ 3)
        × Absent p z.pages
        × (x ≢ p)
        × ((a : ℕ) → a / 4096 * 4096 ≡ p → z.kmem.mem a ≡ u.kmem.mem a)
  carried p lv ab =
      let ab' : Absent p (x ∷ xs) = subst (Absent p) popped ab in
      (
        g.grows.other p lv ab'.1,
        rest p ab'.1,
        ab'.0,
        λ a home.
            g.grows.kept a (ap u.level home ∙ lv) (subst (λ q. Absent q xs) (sym home) ab'.1)
            ∙ zero_other kernel_end u f.valid x xs pos popped a (λ e. ab'.0 (sym e ∙ home)),
      )

  all-Spare :
      (w : ℕ)
      → w < maxva
      → inside o (suc m) w ≡ true
      → Spare kernel_end z (pte2pa (view z.kmem.mem z.root w))
  all-Spare w lt h = elim (inside_split o m w h) [
    | inl (before, off) ↦
        let e = other_view w lt off in
        let valid : pte_v (view u.kmem.mem u.root w) ≡ true =
          ap pte_v (f.mapped w lt before) ∙ make_pte-pte_v _ perm in
        let (page, lv, ab) = f.owned.spare w lt before valid in
        let (zl, zab, _, _) = carried (pte2pa (view u.kmem.mem u.root w)) lv ab in
        subst (λ q. Spare kernel_end z (pte2pa q)) (sym e) (page, zl, zab)
    | inr here ↦ subst (Spare kernel_end z) (sym (x_pte w lt here)) (
      x_page,
      g.grows.other x (x_level kernel_end u f.valid x xs pos popped) x_absent,
      rest x x_absent,
    )
  ]

  mapped_all :
      (w : ℕ)
      → w < maxva
      → inside o (suc m) w ≡ true
      → view z.kmem.mem z.root w ≡ make_pte (pte2pa (view z.kmem.mem z.root w)) perm
  mapped_all w lt h = elim (inside_split o m w h) [
    | inl (before, off) ↦ rw (other_view w lt off) (f.mapped w lt before)
    | inr here ↦ x_view w lt here ∙ ap (λ q. make_pte q perm) (sym (x_pte w lt here))
  ]

  zeroed_all :
      (w i : ℕ)
      → w < maxva
      → inside o (suc m) w ≡ true
      → i < 512
      → z.kmem.mem (pte2pa (view z.kmem.mem z.root w) + 8 * i) ≡ 0
  zeroed_all w i lt h less = elim (inside_split o m w h) [
    | inl (before, off) ↦
        let valid : pte_v (view u.kmem.mem u.root w) ≡ true =
          ap pte_v (f.mapped w lt before) ∙ make_pte-pte_v _ perm in
        let (page, lv, ab) = f.owned.spare w lt before valid in
        let (_, _, _, same) = carried (pte2pa (view u.kmem.mem u.root w)) lv ab in
        let home : (pte2pa (view u.kmem.mem u.root w) + 8 * i) / 4096 * 4096
            ≡ pte2pa (view u.kmem.mem u.root w) =
          word_home (pte2pa (view u.kmem.mem u.root w)) i page.aligned less in
        ap (λ q. z.kmem.mem (pte2pa q + 8 * i)) (other_view w lt off)
        ∙ (same _ home ∙ f.zeroed w i lt before less)
    | inr here ↦
        let home = word_home x i x_page.aligned less in
        ap (λ q. z.kmem.mem (q + 8 * i)) (x_pte w lt here)
        ∙ (g.grows.kept (x + 8 * i) (ap u.level home ∙ x_level kernel_end u f.valid x xs pos popped)
              (subst (λ q. Absent q xs) (sym home) x_absent)
            ∙ memset_page_in (kalloc u.kmem).1.mem x 0 i less)
  ]
    where
      word_home : (p i : ℕ) → p % 4096 ≡ 0 → i < 512 → (p + 8 * i) / 4096 * 4096 ≡ p
      word_home p i al h = omega arith

  -- The page that was mapped last is no other's.
  x_once : (w : ℕ) → w < maxva → inside o m w ≡ true → x ≢ pte2pa (view u.kmem.mem u.root w)
  x_once w lt before =
      let valid : pte_v (view u.kmem.mem u.root w) ≡ true =
        ap pte_v (f.mapped w lt before) ∙ make_pte-pte_v _ perm in
      let (page, lv, ab) = f.owned.spare w lt before valid in
      (carried (pte2pa (view u.kmem.mem u.root w)) lv ab).2

  once_all :
      (w y : ℕ)
      → w < maxva
      → y < maxva
      → inside o (suc m) w ≡ true
      → inside o (suc m) y ≡ true
      → pte2pa (view z.kmem.mem z.root w) ≡ pte2pa (view z.kmem.mem z.root y)
      → w / 4096 ≡ y / 4096
  once_all w y lw ly hw hy e = elim (inside_split o m w hw) [
    | inl (bw, ow) ↦ elim (inside_split o m y hy) [
      | inl (by, oy) ↦
          f.owned.once w y lw ly bw by (ap pte_v (f.mapped w lw bw) ∙ make_pte-pte_v _ perm)
            (ap pte_v (f.mapped y ly by) ∙ make_pte-pte_v _ perm)
            (ap pte2pa (sym (other_view w lw ow)) ∙ (e ∙ ap pte2pa (other_view y ly oy)))
      | inr here ↦
          absurd (x_once w lw bw (sym (x_pte y ly here) ∙ (sym e ∙ ap pte2pa (other_view w lw ow))))
    ]
    | inr here ↦ elim (inside_split o m y hy) [
      | inl (by, oy) ↦
          absurd (x_once y ly by (sym (x_pte w lw here) ∙ (e ∙ ap pte2pa (other_view y ly oy))))
      | inr there ↦ ground (arith, here, there, al)
    ]
  ]

  wider : (w : ℕ) → inside o m w ≡ true → inside o (suc m) w ≡ true
  wider w h = ground (arith, h)

  conserved_all :
      (p : ℕ)
      → member p t.pages ≡ true
      → (member p z.pages ≡ true)
        ⊎ ((z.level p ≤ 2)
            ⊎ ((w : ℕ) × (w < maxva)
                × (inside o (suc m) w ≡ true)
                × (pte2pa (view z.kmem.mem z.root w) ≡ p)))
  conserved_all p h = elim (f.conserved p h) [
    | inl free ↦ elim (Bool-cases (x == p)) [
      | inl y ↦
          let first : o + m * 4096 < maxva = omega (arith, hi) in
          let here : inside (o + m * 4096) 1 (o + m * 4096) ≡ true = ground arith in
          let all : inside o (suc m) (o + m * 4096) ≡ true = ground arith in
          inr (inr (o + m * 4096, first, all, x_pte (o + m * 4096) first here ∙ ==→eq x p y))
      | inr n ↦
          let still : (if x == p then true else member p xs) ≡ true =
            subst (λ ys. member p ys ≡ true) popped free in
          let late : member p xs ≡ true =
            subst (λ b. (if b then true else member p xs) ≡ true) n still in
          elim (member-append p g.grows.used z.pages
            (subst (λ ys. member p ys ≡ true) g.grows.split late)) [
              | inl used ↦
                  inr (inl (All-member (λ q. z.level q ≤ 2) p g.grows.used g.grows.tables used))
              | inr left ↦ inl left
            ]
    ]
    | inr (inl table) ↦ inr (inl (g.grows.low p table))
    | inr (inr (w, lt, before, e)) ↦
        let off : inside (o + m * 4096) 1 w ≡ false = ground (arith, before) in
        inr (inr (w, lt, wider w before, ap pte2pa (other_view w lt off) ∙ e))
  ]

  old_all :
      (p : ℕ)
      → t.level p ≡ 3
      → Absent p t.pages
      → (z.level p ≡ 3)
        × Absent p z.pages
        × ((a : ℕ) → a / 4096 * 4096 ≡ p → z.kmem.mem a ≡ t.kmem.mem a)
        × ((w : ℕ) → w < maxva → inside o (suc m) w ≡ true → pte2pa (view z.kmem.mem z.root w) ≢ p)
  old_all p lv ab =
      let (ul, uab, same, apart) = f.old p lv ab in
      let (zl, zab, ne, same') = carried p ul uab in
      (
        zl,
        zab,
        (λ a home. same' a home ∙ same a home),
        λ w lt h e. elim (inside_split o m w h) [
          | inl (before, off) ↦ apart w lt before (ap pte2pa (sym (other_view w lt off)) ∙ e)
          | inr here ↦ ne (sym (x_pte w lt here) ∙ e)
        ],
      )

  pub Fresh-next : Fresh kernel_end t z o (suc m) perm
  Fresh-next = record {
    valid = g.valid;
    same_root = g.grows.same_root ∙ f.same_root;
    owned = record {
      spare = λ w lt h valid. all-Spare w lt h;
      once = λ w y lw ly hw hy vw vy e. once_all w y lw ly hw hy e;
    };
    mapped = mapped_all;
    zeroed = zeroed_all;
    outside = λ w lt h.
        let before : inside o m w ≡ false = ground (arith, h) in
        let off : inside (o + m * 4096) 1 w ≡ false = ground (arith, h) in
        other_view w lt off ∙ f.outside w lt before;
    conserved = conserved_all;
    old = old_all;
  }
