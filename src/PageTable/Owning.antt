-- ===== src/PageTable/Owning.antt =====
-- vm.c: the pages that uvmunmap() may give back, and one round of its loop.
use cs3500_os.Base.{
  ℕ, zero, suc, ◌+◌, ◌*◌, ◌/◌, ◌%◌, ◌≤◌, ◌<◌, ◌≡◌, ◌≢◌, refl, sym, ap, subst, ◌∙◌, Bool, true,
  false, ◌==◌, if◌then◌else◌, List, ◌∷◌, Absent, arith, inl, inr, Bool-cases, ne→==, ◌>>=◌, ok,
}
use cs3500_os.Kalloc.{kfree}
use cs3500_os.PageTable.{pte_v, pte2pa, walk_from, maxva, unmap_slot}
use cs3500_os.PageTable.Tree.{Tree, IsTree, view}
use cs3500_os.PageTable.Walk.{walk_from-Leads, walk_from-view}
use cs3500_os.PageTable.Swap.{kfree-same}
use cs3500_os.PageTable.Map.{inside}
use cs3500_os.PageTable.Clear.{pushed, freed, Spare, Round, round_empty, round_clear}

pub freed_cong :
    (f : Bool) (g h : ℕ → ℕ) (a n : ℕ) (ys : List ℕ)
    → ((w : ℕ) → a ≤ w → w < a + n * 4096 → g w ≡ h w)
    → freed f g a n ys ≡ freed f h a n ys
freed_cong f g h a zero ys e = refl
freed_cong f g h a (suc n) ys e =
    ap (λ y. freed f g (a + 4096) n (pushed f y ys)) (e a (omega arith) (omega arith))
    ∙ freed_cong f g h (a + 4096) n (pushed f (h a) ys) (λ w lo hi. e w (omega arith) (omega arith))

pub freed-Absent :
    (f : Bool) (g : ℕ → ℕ) (a n p : ℕ) (ys : List ℕ) → Absent p (freed f g a n ys) → Absent p ys
freed-Absent f g a zero p ys h = h
freed-Absent f g a (suc n) p ys h =
    pushed-Absent f (g a) (freed-Absent f g (a + 4096) n p (pushed f (g a) ys) h)
  where
    pushed-Absent : (f : Bool) (pte : ℕ) → Absent p (pushed f pte ys) → Absent p ys
    pushed-Absent false pte q = q
    pushed-Absent true pte q = elim (Bool-cases (pte_v pte)) [
      | inl y ↦ (subst (λ b. Absent p (if b then pte2pa pte ∷ ys else ys)) y q).1
      | inr n ↦ subst (λ b. Absent p (if b then pte2pa pte ∷ ys else ys)) n q
    ]

pub Absent-pushed :
    (f : Bool) (pte p : ℕ) (ys : List ℕ)
    → (pte_v pte ≡ true → pte2pa pte ≢ p)
    → Absent p ys
    → Absent p (pushed f pte ys)
Absent-pushed false pte p ys ne h = h
Absent-pushed true pte p ys ne h = elim (Bool-cases (pte_v pte)) [
  | inl y ↦ rw y (ne y, h)
  | inr n ↦ rw n h
]

module _ (kernel_end : ℕ) where
  -- The pages of the range may be given back, each once.
  pub record Owned (t : Tree kernel_end) (a n : ℕ) : Type 0 where
    pub spare :
        (w : ℕ)
        → w < maxva
        → inside a n w ≡ true
        → pte_v (view t.kmem.mem t.root w) ≡ true
        → Spare kernel_end t (pte2pa (view t.kmem.mem t.root w))
    pub once :
        (w x : ℕ)
        → w < maxva
        → x < maxva
        → inside a n w ≡ true
        → inside a n x ≡ true
        → pte_v (view t.kmem.mem t.root w) ≡ true
        → pte_v (view t.kmem.mem t.root x) ≡ true
        → pte2pa (view t.kmem.mem t.root w) ≡ pte2pa (view t.kmem.mem t.root x)
        → w / 4096 ≡ x / 4096

  pub round :
      (do_free : Bool) (t : Tree kernel_end) (v : IsTree kernel_end t) (a : ℕ) (al : a % 4096 ≡ 0)
      (lt : a < maxva)
      → 0 < kernel_end
      → (do_free ≡ true
          → pte_v (view t.kmem.mem t.root a) ≡ true
          → Spare kernel_end t (pte2pa (view t.kmem.mem t.root a)))
      → Round kernel_end do_free t v a al lt
  unfolding unmap_slot
  round do_free t v a al lt pos own = elim (Bool-cases (pte_v (view t.kmem.mem t.root a))) [
    | inr bad ↦ round_empty kernel_end do_free t v a al lt bad
    | inl valid ↦
        let (leaf, at, ll, lp, leads) =
          walk_from-Leads kernel_end 2 t.root a t v v.at_root (omega arith)
            (v.root_prefix ∙ omega (arith, lt)) valid in
        let some_slot : ((walk_from false 2 t.root a t.kmem).0 == 0) ≡ false =
          ne→== _ _ (omega (arith, at, (v.table leaf (omega (arith, ll))).above, pos)) in
        go do_free some_slot valid (read valid) own
  ]
    where
      read :
          pte_v (view t.kmem.mem t.root a) ≡ true
          → view t.kmem.mem t.root a ≡ t.kmem.mem (walk_from false 2 t.root a t.kmem).0
      read valid =
          let (_, f) = walk_from-view 2 t.root a t.kmem in
          elim f [ inl (z, e) ↦ absurd (ground (arith, ap pte_v e, valid)) | inr e ↦ e ]

      go :
          (f : Bool)
          → ((walk_from false 2 t.root a t.kmem).0 == 0) ≡ false
          → pte_v (view t.kmem.mem t.root a) ≡ true
          → view t.kmem.mem t.root a ≡ t.kmem.mem (walk_from false 2 t.root a t.kmem).0
          → (f ≡ true
              → pte_v (view t.kmem.mem t.root a) ≡ true
              → Spare kernel_end t (pte2pa (view t.kmem.mem t.root a)))
          → Round kernel_end f t v a al lt
      go false there valid e own =
          round_clear kernel_end false t v a al lt t.kmem t.pages (λ x h. refl) (λ x h ab. refl)
            v.free v.apart refl valid (rw (there, sym (ap pte_v e) ∙ valid) refl)
      go true there valid e own =
          let (page, lv, ab) = own refl valid in
          let pa = pte2pa (view t.kmem.mem t.root a) in
          let (k, run, free, same) = kfree-same kernel_end t v pa page lv ab in
          let back : pa ∷ t.pages ≡ pushed true (view t.kmem.mem t.root a) t.pages =
            rw valid refl in
          let run' : kfree kernel_end t.kmem
                (pte2pa (t.kmem.mem (walk_from false 2 t.root a t.kmem).0))
              ≡ ok k =
            ap (λ q. kfree kernel_end t.kmem (pte2pa q)) (sym e) ∙ run in
          round_clear kernel_end true t v a al lt k (pa ∷ t.pages)
            (λ x h. same x (λ q. absurd (omega (arith, h, lv, ap t.level q))))
            (λ x h out. same x (λ q. out.0 (sym q))) free (lv, v.apart) back valid
            (rw (there, sym (ap pte_v e) ∙ valid, run', ◌>>=◌) refl)
