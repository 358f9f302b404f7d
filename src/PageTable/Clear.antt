-- ===== src/PageTable/Clear.antt =====
-- vm.c: a round of the loop of uvmunmap(), which clears a PTE and may give its page back.
use cs3500_os.Base.{
  ℕ, zero, suc, ◌+◌, ◌*◌, ◌/◌, ◌%◌, ◌≤◌, ◌<◌, ◌≡◌, refl, sym, ap, ◌∙◌, Bool, true, false, ◌==◌,
  if◌then◌else◌, List, ◌∷◌, All, Absent, arith, inl, inr, Bool-cases, eq→==, ==→eq, ◌&&◌, ok,
}
use cs3500_os.Kalloc.{Kmem}
use cs3500_os.Kalloc.FreeList.{IsFree, IsPage}
use cs3500_os.PageTable.{pte_v, pte2pa, slot, store, walk_from, maxva, unmap_slot}
use cs3500_os.PageTable.Tree.{Tree, IsTree, view, slot_at, view_page}
use cs3500_os.PageTable.Walk.{walk_from-Leads, walk_from-view}
use cs3500_os.PageTable.Write.{stored, stored-IsTree, update_other}
use cs3500_os.PageTable.Put.{stored-view}
use cs3500_os.PageTable.Swap.{swapped, swapped-IsTree, swapped-view_from, swapped-Leads}
use cs3500_os.PageTable.Map.{inside}

-- The free pages once the page of a PTE is given back.
abbrev pub pushed : Bool → ℕ → List ℕ → List ℕ
pushed do_free pte ys = if do_free && pte_v pte then pte2pa pte ∷ ys else ys

-- The free pages once the pages of the valid PTEs of n pages from a on are given back.
abbrev pub freed : Bool → (ℕ → ℕ) → ℕ → ℕ → List ℕ → List ℕ
freed do_free pte a zero ys = ys
freed do_free pte a (suc n) ys = freed do_free pte (a + 4096) n (pushed do_free (pte a) ys)

abbrev pub cleared : Bool → ℕ → ℕ
cleared hit pte = if hit && pte_v pte then 0 else pte

pub cleared_out : (hit : Bool) (pte : ℕ) → hit ≡ false → cleared hit pte ≡ pte
cleared_out hit pte e = rw e refl

pub cleared_not : (hit : Bool) (pte : ℕ) → pte_v pte ≡ false → cleared hit pte ≡ pte
cleared_not true pte e = rw e refl
cleared_not false pte e = refl

pub cleared_in : (hit : Bool) (pte : ℕ) → hit ≡ true → pte_v pte ≡ true → cleared hit pte ≡ 0
cleared_in hit pte h e = rw (h, e) refl

pushed_not : (f : Bool) (pte : ℕ) (ys : List ℕ) → pte_v pte ≡ false → pushed f pte ys ≡ ys
pushed_not true pte ys e = rw e refl
pushed_not false pte ys e = refl

module _ (kernel_end : ℕ) where
  -- From t to u the PTEs of n pages from a on are cleared.
  pub record Clears (do_free : Bool) (t u : Tree kernel_end) (a n : ℕ) : Type 0 where
    pub valid : IsTree kernel_end u
    pub same_root : u.root ≡ t.root
    pub same_level : (p : ℕ) → u.level p ≡ t.level p
    pub given_back : u.pages ≡ freed do_free (view t.kmem.mem t.root) a n t.pages
    pub views :
        (w : ℕ)
        → w < maxva
        → view u.kmem.mem u.root w ≡ cleared (inside a n w) (view t.kmem.mem t.root w)
    pub kept :
        (x : ℕ)
        → t.level (x / 4096 * 4096) ≡ 3
        → Absent (x / 4096 * 4096) u.pages
        → u.kmem.mem x ≡ t.kmem.mem x

  -- The page may be given back.
  abbrev pub Spare : Tree kernel_end → ℕ → Type 0
  Spare t pa = IsPage kernel_end pa × (t.level pa ≡ 3) × Absent pa t.pages

  module _ (do_free : Bool) (t : Tree kernel_end) (v : IsTree kernel_end t) (a : ℕ)
      (al : a % 4096 ≡ 0) (lt : a < maxva) where
    -- What one round does.
    pub record Round : Type 0 where
      pub tree : Tree kernel_end
      pub runs :
          unmap_slot kernel_end do_free (walk_from false 2 t.root a t.kmem).0 t.kmem ≡ ok tree.kmem
      pub clears : Clears do_free t tree a 1

    pub inside_one : (w : ℕ) → inside a 1 w ≡ (w / 4096 == a / 4096)
    inside_one w = ground (arith, al)

    -- No valid PTE
    pub round_empty : pte_v (view t.kmem.mem t.root a) ≡ false → Round
    unfolding unmap_slot
    round_empty bad = record {
      tree = t;
      runs =
          (let (_, f) = walk_from-view 2 t.root a t.kmem in
            elim f [
              | inl (z, e) ↦ rw (eq→== _ _ z) refl
              | inr e ↦ elim (Bool-cases ((walk_from false 2 t.root a t.kmem).0 == 0)) [
                | inl y ↦ rw y refl
                | inr n ↦ rw (n, ap pte_v (sym e) ∙ bad) refl
              ]
            ]);
      clears = record {
        valid = v;
        same_root = refl;
        same_level = λ p. refl;
        given_back = sym (pushed_not do_free _ t.pages bad);
        views = λ w small. elim (Bool-cases (w / 4096 == a / 4096)) [
          | inl y ↦ sym (
              cleared_not (inside a 1 w) (view t.kmem.mem t.root w)
                (ap pte_v (view_page t.kmem.mem 2 t.root w a (omega arith) (==→eq _ _ y)) ∙ bad))
          | inr n ↦ sym (cleared_out (inside a 1 w) (view t.kmem.mem t.root w) (inside_one w ∙ n))
        ];
        kept = λ x h ab. refl;
      };
    }

    -- A valid PTE, with what the call does outside of the tables before it clears it
    pub round_clear :
        (k : Kmem) (ys : List ℕ)
        → ((x : ℕ) → t.level (x / 4096 * 4096) ≤ 2 → k.mem x ≡ t.kmem.mem x)
        → ((x : ℕ)
            → t.level (x / 4096 * 4096) ≡ 3
            → Absent (x / 4096 * 4096) ys
            → k.mem x ≡ t.kmem.mem x)
        → IsFree kernel_end k ys
        → All (λ p. t.level p ≡ 3) ys
        → ys ≡ pushed do_free (view t.kmem.mem t.root a) t.pages
        → pte_v (view t.kmem.mem t.root a) ≡ true
        → unmap_slot kernel_end do_free (walk_from false 2 t.root a t.kmem).0 t.kmem
          ≡ ok (store k (walk_from false 2 t.root a t.kmem).0 0)
        → Round
    round_clear k ys same keep free apart back valid run =
        let (leaf, at, ll, lp, leads) =
          walk_from-Leads kernel_end 2 t.root a t v v.at_root (omega arith)
            (v.root_prefix ∙ omega (arith, lt)) valid in
        let uv = swapped-IsTree kernel_end t v k ys same free apart in
        let u = swapped kernel_end t v k ys same in
        let leads' =
          swapped-Leads kernel_end t v k ys same 2 t.root a leaf v.at_root (omega arith)
            (v.root_prefix ∙ omega (arith, lt)) leads in
        record {
          tree = stored kernel_end u uv leaf a 0;
          runs = run ∙ ap (λ s. ok (store k s 0)) at;
          clears = record {
            valid = stored-IsTree kernel_end u uv leaf a 0 ll lp;
            same_root = refl;
            same_level = λ p. refl;
            given_back = back;
            views = λ w small.
                stored-view kernel_end u uv leaf a 0 ll lp leads' w small
                ∙ (elim (Bool-cases (w / 4096 == a / 4096)) [
                  | inl y ↦ rw y (
                      sym (
                        cleared_in (inside a 1 w) (view t.kmem.mem t.root w) (inside_one w ∙ y) (
                          ap pte_v (view_page t.kmem.mem 2 t.root w a (omega arith) (==→eq _ _ y))
                          ∙ valid)))
                  | inr n ↦ rw n (
                      swapped-view_from kernel_end t v k ys same 2 t.root w v.at_root (omega arith)
                        (v.root_prefix ∙ omega (arith, small))
                      ∙ sym (
                          cleared_out (inside a 1 w) (view t.kmem.mem t.root w) (inside_one w ∙ n)))
                ]);
            kept = λ x h ab.
                update_other k.mem (slot 0 leaf a) 0 x (λ e.
                  let home = slot_at 0 leaf a (v.table leaf (omega (arith, ll))).aligned in
                  absurd (omega (arith, ll, h, ap t.level (ap (λ s. s / 4096 * 4096) e ∙ home))))
                ∙ keep x h ab;
          };
        }
