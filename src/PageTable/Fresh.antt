-- ===== src/PageTable/Fresh.antt =====
-- vm.c: the loop of uvmalloc() after some rounds, and what one more round does.
use cs3500_os.Base.{
  ℕ, ◌+◌, ◌*◌, ◌/◌, ◌≤◌, ◌<◌, ◌≡◌, ◌≢◌, refl, ap, subst, ◌∙◌, true, false, ◌==◌, if◌then◌else◌,
  List, [], ◌∷◌, ◌++◌, All, Absent, arith, inl, inr, Bool-cases, ==→eq, ◌⊎◌, member,
}
use cs3500_os.Kalloc.{Kmem, kalloc, memset_page}
use cs3500_os.Kalloc.FreeList.{IsFree}
use cs3500_os.PageTable.{pte2pa, maxva, make_pte}
use cs3500_os.PageTable.Tree.{Tree, IsTree, view}
use cs3500_os.PageTable.Swap.{swapped, swapped-IsTree, swapped-view_from, kalloc-same}
use cs3500_os.PageTable.Map.{inside}
use cs3500_os.PageTable.Owning.{Owned}

pub member-append :
    (p : ℕ) (xs ys : List ℕ)
    → member p (xs ++ ys) ≡ true
    → (member p xs ≡ true) ⊎ (member p ys ≡ true)
member-append p [] ys h = inr h
member-append p (x ∷ xs) ys h = elim (Bool-cases (x == p)) [
  | inl y ↦ inl (rw y refl)
  | inr n ↦
      elim (member-append p xs ys
        (subst (λ b. (if b then true else member p (xs ++ ys)) ≡ true) n h)) [
          | inl here ↦ inl (rw n here)
          | inr there ↦ inr there
        ]
]

pub All-member : (P : ℕ → Type 0) (p : ℕ) (xs : List ℕ) → All P xs → member p xs ≡ true → P p
All-member P p [] h e = absurd (ground (arith, e))
All-member P p (x ∷ xs) (h, hs) e = elim (Bool-cases (x == p)) [
  | inl y ↦ subst P (==→eq x p y) h
  | inr n ↦ All-member P p xs hs (subst (λ b. (if b then true else member p xs) ≡ true) n e)
]

module _ (kernel_end : ℕ) where
  -- Since t, m pages from o on have been mapped to free pages, which are filled with zero bytes.
  pub record Fresh (t u : Tree kernel_end) (o m perm : ℕ) : Type 0 where
    pub valid : IsTree kernel_end u
    pub same_root : u.root ≡ t.root
    pub owned : Owned kernel_end u o m
    pub mapped :
        (w : ℕ)
        → w < maxva
        → inside o m w ≡ true
        → view u.kmem.mem u.root w ≡ make_pte (pte2pa (view u.kmem.mem u.root w)) perm
    pub zeroed :
        (w i : ℕ)
        → w < maxva
        → inside o m w ≡ true
        → i < 512
        → u.kmem.mem (pte2pa (view u.kmem.mem u.root w) + 8 * i) ≡ 0
    pub outside :
        (w : ℕ)
        → w < maxva
        → inside o m w ≡ false
        → view u.kmem.mem u.root w ≡ view t.kmem.mem t.root w
    -- A page that was free is still free, or a table, or mapped in the range.
    pub conserved :
        (p : ℕ)
        → member p t.pages ≡ true
        → (member p u.pages ≡ true)
          ⊎ ((u.level p ≤ 2)
              ⊎ ((w : ℕ) × (w < maxva)
                  × (inside o m w ≡ true)
                  × (pte2pa (view u.kmem.mem u.root w) ≡ p)))
    -- A page that was neither free nor a table is as it was.
    pub old :
        (p : ℕ)
        → t.level p ≡ 3
        → Absent p t.pages
        → (u.level p ≡ 3)
          × Absent p u.pages
          × ((a : ℕ) → a / 4096 * 4096 ≡ p → u.kmem.mem a ≡ t.kmem.mem a)
          × ((w : ℕ) → w < maxva → inside o m w ≡ true → pte2pa (view u.kmem.mem u.root w) ≢ p)

  -- The next free page x is filled with zero bytes.
  module _ (u : Tree kernel_end) (v : IsTree kernel_end u) (x : ℕ) (xs : List ℕ)
      (pos : 0 < kernel_end) (popped : u.pages ≡ x ∷ xs) where
    abbrev pub zero_page : Kmem
    zero_page = record {
      mem = memset_page (kalloc u.kmem).1.mem x 0;
      freelist = (kalloc u.kmem).1.freelist;
    }

    pub x_level : u.level x ≡ 3
    x_level = (subst (λ ys. All (λ p. u.level p ≡ 3) ys) popped v.apart).0

    pub xs_level : All (λ p. u.level p ≡ 3) xs
    xs_level = (subst (λ ys. All (λ p. u.level p ≡ 3) ys) popped v.apart).1

    pub x-IsFree : IsFree kernel_end u.kmem (x ∷ xs)
    x-IsFree = subst (IsFree kernel_end u.kmem) popped v.free

    pub zero_other : (a : ℕ) → a / 4096 * 4096 ≢ x → zero_page.mem a ≡ u.kmem.mem a
    zero_other = (kalloc-same kernel_end u v x xs pos popped).2

    pub zero_tables : (a : ℕ) → u.level (a / 4096 * 4096) ≤ 2 → zero_page.mem a ≡ u.kmem.mem a
    zero_tables a h = zero_other a (λ e. absurd (omega (arith, h, x_level, ap u.level e)))

    abbrev pub taken : Tree kernel_end
    taken = swapped kernel_end u v zero_page xs zero_tables

    pub taken-IsTree : IsTree kernel_end taken
    taken-IsTree =
        swapped-IsTree kernel_end u v zero_page xs zero_tables
          (kalloc-same kernel_end u v x xs pos popped).1 xs_level

    pub taken-view : (w : ℕ) → w < maxva → view zero_page.mem u.root w ≡ view u.kmem.mem u.root w
    taken-view w lt =
        swapped-view_from kernel_end u v zero_page xs zero_tables 2 u.root w v.at_root (omega arith)
          (v.root_prefix ∙ omega (arith, lt))
