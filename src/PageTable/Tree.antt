-- ===== src/PageTable/Tree.antt =====
-- vm.c: what the hardware reads in a page table, and the tree of tables that the kernel keeps.
use cs3500_os.Base.{
  ℕ, zero, suc, ◌+◌, ◌*◌, ◌/◌, ◌%◌, ◌^◌, ◌≤◌, ◌<◌, ◌≡◌, ◌≢◌, sym, ap, ◌∙◌, true, if◌then◌else◌,
  List, All, arith,
}
use cs3500_os.Kalloc.{Kmem, phystop}
use cs3500_os.Kalloc.FreeList.{IsFree, IsPage}
use cs3500_os.PageTable.{px, pte2pa, pa2pte, pte_v, slot}

-- The leaf PTE that the hardware finds for va, from a table of a level on; 0 where a table is missing.
abbrev pub view_from : (ℕ → ℕ) → ℕ → ℕ → ℕ → ℕ
view_from mem zero table va = mem (slot 0 table va)
view_from mem (suc level) table va =
    if pte_v (mem (slot (suc level) table va))
    then view_from mem level (pte2pa (mem (slot (suc level) table va))) va
    else 0

-- The leaf PTE of va
abbrev pub view : (ℕ → ℕ) → ℕ → ℕ → ℕ
view mem root va = view_from mem 2 root va

-- The bits of va above the indexes of a level and of those below it.
abbrev pub above : ℕ → ℕ → ℕ
above level va = va / 2 ^ (21 + 9 * level)

pub above_px :
    (level va : ℕ) → level < 2 → above level va ≡ above (suc level) va * 512 + px (suc level) va
above_px zero va h = omega arith
above_px (suc zero) va h = omega arith
above_px (suc (suc n)) va h = absurd (omega arith)

pub slot_at : (level table va : ℕ) → table % 4096 ≡ 0 → slot level table va / 4096 * 4096 ≡ table
slot_at level table va h = omega arith

pub pte2pa-pa2pte : (q : ℕ) → q % 4096 ≡ 0 → q < phystop → pte2pa (pa2pte q + 1) ≡ q
pte2pa-pa2pte q a b = omega arith

pub slot_inj :
    (level t t' va va' : ℕ)
    → t % 4096 ≡ 0
    → t' % 4096 ≡ 0
    → slot level t va ≡ slot level t' va'
    → (t ≡ t') × (px level va ≡ px level va')
slot_inj level t t' va va' a b e = (omega arith, omega arith)

module _ (kernel_end : ℕ) where
  -- The memory with a label for each of its pages: a table has the level of its entries, and the
  -- bits of the addresses that it serves; any other page has level 3.
  pub record Tree : Type 0 where
    pub kmem : Kmem
    pub root : ℕ
    pub level : ℕ → ℕ
    pub prefix : ℕ → ℕ
    pub pages : List ℕ

  pub record IsTree (t : Tree) : Type 0 where
    pub at_root : t.level t.root ≡ 2
    pub root_prefix : t.prefix t.root ≡ 0
    pub table : (p : ℕ) → t.level p ≤ 2 → IsPage kernel_end p
    pub child :
        (p i l : ℕ)
        → t.level p ≡ suc l
        → l < 2
        → i < 512
        → pte_v (t.kmem.mem (p + 8 * i)) ≡ true
        → (q : ℕ) × (t.kmem.mem (p + 8 * i) ≡ pa2pte q + 1)
          × (t.level q ≡ l)
          × (t.prefix q ≡ t.prefix p * 512 + i)
    pub free : IsFree kernel_end t.kmem t.pages
    pub apart : All (λ p. t.level p ≡ 3) t.pages

  -- Steps to the child.
  pub child-slot :
      (t : Tree) (p l va : ℕ)
      → IsTree t
      → t.level p ≡ suc l
      → l < 2
      → t.prefix p ≡ above (suc l) va
      → pte_v (t.kmem.mem (slot (suc l) p va)) ≡ true
      → (t.level (pte2pa (t.kmem.mem (slot (suc l) p va))) ≡ l)
        × (t.prefix (pte2pa (t.kmem.mem (slot (suc l) p va))) ≡ above l va)
  child-slot t p l va v lv lt pre valid =
      let (q, e, ql, qp) = v.child p (px (suc l) va) l lv lt (omega arith) valid in
      let page = v.table q (omega (arith, ql)) in
      let back : pte2pa (t.kmem.mem (slot (suc l) p va)) ≡ q =
        ap pte2pa e ∙ pte2pa-pa2pte q page.aligned page.below in
      rw back (ql, qp ∙ (ap (λ x. x * 512 + px (suc l) va) pre ∙ sym (above_px l va lt)))

  -- Pages of different labels are different, and so are their words.
  pub slot_ne :
      (t : Tree) (p q l m va w : ℕ)
      → IsTree t
      → t.level p ≡ l
      → t.level q ≡ m
      → l ≤ 2
      → m ≤ 2
      → l ≢ m
      → slot l p va ≢ slot m q w
  slot_ne t p q l m va w v lv lw a b ne e =
      let x = v.table p (omega (arith, lv)) in
      let y = v.table q (omega (arith, lw)) in
      let same : p ≡ q =
        sym (slot_at l p va x.aligned) ∙ (ap (λ s. s / 4096 * 4096) e ∙ slot_at m q w y.aligned) in
      ne (sym lv ∙ (ap t.level same ∙ lw))

-- The walk from a table of a level on finds the leaf table p.
abbrev pub Leads : (ℕ → ℕ) → ℕ → ℕ → ℕ → ℕ → Type 0
Leads mem zero table va p = table ≡ p
Leads mem (suc level) table va p =
    (pte_v (mem (slot (suc level) table va)) ≡ true)
    × Leads mem level (pte2pa (mem (slot (suc level) table va))) va p

pub px_page : (l va w : ℕ) → l ≤ 2 → va / 4096 ≡ w / 4096 → px l va ≡ px l w
px_page zero va w h e = omega arith
px_page (suc zero) va w h e = omega arith
px_page (suc (suc zero)) va w h e = omega arith
px_page (suc (suc (suc n))) va w h e = absurd (omega arith)

pub view_page :
    (mem : ℕ → ℕ) (l p va w : ℕ)
    → l ≤ 2
    → va / 4096 ≡ w / 4096
    → view_from mem l p va ≡ view_from mem l p w
view_page mem zero p va w le e = ap (λ i. mem (p + 8 * i)) (px_page 0 va w le e)
view_page mem (suc l) p va w le e =
    let same : slot (suc l) p va ≡ slot (suc l) p w =
      ap (λ i. p + 8 * i) (px_page (suc l) va w le e) in
    ap (λ s. if pte_v (mem s) then view_from mem l (pte2pa (mem s)) va else 0) same
    ∙ ap (λ y. if pte_v (mem (slot (suc l) p w)) then y else 0)
        (view_page mem l (pte2pa (mem (slot (suc l) p w))) va w (omega arith) e)
