-- ===== src/PageTable/Extends.antt =====
-- vm.c: empty tables, and what a tree of tables keeps as it gets more of them.
use cs3500_os.Base.{
  ℕ, zero, suc, ◌+◌, ◌*◌, ◌/◌, ◌%◌, ◌≤◌, ◌<◌, ◌≡◌, ◌≢◌, refl, true, List, ◌++◌, All, Absent, arith,
}
use cs3500_os.Kalloc.{memset_page}
use cs3500_os.PageTable.{px, pte_v}
use cs3500_os.PageTable.Tree.{Tree, view_from, above}

-- An empty table leads nowhere.
pub view_empty :
    (mem : ℕ → ℕ) (l p w : ℕ) → ((i : ℕ) → i < 512 → mem (p + 8 * i) ≡ 0) → view_from mem l p w ≡ 0
view_empty mem zero p w h = h (px 0 w) (omega arith)
view_empty mem (suc l) p w h = rw (h (px (suc l) w) (omega arith)) refl

pub memset_page_out :
    (mem : ℕ → ℕ) (x w a : ℕ) → x % 4096 ≡ 0 → a / 4096 * 4096 ≢ x → memset_page mem x w a ≡ mem a
memset_page_out mem x w a al ne = ground arith

pub memset_page_in : (mem : ℕ → ℕ) (x w i : ℕ) → i < 512 → memset_page mem x w (x + 8 * i) ≡ w
memset_page_in mem x w i h = ground arith

module _ (kernel_end : ℕ) where
  -- The tree with more tables, made of free pages.
  pub record Extends (t t' : Tree kernel_end) : Type 0 where
    pub same_root : t'.root ≡ t.root
    pub label : (p : ℕ) → t.level p ≤ 2 → (t'.level p ≡ t.level p) × (t'.prefix p ≡ t.prefix p)
    pub entry :
        (p i : ℕ)
        → t.level p ≤ 2
        → i < 512
        → pte_v (t.kmem.mem (p + 8 * i)) ≡ true
        → t'.kmem.mem (p + 8 * i) ≡ t.kmem.mem (p + 8 * i)
    pub views :
        (m p w : ℕ)
        → t.level p ≡ m
        → m ≤ 2
        → t.prefix p ≡ above m w
        → view_from t'.kmem.mem m p w ≡ view_from t.kmem.mem m p w
    -- Of the free pages some have become tables.
    pub used : List ℕ
    pub split : t.pages ≡ used ++ t'.pages
    pub tables : All (λ p. t'.level p ≤ 2) used
    -- The other pages are as they were.
    pub other : (p : ℕ) → t.level p ≡ 3 → Absent p t.pages → t'.level p ≡ 3
    pub kept :
        (a : ℕ)
        → t.level (a / 4096 * 4096) ≡ 3
        → Absent (a / 4096 * 4096) t.pages
        → t'.kmem.mem a ≡ t.kmem.mem a
