-- ===== src/PageTable/Tests.antt =====
-- Runs of the page table functions, and the theorems on a small tree of tables.
use cs3500_os.Base.{
  ◌>>=◌, ℕ, suc, ◌+◌, ◌*◌, ◌/◌, ◌<◌, ◌≡◌, ◌≢◌, refl, sym, ap, ◌∙◌, Bool, true, false, ◌==◌,
  if◌then◌else◌, [], ◌∷◌, arith, inl, inr, Bool-cases, ==→eq, ◌⊎◌, ◌&&◌, ok, panic,
}
use cs3500_os.Kalloc.{kalloc, kfree}
use cs3500_os.Kalloc.FreeList.{IsPage}
use cs3500_os.PageTable.{
  pte_v, pa2pte, make_pte, walkaddr, mappages, uvmunmap, uvmdealloc, alloc_loop, uvmalloc,
}
use cs3500_os.PageTable.Tree.{Tree, IsTree, view, view_page}
use cs3500_os.PageTable.Map.{inside, Mapped, mappages-Mapped}
use cs3500_os.PageTable.Unmap.{Unmapped, uvmunmap-Unmapped}
use cs3500_os.PageTable.Owning.{Owned}
use cs3500_os.PageTable.Rollback.{Restores}
use cs3500_os.PageTable.Shrink.{uvmdealloc-uvmalloc}
use cs3500_os.PageTable.Reads.{user_page, walkaddr-user_page}
use cs3500_os.PageTable.Alloc.{Allocated, uvmalloc-Allocated}

abbrev kernel_end : ℕ
kernel_end = 0x80001000

-- Three tables, which map the page 1 to the page at 0x80005000, and four free pages
abbrev words : ℕ → ℕ
words a =
    if a == 0x80002000
    then pa2pte 0x80003000 + 1
    else if a == 0x80003000
    then pa2pte 0x80004000 + 1
    else if a == 0x80004008
    then make_pte 0x80005000 22
    else if a == 0x80006000
    then 0x80007000
    else if a == 0x80007000
    then 0x80008000
    else if a == 0x80008000
    then 0x80009000
    else 0

abbrev levels : ℕ → ℕ
levels p =
    if p == 0x80002000 then 2 else if p == 0x80003000 then 1 else if p == 0x80004000 then 0 else 3

abbrev tables : Tree kernel_end
tables = record {
  kmem = record { mem = words; freelist = 0x80006000 };
  root = 0x80002000;
  level = levels;
  prefix = λ p. 0;
  pages = 0x80006000 ∷ 0x80007000 ∷ 0x80008000 ∷ 0x80009000 ∷ [];
}

first_entry :
    (p i l : ℕ)
    → levels p ≡ suc l
    → l < 2
    → i < 512
    → pte_v (words (p + 8 * i)) ≡ true
    → ((p ≡ 0x80002000) × (i ≡ 0) × (l ≡ 1)) ⊎ ((p ≡ 0x80003000) × (i ≡ 0) × (l ≡ 0))
first_entry p i l lv lt small valid = elim (Bool-cases (p == 0x80002000)) [
  | inl y ↦
      let e : p ≡ 0x80002000 = ==→eq _ _ y in
      inl (e, ground (arith, e, valid, small), ground (arith, y, lv))
  | inr n ↦ elim (Bool-cases (p == 0x80003000)) [
    | inl y ↦
        let e : p ≡ 0x80003000 = ==→eq _ _ y in
        inr (e, ground (arith, e, valid, small), ground (arith, y, n, lv))
    | inr d ↦ absurd (ground (arith, n, d, lv, lt))
  ]
]

tables-IsTree : IsTree kernel_end tables
tables-IsTree = record {
  at_root = refl;
  root_prefix = refl;
  table = λ p h. record {
    aligned = ground (arith, h);
    above = ground (arith, h);
    below = ground (arith, h);
  };
  child = λ p i l lv lt small valid. elim (first_entry p i l lv lt small valid) [
    | inl (pe, ie, le) ↦ rw (pe, ie, le) (0x80003000, refl, refl, refl)
    | inr (pe, ie, le) ↦ rw (pe, ie, le) (0x80004000, refl, refl, refl)
  ];
  free = record {
    chain = (refl, (refl, (refl, (refl, refl))));
    pages = (
      page_at 6 (ground arith) (ground arith),
      (
        page_at 7 (ground arith) (ground arith),
        (page_at 8 (ground arith) (ground arith), (page_at 9 (ground arith) (ground arith), tt)),
      ),
    );
    distinct = (
      (
        (λ e. absurd (ground (arith, e))),
        ((λ e. absurd (ground (arith, e))), ((λ e. absurd (ground (arith, e))), tt)),
      ),
      (
        ((λ e. absurd (ground (arith, e))), ((λ e. absurd (ground (arith, e))), tt)),
        (((λ e. absurd (ground (arith, e))), tt), (tt, tt)),
      ),
    );
  };
  apart = (refl, (refl, (refl, (refl, tt))));
}
  where
    page_at : (n : ℕ) → 0 < n → n < 32768 → IsPage kernel_end (0x80000000 + n * 4096)
    page_at n lo hi = record { aligned = omega arith; above = omega arith; below = omega arith }

-- The pages 2 and 3 have no PTE, and page 1 has one.
read_two : (w : ℕ) → inside 8192 2 w ≡ true → view words 0x80002000 w ≡ 0
read_two w h = elim (Bool-cases (w / 4096 == 2)) [
  | inl y ↦ view_page words 2 0x80002000 w 8192 (omega arith) (==→eq _ _ y)
  | inr n ↦ view_page words 2 0x80002000 w 12288 (omega arith) (ground (arith, h, n))
]

read_one : (w : ℕ) → inside 4096 1 w ≡ true → view words 0x80002000 w ≡ make_pte 0x80005000 22
read_one w h = view_page words 2 0x80002000 w 4096 (omega arith) (ground (arith, h))

page_one : (w : ℕ) → inside 4096 1 w ≡ true → w / 4096 ≡ 1
page_one w h = ground (arith, h)

tables-Owned : Owned kernel_end tables 4096 1
tables-Owned = record {
  spare = λ w lt h valid. rw (read_one w h) (
    record { aligned = refl; above = ground arith; below = ground arith },
    refl,
    (off 6 (omega arith), (off 7 (omega arith), (off 8 (omega arith), (off 9 (omega arith), tt)))),
  );
  once = λ w x lw lx hw hx vw vx e. page_one w hw ∙ sym (page_one x hx);
}
  where
    off : (n : ℕ) → 5 < n → 0x80000000 + n * 4096 ≢ 0x80005000
    off n h e = absurd (omega arith)

mappages-Mapped_example :
    Mapped kernel_end tables 8192 2 0x81000000 6
      (mappages 0x80002000 8192 (2 * 4096) 0x81000000 6 tables.kmem)
mappages-Mapped_example =
    mappages-Mapped kernel_end tables 8192 2 0x81000000 6 tables-IsTree (ground arith) refl
      (ground arith) (ground arith) (ground arith) (λ w lt h. ap pte_v (read_two w h))

uvmunmap-Unmapped_example :
    Unmapped kernel_end true tables 4096 1 (uvmunmap kernel_end 0x80002000 4096 1 true tables.kmem)
uvmunmap-Unmapped_example =
    uvmunmap-Unmapped kernel_end true tables 4096 1 tables-IsTree (ground arith) refl (ground arith)
      (λ y. tables-Owned)

uvmalloc-Allocated_example :
    Allocated kernel_end tables 8192 2 14000 22
      (uvmalloc kernel_end 0x80002000 5000 14000 4 tables.kmem)
uvmalloc-Allocated_example =
    uvmalloc-Allocated kernel_end tables 5000 14000 4 tables-IsTree (ground arith) (ground arith)
      (ground arith) (ground arith) (λ w lt h. read_two w h)

-- With four free pages, the request for five gives them back in turn.
five_pages : Bool
unfolding uvmalloc alloc_loop mappages uvmdealloc kalloc kfree
five_pages = elim (uvmalloc kernel_end 0x80002000 8192 28672 4 tables.kmem) [
  | ok (sz, k) ↦
      sz == 0
      && (view k.mem 0x80002000 8192 == 0)
      && (view k.mem 0x80002000 20480 == 0)
      && (view k.mem 0x80002000 4096 == make_pte 0x80005000 22)
      && k.freelist == 0x80009000
  | panic ↦ false
]

five_pages-true : five_pages ≡ true
unfolding five_pages
five_pages-true = refl

-- The second page of the process gets the page at 0x80006000, the third the next one.
grown_sz : Bool
unfolding uvmalloc alloc_loop mappages kalloc
grown_sz = elim (uvmalloc kernel_end 0x80002000 5000 14000 4 tables.kmem) [
  | ok (sz, k) ↦
      sz == 14000
      && (view k.mem 0x80002000 8192 == make_pte 0x80006000 22)
      && (view k.mem 0x80002000 12288 == make_pte 0x80007000 22)
      && k.freelist == 0x80008000
  | panic ↦ false
]

grown_sz-true : grown_sz ≡ true
unfolding grown_sz
grown_sz-true = refl

walkaddr-user_page_example :
    walkaddr 0x80002000 5000 tables.kmem ≡ ok (user_page words 0x80002000 5000)
walkaddr-user_page_example = walkaddr-user_page kernel_end tables 5000 tables-IsTree (ground arith)

-- Address 5000 is in the mapped page, and 9000 is not.
walkaddr_pages :
    (walkaddr 0x80002000 5000 tables.kmem ≡ ok 0x80005000)
    × (walkaddr 0x80002000 9000 tables.kmem ≡ ok 0)
unfolding walkaddr
walkaddr_pages = (refl, refl)

uvmdealloc-uvmalloc_example :
    (r : ℕ) × (u : Tree kernel_end) × ((uvmalloc kernel_end 0x80002000 5000 14000 4 tables.kmem
        >>= λ (sz, k). uvmdealloc kernel_end 0x80002000 sz 5000 k)
      ≡ ok (r, u.kmem))
    × Restores kernel_end tables u
uvmdealloc-uvmalloc_example =
    uvmdealloc-uvmalloc kernel_end tables 5000 14000 4 tables-IsTree (ground arith) (ground arith)
      (ground arith) (ground arith) (λ w lt h. read_two w h)
