-- ===== src/Mmap/Fault.antt =====
-- labs/week7/EE23B102/xv6-riscv/kernel/vm.c: vmfault() and lazy_mmap(), which map a page when it is
-- first used. The answers of the code below are arguments: the page that kalloc() gives for the
-- data, the page for a new entry of the shared table, whether readi() succeeds, what other processes do to
-- the shared table while the call waits for readi(), and whether mappages() finds memory for the page
-- table. The page table is private to the process, so it stays the same during that wait. A recorded
-- page was given to kfree().
pub mod Serves
mod Tests
use cs3500_os.Base.{
  ℕ, ◌+◌, ◌-◌, ◌*◌, ◌/◌, ◌%◌, ◌^◌, Bool, true, false, ◌&&◌, not, List, [], ◌∷◌, ◌++◌, Option, none,
  some, ltb, leb, ◌==◌, if◌then◌else◌, update,
}
use cs3500_os.SharedTab.{
  SharedEntry, Buckets, shared_hash, shared_lookup, incref, shared_get_or_create, shared_decref,
}
use cs3500_os.Kalloc.{pgsize}
use cs3500_os.Mmap.{Vma, Space, Files, mmapbase, prot_read, prot_write, has}
use cs3500_os.Mmap.Unmap.{pte_v, pte2pa, pg_round_down, is_shared, file_offset}

pub record Answers : Type 0 where
  pub page : Option ℕ
  pub entry : Option ℕ
  pub read_ok : Bool
  pub others : Buckets → Buckets
  pub table_ok : Bool

-- The value returned (0 for a failure), the page table, the shared table, and the pages freed.
pub record Served : Type 0 where
  pub result : ℕ
  pub pte : ℕ → ℕ
  pub tab : Buckets
  pub freed : List ℕ

-- PTE_V | PTE_U and the permissions: distinct bits, so `|` is `+`.
abbrev pub perm_of : ℕ → ℕ
perm_of prot = 17 + (if has prot prot_read then 2 else 0) + (if has prot prot_write then 4 else 0)

-- PA2PTE(pa) | perm, for a page-aligned pa
abbrev pub leaf : ℕ → ℕ → ℕ
leaf pa perm = pa / 2 ^ 12 * 2 ^ 10 + perm

-- The first valid area that holds the address.
pub find_vma : ℕ → List Vma → Option Vma
find_vma va [] = none
find_vma va (v ∷ vs) =
    if v.valid && (leb v.start va && ltb va v.end) then some v else find_vma va vs

-- e->refcnt++ under the table's lock
pub take_ref : Buckets → ℕ → ℕ → Buckets
take_ref tab ip off = let h = shared_hash ip off in update tab h (incref ip off (tab h))

module _ (ans : Answers) (pte : ℕ → ℕ) (q perm : ℕ) where
  -- A fault on a page of a file that the shared table holds already.
  pub share_old : Buckets → ℕ → ℕ → SharedEntry → Served
  unfolding take_ref
  share_old tab ip off e =
      let tab' = take_ref tab ip off in
      let (back, freed) = shared_decref tab' ip off in
      if pte_v (pte q)
      then record { result = pte2pa (pte q); pte = pte; tab = back; freed = freed }
      else if ans.table_ok
      then record { result = e.pa; pte = update pte q (leaf e.pa perm); tab = tab'; freed = [] }
      else record { result = 0; pte = pte; tab = back; freed = freed }

  -- The page `mem` has been read and goes into the shared table.
  pub share_page : Buckets → ℕ → ℕ → ℕ → Served
  share_page tab ip off mem =
      let (tab', e) = shared_get_or_create tab ip off mem ans.entry in
      let (back, freed) = shared_decref tab' ip off in
      elim e [
        | none ↦ record { result = 0; pte = pte; tab = tab'; freed = mem ∷ [] }
        | some e ↦
            if pte_v (pte q)
            then record { result = pte2pa (pte q); pte = pte; tab = back; freed = freed }
            else if ans.table_ok
            then record { result = mem; pte = update pte q (leaf mem perm); tab = tab'; freed = [] }
            else record { result = 0; pte = pte; tab = back; freed = freed }
      ]

  pub share_new : Buckets → ℕ → ℕ → Served
  unfolding share_page
  share_new tab ip off = elim ans.page [
    | none ↦ record { result = 0; pte = pte; tab = tab; freed = [] }
    | some mem ↦
        if ans.read_ok
        then share_page (ans.others tab) ip off mem
        else record { result = 0; pte = pte; tab = ans.others tab; freed = mem ∷ [] }
  ]

  -- A page of its own, read from the file if there is one.
  pub own_page : Buckets → ℕ → Served
  own_page tab file = elim ans.page [
    | none ↦ record { result = 0; pte = pte; tab = tab; freed = [] }
    | some mem ↦
        let after = if file == 0 then tab else ans.others tab in
        if not (file == 0) && not ans.read_ok
        then record { result = 0; pte = pte; tab = after; freed = mem ∷ [] }
        else if pte_v (pte q)
        then record { result = pte2pa (pte q); pte = pte; tab = after; freed = mem ∷ [] }
        else if ans.table_ok
        then record { result = mem; pte = update pte q (leaf mem perm); tab = after; freed = [] }
        else record { result = 0; pte = pte; tab = after; freed = mem ∷ [] }
  ]

-- A fault in the area v, at the page-aligned address va.
pub serve : Answers → Files → (ℕ → ℕ) → Buckets → Vma → ℕ → Bool → Served
unfolding share_old share_new own_page
serve ans fs pte tab v va read =
    let q = va / pgsize in
    let perm = perm_of v.prot in
    let ip = fs.ip v.file in
    let off = file_offset v va in
    if pte_v (pte q)
    then record { result = pte2pa (pte q); pte = pte; tab = tab; freed = [] }
    else if not (has v.prot (if read then prot_read else prot_write))
    then record { result = 0; pte = pte; tab = tab; freed = [] }
    else if is_shared v
    then elim (shared_lookup tab ip off) [
      | some e ↦ share_old ans pte q perm tab ip off e
      | none ↦ share_new ans pte q perm tab ip off
    ]
    else own_page ans pte q perm tab v.file

pub lazy_mmap : Answers → Files → Space → Buckets → ℕ → Bool → Served
unfolding find_vma serve
lazy_mmap ans fs p tab va read = elim (find_vma va p.vma) [
  | none ↦ record { result = 0; pte = p.pte; tab = tab; freed = [] }
  | some v ↦ serve ans fs p.pte tab v (pg_round_down va) read
]

-- A fault in the heap: PTE_W | PTE_U | PTE_R, and PTE_V from mappages().
pub heap_fault : Answers → Space → Buckets → ℕ → Served
heap_fault ans p tab va =
    let q = va / pgsize in
    let failure : Served = record { result = 0; pte = p.pte; tab = tab; freed = [] } in
    if leb p.sz va then failure else if pte_v (p.pte q) then failure else elim ans.page [
      | none ↦ failure
      | some mem ↦
          if ans.table_ok
          then record { result = mem; pte = update p.pte q (leaf mem 23); tab = tab; freed = [] }
          else record { result = 0; pte = p.pte; tab = tab; freed = mem ∷ [] }
    ]

pub vmfault : Answers → Files → Space → Buckets → ℕ → Bool → Served
unfolding lazy_mmap heap_fault
vmfault ans fs p tab va read =
    if leb mmapbase va && leb va p.cur_vma_start
    then lazy_mmap ans fs p tab va read
    else heap_fault ans p tab va
