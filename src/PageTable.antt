-- ===== src/PageTable.antt =====
-- labs/week7/EE23B102/xv6-riscv/kernel/vm.c: the Sv39 page tables of walk() and of the functions on it,
-- in the memory of the page allocator. A page table is the address of its page; its PTE of index i is the
-- word at 8 * i. A null pointer is 0, and the int -1 that a call returns is false.
pub mod Tree
mod Bits
pub mod Write
pub mod Extends
pub mod Grow
pub mod Walk
pub mod Put
pub mod Map
pub mod Swap
pub mod Clear
pub mod Owning
pub mod Unmap
pub mod Fresh
pub mod Extend
pub mod Rollback
pub mod Failing
pub mod Runs
pub mod Alloc
pub mod Shrink
pub mod Reads
mod Tests
use cs3500_os.Base.{
  ℕ, zero, suc, ◌+◌, ◌-◌, ◌*◌, ◌/◌, ◌%◌, ◌^◌, Bool, true, false, ◌&&◌, ◌||◌, not, ltb, leb, ◌==◌,
  bit_or, if◌then◌else◌, update, Outcome, ok, panic, ◌>>=◌, ◌>>◌, panic_if,
}
use cs3500_os.Kalloc.{Kmem, kalloc, kfree, memset_page, pgsize, pg_round_up}

abbrev pub maxva : ℕ
maxva = 2 ^ 38

-- PX(level, va)
abbrev pub px : ℕ → ℕ → ℕ
px level va = va / 2 ^ (12 + 9 * level) % 512

abbrev pub pte2pa : ℕ → ℕ
pte2pa pte = pte / 2 ^ 10 * 2 ^ 12 % 2 ^ 64

abbrev pub pa2pte : ℕ → ℕ
pa2pte pa = pa / 2 ^ 12 * 2 ^ 10 % 2 ^ 64

-- pte & PTE_V
abbrev pub pte_v : ℕ → Bool
pte_v pte = not (pte % 2 == 0)

-- pte & PTE_U
abbrev pub pte_u : ℕ → Bool
pte_u pte = not (pte / 2 ^ 4 % 2 == 0)

-- PA2PTE(pa) | perm | PTE_V
abbrev pub make_pte : ℕ → ℕ → ℕ
make_pte pa perm = bit_or (bit_or (pa2pte pa) perm) 1

-- &pagetable[PX(level, va)]
abbrev pub slot : ℕ → ℕ → ℕ → ℕ
slot level table va = table + 8 * px level va

-- kalloc() of a table that is found, memset() of it, and the store to the PTE that leads to it.
abbrev pub new_table : ℕ → Kmem → Kmem
new_table pte k =
    let (page, k') = kalloc k in
    record {
      mem = update (memset_page k'.mem page 0) pte (pa2pte page + 1);
      freelist = k'.freelist;
    }

-- The loop of walk() at a level, and behind it.
pub walk_from : Bool → ℕ → ℕ → ℕ → Kmem → ℕ × Kmem
walk_from alloc zero table va k = (slot 0 table va, k)
walk_from alloc (suc level) table va k =
    let pte = k.mem (slot (suc level) table va) in
    if pte_v pte
    then walk_from alloc level (pte2pa pte) va k
    else if not alloc
    then (0, k)
    else if (kalloc k).0 == 0
    then (0, (kalloc k).1)
    else walk_from alloc level (kalloc k).0 va (new_table (slot (suc level) table va) k)

pub walk : ℕ → ℕ → Bool → Kmem → Outcome (ℕ × Kmem)
unfolding walk_from
walk root va alloc k = panic_if (leb maxva va) >> ok (walk_from alloc 2 root va k)

-- *pte = v
abbrev pub store : Kmem → ℕ → ℕ → Kmem
store k a v = record { mem = update k.mem a v; freelist = k.freelist }

pub walkaddr : ℕ → ℕ → Kmem → Outcome ℕ
unfolding walk
walkaddr root va k =
    if leb maxva va
    then ok 0
    else walk root va false k >>= λ (pte, k'). ok (
        if pte == 0
        then 0
        else if not (pte_v (k'.mem pte))
        then 0
        else if not (pte_u (k'.mem pte))
        then 0
        else pte2pa (k'.mem pte))

-- The loop of mappages(), on fuel.
pub map_loop : ℕ → ℕ → ℕ → ℕ → ℕ → ℕ → Kmem → Outcome (Bool × Kmem)
unfolding walk
map_loop zero root a last pa perm k = panic
map_loop (suc fuel) root a last pa perm k = walk root a true k >>= λ (pte, k'). elim (pte == 0) [
  | true ↦ ok (false, k')
  | false ↦ elim (pte_v (k'.mem pte)) [
    | true ↦ panic
    | false ↦
        let k'' = store k' pte (make_pte pa perm) in
        elim (a == last) [
          | true ↦ ok (true, k'')
          | false ↦
              map_loop fuel root ((a + pgsize) % 2 ^ 64) last ((pa + pgsize) % 2 ^ 64) perm k''
        ]
  ]
]

pub mappages : ℕ → ℕ → ℕ → ℕ → ℕ → Kmem → Outcome (Bool × Kmem)
unfolding map_loop
mappages root va size pa perm k =
    panic_if (not (va % pgsize == 0))
    >> panic_if (not (size % pgsize == 0))
    >> panic_if (size == 0)
    >> map_loop (size / pgsize) root va ((va + size - pgsize) % 2 ^ 64) pa perm k

pub uvmcreate : Kmem → ℕ × Kmem
uvmcreate k =
    let (page, k') = kalloc k in
    if page == 0
    then (0, k')
    else (page, record { mem = memset_page k'.mem page 0; freelist = k'.freelist })

-- An int, as the call of uvmunmap() extends it to a uint64.
abbrev pub int_extend : ℕ → ℕ
int_extend n = if ltb (n % 2 ^ 32) (2 ^ 31) then n % 2 ^ 32 else n % 2 ^ 32 + (2 ^ 64 - 2 ^ 32)

-- pte & ~PTE_U
abbrev pub without_u : ℕ → ℕ
without_u pte = if pte_u pte then pte - 2 ^ 4 else pte

pub uvmclear : ℕ → ℕ → Kmem → Outcome Kmem
unfolding walk
uvmclear root va k = walk root va false k >>= λ (pte, k').
    panic_if (pte == 0) >> ok (store k' pte (without_u (k'.mem pte)))

module _ (kernel_end : ℕ) where
  -- The body of the loop of uvmunmap() at a PTE.
  pub unmap_slot : Bool → ℕ → Kmem → Outcome Kmem
  unmap_slot do_free pte k =
      if pte == 0
      then ok k
      else if not (pte_v (k.mem pte))
      then ok k
      else if do_free
      then kfree kernel_end k (pte2pa (k.mem pte)) >>= (λ k'. ok (store k' pte 0))
      else ok (store k pte 0)

  -- The loop of uvmunmap(), on fuel.
  pub unmap_loop : ℕ → ℕ → ℕ → ℕ → Bool → Kmem → Outcome Kmem
  unfolding walk unmap_slot
  unmap_loop zero root a end_va do_free k = if ltb a end_va then panic else ok k
  unmap_loop (suc fuel) root a end_va do_free k = elim (ltb a end_va) [
    | false ↦ ok k
    | true ↦ walk root a false k >>= λ (pte, k'). unmap_slot do_free pte k' >>= λ k''.
        unmap_loop fuel root ((a + pgsize) % 2 ^ 64) end_va do_free k''
  ]

  pub uvmunmap : ℕ → ℕ → ℕ → Bool → Kmem → Outcome Kmem
  unfolding unmap_loop
  uvmunmap root va npages do_free k =
      panic_if (not (va % pgsize == 0))
      >> unmap_loop npages root va ((va + npages * pgsize) % 2 ^ 64) do_free k

  pub uvmdealloc : ℕ → ℕ → ℕ → Kmem → Outcome (ℕ × Kmem)
  unfolding uvmunmap
  uvmdealloc root oldsz newsz k =
      if leb oldsz newsz
      then ok (oldsz, k)
      else if ltb (pg_round_up newsz) (pg_round_up oldsz)
      then uvmunmap root (pg_round_up newsz)
          (int_extend ((pg_round_up oldsz - pg_round_up newsz) / pgsize)) true k
        >>= (λ k'. ok (newsz, k'))
      else ok (newsz, k)

  -- The loop of uvmalloc() from a on, on fuel.
  pub alloc_loop : ℕ → ℕ → ℕ → ℕ → ℕ → ℕ → Kmem → Outcome (ℕ × Kmem)
  alloc_loop zero root a oldsz newsz xperm k = if ltb a newsz then panic else ok (newsz, k)
  alloc_loop (suc fuel) root a oldsz newsz xperm k = elim (ltb a newsz) [
    | false ↦ ok (newsz, k)
    | true ↦
        let (mem, k') = kalloc k in
        elim (mem == 0) [
          | true ↦ uvmdealloc root a oldsz k' >>= λ (sz, k''). ok (0, k'')
          | false ↦
              mappages root a pgsize mem (bit_or 18 xperm)
                (record { mem = memset_page k'.mem mem 0; freelist = k'.freelist })
              >>= λ (mapped, k2). elim mapped [
                | true ↦ alloc_loop fuel root ((a + pgsize) % 2 ^ 64) oldsz newsz xperm k2
                | false ↦ kfree kernel_end k2 mem >>= λ k3.
                    uvmdealloc root a oldsz k3 >>= λ (sz, k4). ok (0, k4)
              ]
        ]
  ]

  pub uvmalloc : ℕ → ℕ → ℕ → ℕ → Kmem → Outcome (ℕ × Kmem)
  unfolding alloc_loop
  uvmalloc root oldsz newsz xperm k =
      if ltb newsz oldsz
      then ok (oldsz, k)
      else alloc_loop (newsz / pgsize + 1) root (pg_round_up oldsz) (pg_round_up oldsz) newsz xperm
          k
