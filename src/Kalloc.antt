-- ===== src/Kalloc.antt =====
-- labs/week7/EE23B102/xv6-riscv/kernel/kalloc.c: the allocator of physical pages.
-- Memory is a function from the address of an 8-byte word to the word; the free list is threaded
-- through the free pages, as in the source. A null pointer is 0. `kernel_end` is the linker's `end`.
pub mod FreeList
mod Tests
use cs3500_os.Base.{
  ℕ, zero, suc, ◌+◌, ◌-◌, ◌*◌, ◌/◌, ◌%◌, ◌^◌, Bool, true, false, ◌&&◌, ◌||◌, not, ltb, leb, ◌==◌,
  if◌then◌else◌, update, Outcome, ok, panic, ◌>>=◌,
}

abbrev pub pgsize : ℕ
pgsize = 4096

abbrev pub kernbase : ℕ
kernbase = 0x80000000

abbrev pub phystop : ℕ
phystop = 0x80000000 + 128 * 1024 * 1024

-- PGROUNDUP on a uint64
abbrev pub pg_round_up : ℕ → ℕ
pg_round_up a = (a + pgsize - 1) % 2 ^ 64 / pgsize * pgsize

-- struct kmem, with the memory that the list lives in
pub record Kmem : Type 0 where
  pub mem : ℕ → ℕ
  pub freelist : ℕ

-- memset(pa, c, PGSIZE), where `word` is eight copies of the byte c
abbrev pub memset_page : (ℕ → ℕ) → ℕ → ℕ → ℕ → ℕ
memset_page mem pa word a = if leb pa a && ltb a (pa + pgsize) then word else mem a

module _ (kernel_end : ℕ) where
  unfoldable pub kfree : Kmem → ℕ → Outcome Kmem
  kfree k pa =
      if not (pa % pgsize == 0) || (ltb pa kernel_end || leb phystop pa)
      then panic
      else ok (record {
        mem = update (memset_page k.mem pa 0x0101010101010101) pa k.freelist;
        freelist = pa;
      })

  -- the loop of freerange, on fuel
  pub free_pages : ℕ → ℕ → ℕ → Kmem → Outcome Kmem
  free_pages zero p pa_end k = panic
  free_pages (suc fuel) p pa_end k = elim (leb (p + pgsize) pa_end) [
    | true ↦ kfree k p >>= λ k'. free_pages fuel (p + pgsize) pa_end k'
    | false ↦ ok k
  ]

  pub freerange : ℕ → ℕ → Kmem → Outcome Kmem
  unfolding free_pages
  freerange pa_start pa_end = free_pages (pa_end / pgsize + 1) (pg_round_up pa_start) pa_end

  pub kinit : (ℕ → ℕ) → Outcome Kmem
  unfolding freerange
  kinit mem = freerange kernel_end phystop (record { mem = mem; freelist = 0 })

unfoldable pub kalloc : Kmem → ℕ × Kmem
kalloc k =
    let r = k.freelist in
    if r == 0
    then (0, k)
    else (r, record { mem = memset_page k.mem r 0x0505050505050505; freelist = k.mem r })
