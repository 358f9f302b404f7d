-- ===== src/Mmap/Unmap.antt =====
-- labs/week7/EE23B102/xv6-riscv/kernel/sysfile.c: sys_munmap(), with the part of uvmunmap() and walk()
-- of vm.c that it uses. Calls of writei() and kfree() are recorded in their order. Of fileclose() the
-- reference count is modelled; what it does to a file that nobody references any more is not.
pub mod Cleared
pub mod Returns
pub mod Shrunk
use cs3500_os.Base.{
  ℕ, zero, suc, ◌+◌, ◌-◌, ◌*◌, ◌/◌, ◌%◌, ◌^◌, Bool, true, false, ◌&&◌, ◌||◌, not, List, [], ◌∷◌,
  ◌++◌, Option, none, some, ltb, leb, ◌==◌, if◌then◌else◌, set, update, Outcome, ok, panic, ◌>>=◌,
  ◌>>◌, panic_if,
}
use cs3500_os.SharedTab.{Buckets, shared_decref}
use cs3500_os.Kalloc.{pgsize}
pub use cs3500_os.PageTable.{pte_v, pte2pa, maxva}
use cs3500_os.Mmap.{Vma, Space, Files, prot_write, map_shared, failed, has, sign_extend}

-- PGROUNDDOWN
abbrev pub pg_round_down : ℕ → ℕ
pg_round_down a = a / pgsize * pgsize

-- One call of writei(f->ip, 0, pa, file_off, bytes).
pub record Write : Type 0 where
  pub pa : ℕ
  pub file_off : ℕ
  pub bytes : ℕ

-- v->offset + (a - v->start)
abbrev pub file_offset : Vma → ℕ → ℕ
file_offset v a = (v.offset + (2 ^ 64 + a - v.start)) % 2 ^ 64

abbrev pub is_shared : Vma → Bool
is_shared v = has v.flags map_shared && not (v.file == 0)

-- The loop that writes a shared mapping back, from the page a on; `size` is f->ip->size.
pub write_back : (ℕ → ℕ) → Vma → ℕ → ℕ → ℕ → ℕ → List Write
write_back pte v size unmap_end zero a = []
write_back pte v size unmap_end (suc n) a =
    let rest = write_back pte v size unmap_end n (a + pgsize) in
    let off = file_offset v a in
    let bytes = if ltb unmap_end (a + pgsize) then unmap_end - a else pgsize in
    let max_bytes = (size + 2 ^ 64 - off) % 2 ^ 64 % 2 ^ 32 in
    if pte_v (pte (a / pgsize))
    then (if max_bytes == 0
        then []
        else record {
          pa = pte2pa (pte (a / pgsize));
          file_off = off;
          bytes = if ltb max_bytes bytes then max_bytes else bytes;
        }
          ∷ rest)
    else rest

-- What unmapping changes: the page table, the shared table and the pages given to kfree().
pub record Pages : Type 0 where
  pub pte : ℕ → ℕ
  pub tab : Buckets
  pub freed : List ℕ

-- uvmunmap(p->pagetable, a, 1, do_free) where walk() finds a valid PTE
unfoldable pub uvmunmap_one : ℕ → Bool → Pages → Outcome Pages
uvmunmap_one a do_free s =
    panic_if (not (a % pgsize == 0))
    >> ok (record s {
      pte = update s.pte (a / pgsize) 0;
      freed = if do_free then s.freed ++ pte2pa (s.pte (a / pgsize)) ∷ [] else s.freed;
    })

-- The body of the unmapping loop at the address i; `ip` is v->file->ip. The panic is that of walk(), which
-- the loop that writes back shares: where it meets an address from MAXVA up, so does this loop behind it.
unfoldable pub unmap_at : Vma → ℕ → ℕ → Pages → Outcome Pages
unfolding uvmunmap_one
unmap_at v ip i s =
    panic_if (leb maxva i)
    >> (if pte_v (s.pte (i / pgsize))
        then (if is_shared v
            then (let (tab', pages) = shared_decref s.tab ip (file_offset v i) in
                uvmunmap_one i false (record s { tab = tab'; freed = s.freed ++ pages }))
            else uvmunmap_one i true s)
        else ok s)

-- for(i = ...; n rounds; i += PGSIZE)
unfoldable pub unmap_pages : Vma → ℕ → ℕ → ℕ → Pages → Outcome Pages
unmap_pages v ip zero i s = ok s
unmap_pages v ip (suc n) i s = unmap_at v ip i s >>= λ s'. unmap_pages v ip n (i + pgsize) s'

-- The rounds of for(i = lo; i <= hi; i += PGSIZE).
abbrev pub rounds_to : ℕ → ℕ → ℕ
rounds_to lo hi = if leb lo hi then (hi - lo) / pgsize + 1 else 0

-- The first valid area that holds the range.
pub find_area : ℕ → ℕ → List Vma → Option (ℕ × Vma)
find_area lo hi [] = none
find_area lo hi (v ∷ vs) =
    if v.valid && (leb v.start lo && leb hi v.end)
    then some (0, v)
    else (elim (find_area lo hi vs) [ none ↦ none | some (i, w) ↦ some (suc i, w) ])

-- fileclose(), but for what follows the last reference; a null file faults.
pub fileclose : Files → ℕ → Outcome Files
fileclose fs f =
    panic_if (f == 0)
    >> (panic_if (ltb (fs.ref f) 1) >> ok (record fs { ref = update fs.ref f (fs.ref f - 1) }))

-- The area that is left, and the open files.
pub shrink : Files → Vma → ℕ → ℕ → Outcome (Vma × Files)
unfolding fileclose
shrink fs v lo hi =
    if v.start == lo && v.end == hi
    then (fileclose fs v.file >>= λ fs'. ok (record v { valid = false; len = 0 }, fs'))
    else if v.start == lo && ltb hi v.end
    then ok (
      record v {
        offset = (v.offset + (hi - lo)) % 2 ^ 64;
        start = hi;
        len = (v.end - hi) % 2 ^ 32;
      },
      fs,
    )
    else if v.end == hi && ltb v.start lo
    then ok (record v { end = lo; len = (lo - v.start) % 2 ^ 32 }, fs)
    else ok (v, fs)

pub record Unmapped : Type 0 where
  pub result : ℕ
  pub space : Space
  pub files : Files
  pub tab : Buckets
  pub freed : List ℕ
  pub written : List Write

-- From the change of the area on.
pub finish : Space → Files → ℕ → ℕ → ℕ → Vma → List Write → Pages → Outcome Unmapped
unfolding shrink
finish p fs lo hi i v written s = shrink fs v lo hi >>= λ (v', fs'). ok (record {
  result = 0;
  space = record p { vma = set p.vma i v'; pte = s.pte };
  files = fs';
  tab = s.tab;
  freed = s.freed;
  written = written;
})

-- if((v->flags & MAP_SHARED) && (v->prot & PROT_WRITE) && v->file): the writes of the loop
pub written_back : Space → Files → ℕ → ℕ → Vma → List Write
unfolding write_back
written_back p fs lo hi v =
    if is_shared v && has v.prot prot_write
    then write_back p.pte v (fs.size v.file) hi ((pg_round_down hi - pg_round_down lo) / pgsize)
        (pg_round_down lo)
    else []

pub munmap_area : Space → Files → Buckets → ℕ → ℕ → ℕ → Vma → Outcome Unmapped
unfolding written_back unmap_pages finish
munmap_area p fs tab lo hi i v =
    unmap_pages v (fs.ip v.file) (rounds_to lo hi) lo
      (record { pte = p.pte; tab = tab; freed = [] })
    >>= λ s. finish p fs lo hi i v (written_back p fs lo hi v) s

pub sys_munmap : Space → Files → Buckets → ℕ → ℕ → Outcome Unmapped
unfolding find_area munmap_area
sys_munmap p fs tab addr len =
    let hi = (addr + sign_extend len) % 2 ^ 64 in
    let unchanged : Unmapped = record {
      result = failed;
      space = p;
      files = fs;
      tab = tab;
      freed = [];
      written = [];
    } in
    if len == 0 then ok unchanged else elim (find_area addr hi p.vma) [
      | none ↦ ok unchanged
      | some (i, v) ↦ munmap_area p fs tab addr hi i v
    ]
