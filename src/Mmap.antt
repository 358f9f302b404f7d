-- ===== src/Mmap.antt =====
-- labs/week7/EE23B102/xv6-riscv/kernel: the mapped areas of a process, struct vma_t of proc.h, and
-- sys_mmap() of sysfile.c. A pointer is its address, null is 0; an int argument is its 32-bit pattern.
-- The page table is the function from a page number to the PTE that walk() finds, with 0 where walk()
-- finds none, which is `view` of PageTable.Tree. `panic` also stands for a fault of the kernel: a null dereference or an array index out
-- of range.
pub mod Layout
pub mod Unmap
pub mod Fault
pub mod Process
mod Tests
use Prim.Native.Nat.{bit_and}
use cs3500_os.Base.{
  ℕ, zero, suc, ◌+◌, ◌-◌, ◌*◌, ◌/◌, ◌%◌, ◌^◌, Bool, true, false, ◌&&◌, ◌||◌, not, List, [], ◌∷◌,
  Option, none, some, ltb, leb, ◌==◌, if◌then◌else◌, length, get_elem?, set, update, Outcome, ok,
  panic, ◌>>=◌, ◌>>◌, panic_if,
}
use cs3500_os.Kalloc.{pgsize, pg_round_up}

abbrev pub mmapbase : ℕ
mmapbase = 0x40000000

abbrev pub mmaptop : ℕ
mmaptop = 0x80000000

abbrev pub nvma : ℕ
nvma = 16

abbrev pub prot_read : ℕ
prot_read = 1

abbrev pub prot_write : ℕ
prot_write = 2

abbrev pub map_shared : ℕ
map_shared = 1

-- The uint64 (uint64)-1 that a failed system call returns.
abbrev pub failed : ℕ
failed = 0xffffffffffffffff

-- An int as it is added to a uint64.
abbrev pub sign_extend : ℕ → ℕ
sign_extend n = if ltb n (2 ^ 31) then n else n + (2 ^ 64 - 2 ^ 32)

-- x & flag, for a flag of one bit
abbrev pub has : ℕ → ℕ → Bool
has x flag = not (bit_and x flag == 0)

pub record Vma : Type 0 where
  pub start : ℕ
  pub end : ℕ
  pub valid : Bool
  pub len : ℕ
  pub prot : ℕ
  pub flags : ℕ
  pub fd : ℕ
  pub file : ℕ
  pub offset : ℕ

-- The part of struct proc that the mapping code uses.
pub record Space : Type 0 where
  pub vma : List Vma
  pub cur_vma_start : ℕ
  pub sz : ℕ
  pub ofile : List ℕ
  pub pte : ℕ → ℕ

-- The open files, by address: reference count, writable, inode, and the inode's size.
pub record Files : Type 0 where
  pub ref : ℕ → ℕ
  pub writable : ℕ → Bool
  pub ip : ℕ → ℕ
  pub size : ℕ → ℕ

pub filedup : Files → ℕ → Outcome Files
filedup fs f =
    if ltb (fs.ref f) 1 then panic else ok (record fs { ref = update fs.ref f (fs.ref f + 1) })

-- The first slot that is not valid.
pub free_slot : List Vma → Option ℕ
free_slot [] = none
free_slot (v ∷ vs) =
    if v.valid then (elim (free_slot vs) [ none ↦ none | some i ↦ some (suc i) ]) else some 0

-- p->ofile[fd]
pub file_of : Space → ℕ → Outcome ℕ
file_of p fd = elim (get_elem? p.ofile fd) [ none ↦ panic | some f ↦ ok f ]

-- if(flags & MAP_SHARED) if(!(f->writable) && (prot & PROT_WRITE)); f->writable faults on null.
pub read_only : Files → ℕ → ℕ → ℕ → Outcome Bool
read_only fs f prot flags =
    if has flags map_shared
    then (if f == 0 then panic else ok (not (fs.writable f) && has prot prot_write))
    else ok false

abbrev pub end_addr : Space → ℕ → ℕ
end_addr p len = pg_round_up ((p.cur_vma_start + sign_extend len) % 2 ^ 64)

abbrev pub new_vma : Space → ℕ → ℕ → ℕ → ℕ → ℕ → Vma
new_vma p len prot flags fd f = record {
  start = p.cur_vma_start;
  end = end_addr p len;
  valid = true;
  len = (2 ^ 64 + end_addr p len - p.cur_vma_start) % 2 ^ 32;
  prot = prot;
  flags = flags;
  fd = fd;
  file = f;
  offset = 0;
}

-- The slot is filled and the file's reference count raised.
pub map_at : Space → Files → ℕ → ℕ → ℕ → ℕ → ℕ → ℕ → Outcome (ℕ × Space × Files)
unfolding filedup
map_at p fs i len prot flags fd f = do
  fs' ← if f == 0 then ok fs else filedup fs f
  ok (
    p.cur_vma_start,
    record p { vma = set p.vma i (new_vma p len prot flags fd f); cur_vma_start = end_addr p len },
    fs',
  )

-- From the test of end_addr on.
pub place : Space → Files → ℕ → ℕ → ℕ → ℕ → ℕ → Bool → Outcome (ℕ × Space × Files)
unfolding free_slot map_at
place p fs len prot flags fd f refuse =
    if refuse || leb mmaptop (end_addr p len) then ok (failed, p, fs) else elim (free_slot p.vma) [
      | none ↦ ok (failed, p, fs)
      | some i ↦ map_at p fs i len prot flags fd f
    ]

-- sys_mmap(addr, len, prot, flags, fd, offset); the address is ignored.
pub sys_mmap : Space → Files → ℕ → ℕ → ℕ → ℕ → ℕ → Outcome (ℕ × Space × Files)
unfolding file_of read_only place
sys_mmap p fs len prot flags fd offset =
    if len == 0 || not (offset % pgsize == 0) then ok (failed, p, fs) else (do
      f ← file_of p fd
      refuse ← read_only fs f prot flags
      place p fs len prot flags fd f refuse)
