-- ===== src/Mmap/Tests.antt =====
-- Tests of the mapped areas: a process with one open file, at 0x80030000, and two slots. Its first
-- area holds two pages, the first of which is resident.
use cs3500_os.Base.{
  ℕ, ◌≡◌, ◌⊎◌, refl, true, false, [], ◌∷◌, arith, ◌==◌, if◌then◌else◌, ok, inl, inr, All,
}
use cs3500_os.SharedTab.{init_shared_tab}
use cs3500_os.Mmap.{Vma, Space, Files, failed, sys_mmap}
use cs3500_os.Mmap.Layout.{IsLaidOut, Maps, sys_mmap-Maps}
use cs3500_os.Mmap.Unmap.{Unmapped, sys_munmap}
use cs3500_os.Mmap.Unmap.Cleared.{Clears}
use cs3500_os.Mmap.Unmap.Returns.{IsReferenced, sys_munmap-Unmaps}

abbrev pub one_file : Files
one_file = record {
  ref = λ f. if f == 0x80030000 then 2 else 0;
  writable = λ f. true;
  ip = λ f. 0x80020000;
  size = λ f. 8192;
}

abbrev pub area : ℕ → Vma
area flags = record {
  start = 0x40000000;
  end = 0x40002000;
  valid = true;
  len = 8192;
  prot = 3;
  flags = flags;
  fd = 3;
  file = 0x80030000;
  offset = 0;
}

abbrev pub unused : Vma
unused = record {
  start = 0;
  end = 0;
  valid = false;
  len = 0;
  prot = 0;
  flags = 0;
  fd = 0;
  file = 0;
  offset = 0;
}

-- The page at 0x87000000, valid, for the user, readable and writable.
abbrev pub resident : ℕ
resident = 0x21c00017

abbrev pub process : ℕ → Space
process flags = record {
  vma = area flags ∷ unused ∷ [];
  cur_vma_start = 0x40002000;
  sz = 0x3000;
  ofile = 0 ∷ 0 ∷ 0 ∷ 0x80030000 ∷ [];
  pte = λ q. if q == 0x40000 then resident else 0;
}

process-IsLaidOut : (flags : ℕ) → IsLaidOut (process flags)
process-IsLaidOut flags = record {
  aligned = refl;
  low = omega arith;
  high = omega arith;
  areas = (
    λ t. record { aligned = refl; low = omega arith; nonempty = omega arith; high = omega arith },
    (λ t. absurd (cc), tt),
  );
  disjoint = ((λ t u. absurd (cc), tt), (tt, tt));
}

process-IsReferenced : All (IsReferenced one_file) (process 2).vma
process-IsReferenced = (inr (omega arith, omega arith, omega arith), (inl refl, tt))

sys_mmap-Maps_example :
    Maps (process 2) one_file 5000 1 1 3 (sys_mmap (process 2) one_file 5000 1 1 3 4096)
sys_mmap-Maps_example =
    sys_mmap-Maps (process 2) one_file 5000 1 1 3 4096 (process-IsLaidOut 2) (omega arith)
      (omega arith)

sys_munmap-Unmaps_example :
    (u : Unmapped) × (sys_munmap (process 2) one_file init_shared_tab 0x40000000 4096 ≡ ok u)
    × ((u.result ≡ failed) × (u.space ≡ process 2)
        ⊎ (u.result ≡ 0) × Clears 0x40000 0x40001 (process 2).pte u.space.pte)
sys_munmap-Unmaps_example =
    sys_munmap-Unmaps (process 2) one_file init_shared_tab 0x40000000 4096 process-IsReferenced refl
      (omega arith) (omega arith) (omega arith)
