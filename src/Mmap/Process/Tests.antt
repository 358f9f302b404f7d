-- ===== src/Mmap/Process/Tests.antt =====
-- Tests of the loops of kfork() and kexit().
use cs3500_os.Base.{◌≡◌, refl, List, [], ◌∷◌, map, arith, ok, panic, inl, inr}
use cs3500_os.SharedTab.{init_shared_tab}
use cs3500_os.Mmap.{Vma, Files}
use cs3500_os.Mmap.Unmap.{Pages}
use cs3500_os.Mmap.Process.{
  reset_slot, fork_areas, exit_area, valid_areas, fork_areas-valid_areas, exit_area_private_panics,
}
use cs3500_os.Mmap.Tests.{one_file, area, unused, process}

fork_areas-valid_areas_example :
    (cs : List Vma) × (fs' : Files) × (fork_areas
        (area 2 ∷ unused ∷ [])
        (map reset_slot (unused ∷ unused ∷ []))
        one_file
      ≡ ok (cs, fs'))
    × (valid_areas cs ≡ area 2 ∷ [])
fork_areas-valid_areas_example =
    fork_areas-valid_areas (area 2 ∷ unused ∷ []) (unused ∷ unused ∷ []) one_file (omega arith)
      (inr (inr (omega arith)), (inl refl, tt))

abbrev pages : Pages
pages = record { pte = (process 2).pte; tab = init_shared_tab; freed = [] }

-- The second area of a process, private and with a resident page.
exit_area_private_panics_example : exit_area (area 2) 0x80020000 1 3 0x40000000 pages ≡ panic
exit_area_private_panics_example =
    exit_area_private_panics (area 2) 0x80020000 1 3 0 0x40000000 pages refl (omega arith)
      (omega arith) (omega arith) refl
