-- ===== src/Mmap/Fault/Tests.antt =====
-- Tests of a page fault in a mapped area.
use cs3500_os.Base.{◌∙◌, ◌≡◌, refl, true, [], some, update}
use cs3500_os.SharedTab.{SharedEntry, bump, shared_get_or_create, init_shared_tab, shared_lookup}
use cs3500_os.SharedTab.View.{init_shared_tab-IsTable, lookup-get_or_create, lookup-init_shared_tab}
use cs3500_os.Mmap.Fault.{Answers, find_vma, lazy_mmap, leaf}
use cs3500_os.Mmap.Fault.Serves.{Allowed, lazy_mmap-Maps, lazy_mmap_races}
use cs3500_os.Mmap.Tests.{one_file, area, process}
use cs3500_os.Mmap.Fault.Serves

-- The second page of the shared area is not resident; kalloc() finds two pages.
abbrev answers : Answers
answers = record {
  page = some 0x87002000;
  entry = some 0x87003000;
  read_ok = true;
  others = λ tab. tab;
  table_ok = true;
}

lazy_mmap-Maps_example :
    Serves.Maps
      (process 1).pte
      init_shared_tab
      0x40001
      23
      (Allowed one_file init_shared_tab (area 1) 0x40001000 true)
      (lazy_mmap answers one_file (process 1) init_shared_tab 0x40001234 true)
unfolding find_vma
lazy_mmap-Maps_example =
    lazy_mmap-Maps answers one_file (process 1) init_shared_tab (area 1) 0x40001234 true
      init_shared_tab-IsTable refl refl refl

abbrev other_page : SharedEntry
other_page = record {
  self = 0x87005000;
  ip = 0x80020000;
  file_off = 4096;
  pa = 0x87004000;
  refcnt = 1;
}

-- Another process maps the same page of the file while readi() waits.
abbrev raced : Answers
raced = record answers {
  others = λ tab. (shared_get_or_create tab 0x80020000 4096 0x87004000 (some 0x87005000)).0;
}

there : shared_lookup (raced.others init_shared_tab) 0x80020000 4096 ≡ some other_page
there =
    (lookup-get_or_create init_shared_tab 0x80020000 4096 0x87004000 0x87005000 0x80020000 4096).1
    ∙ rw (lookup-init_shared_tab 0x80020000 4096) refl

lazy_mmap_races_example :
    let s = lazy_mmap raced one_file (process 1) init_shared_tab 0x40001234 true in
    (s.result ≡ 0x87002000)
    × (s.pte ≡ update (process 1).pte 0x40001 (leaf 0x87002000 23))
    × (shared_lookup s.tab 0x80020000 4096 ≡ some (bump other_page))
    × (s.freed ≡ [])
unfolding find_vma
lazy_mmap_races_example =
    lazy_mmap_races raced one_file (process 1) init_shared_tab (area 1) 0x40001234 0x87002000 true
      other_page refl refl refl refl (lookup-init_shared_tab 0x80020000 4096) refl refl there refl
