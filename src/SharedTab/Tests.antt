-- ===== src/SharedTab/Tests.antt =====
-- Tests of the shared table of vm.c. The inode stands at 0x80020000, and its second page is shared.
use cs3500_os.Base.{ℕ, ◌≡◌, refl, [], ◌∷◌, some}
use cs3500_os.SharedTab.{
  SharedEntry, Buckets, init_shared_tab, shared_hash, find, incref, shared_lookup,
  shared_get_or_create, shared_decref,
}
use cs3500_os.SharedTab.View.{
  IsTable, init_shared_tab-IsTable, shared_get_or_create-IsTable, decref-get_or_create,
}

abbrev counted : ℕ → SharedEntry
counted n = record {
  self = 0x87001000;
  ip = 0x80020000;
  file_off = 4096;
  pa = 0x87000000;
  refcnt = n;
}

abbrev one_page : Buckets
one_page = (shared_get_or_create init_shared_tab 0x80020000 4096 0x87000000 (some 0x87001000)).0

one_page-IsTable : IsTable one_page
one_page-IsTable =
    shared_get_or_create-IsTable init_shared_tab 0x80020000 4096 0x87000000 (some 0x87001000)
      init_shared_tab-IsTable

one_page_lookup : shared_lookup one_page 0x80020000 4096 ≡ some (counted 1)
unfolding shared_lookup shared_get_or_create init_shared_tab shared_hash find incref
one_page_lookup = refl

decref-get_or_create_example :
    let r =
      shared_decref
        (shared_get_or_create one_page 0x80020000 8192 0x87002000 (some 0x87003000)).0
        0x80020000
        8192 in
    (shared_lookup r.0 0x80020000 4096 ≡ shared_lookup one_page 0x80020000 4096)
    × (r.1 ≡ 0x87002000 ∷ 0x87003000 ∷ [])
unfolding shared_lookup shared_get_or_create init_shared_tab shared_hash find incref
decref-get_or_create_example =
    decref-get_or_create one_page 0x80020000 8192 0x87002000 0x87003000 0x80020000 4096
      one_page-IsTable
