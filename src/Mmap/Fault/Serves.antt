-- ===== src/Mmap/Fault/Serves.antt =====
-- vm.c: what a page fault in a mapped area leaves.
use cs3500_os.Base.{
  [], ℕ, ◌/◌, ◌%◌, ◌^◌, ◌<◌, ◌≡◌, refl, sym, ap, ◌∙◌, ◌⊎◌, inl, inr, Bool, true, false, not, ◌&&◌,
  Option, none, some, arith, ◌==◌, if◌then◌else◌, update, Bool-cases, Option-cases, eq→==,
}
use cs3500_os.SharedTab.{
  SharedEntry, Buckets, shared_lookup, bump, shared_get_or_create, shared_decref,
}
use cs3500_os.SharedTab.View.{
  IsTable, lookup-get_or_create, decref-get_or_create, get_or_create_found, get_or_create_full,
  fresh_entry,
}
use cs3500_os.Kalloc.{pgsize}
use cs3500_os.Mmap.{Vma, Space, Files, prot_read, prot_write, has}
use cs3500_os.Mmap.Unmap.{pte_v, pte2pa, pg_round_down, is_shared, file_offset}
use cs3500_os.Mmap.Fault.{
  Answers, Served, perm_of, leaf, find_vma, take_ref, share_old, share_page, share_new, own_page,
  serve, lazy_mmap,
}

-- The address in a PTE that mappages() wrote.
pub pte2pa-leaf :
    (pa perm : ℕ) → pa % 4096 ≡ 0 → pa < 2 ^ 56 → perm < 1024 → pte2pa (leaf pa perm) ≡ pa
pte2pa-leaf pa perm a h p = omega arith

-- take_ref is what shared_get_or_create does to an entry that is there.
take_ref-eq :
    (tab : Buckets) (ip off pa self : ℕ) (e : SharedEntry)
    → shared_lookup tab ip off ≡ some e
    → take_ref tab ip off ≡ (shared_get_or_create tab ip off pa (some self)).0
unfolding take_ref
take_ref-eq tab ip off pa self e h =
    sym (ap (λ r. r.0) (get_or_create_found tab ip off pa (some self) e h))

abbrev pub page_of : Option SharedEntry → Option ℕ
page_of none = none
page_of (some e) = some e.pa

abbrev pub SameTable : Buckets → Buckets → Type 0
SameTable tab tab' = (jp joff : ℕ) → shared_lookup tab' jp joff ≡ shared_lookup tab jp joff

-- The page pa is the one that the table holds for the file's offset, and was before, if there was one.
abbrev pub Shares : Buckets → Buckets → ℕ → ℕ → ℕ → Type 0
Shares tab tab' ip off pa =
    (page_of (shared_lookup tab' ip off) ≡ some pa)
    × ((shared_lookup tab ip off ≡ none) ⊎ (page_of (shared_lookup tab ip off) ≡ some pa))

-- A shared area takes the table's page, a private area leaves the table alone.
abbrev pub Backs : Bool → Buckets → Buckets → ℕ → ℕ → ℕ → Type 0
Backs true tab tab' ip off pa = Shares tab tab' ip off pa
Backs false tab tab' ip off pa = SameTable tab tab'

-- Either nothing changes, or exactly the faulting page is mapped.
abbrev pub Maps : (ℕ → ℕ) → Buckets → ℕ → ℕ → (Buckets → ℕ → Type 0) → Served → Type 0
Maps pte tab q perm P s =
    ((s.result ≡ 0) × (s.pte ≡ pte) × SameTable tab s.tab)
    ⊎ ((s.pte ≡ update pte q (leaf s.result perm)) × P s.tab s.result)

module _ (ans : Answers) (pte : ℕ → ℕ) (q perm : ℕ) (tab : Buckets) where
  share_old-Maps :
      (ip off : ℕ) (e : SharedEntry)
      → IsTable tab
      → pte_v (pte q) ≡ false
      → shared_lookup tab ip off ≡ some e
      → Maps pte tab q perm
          (λ tab' pa. Shares tab tab' ip off pa)
          (share_old ans pte q perm tab ip off e)
  unfolding share_old
  share_old-Maps ip off e v absent h =
      let taken = take_ref-eq tab ip off e.pa 0 e h in
      let here : shared_lookup (take_ref tab ip off) ip off ≡ some (bump e) =
        ap (λ t. shared_lookup t ip off) taken
        ∙ (lookup-get_or_create tab ip off e.pa 0 ip off).1
        ∙ rw (eq→== ip ip refl, eq→== off off refl, h) refl in
      elim (Bool-cases ans.table_ok) [
        | inl fits ↦ simp (absent, fits) (inr (refl, (ap page_of here, inr (ap page_of h))))
        | inr full ↦
            simp (absent, full)
              (inl (
                refl,
                refl,
                λ jp joff.
                    ap (λ t. shared_lookup (shared_decref t ip off).0 jp joff) taken
                    ∙ (decref-get_or_create tab ip off e.pa 0 jp joff v).0,
              ))
      ]

  share_page-Maps :
      (ip off mem : ℕ)
      → IsTable tab
      → pte_v (pte q) ≡ false
      → shared_lookup tab ip off ≡ none
      → Maps pte tab q perm
          (λ tab' pa. Shares tab tab' ip off pa)
          (share_page ans pte q perm tab ip off mem)
  unfolding share_page
  share_page-Maps ip off mem v absent h = elim (Option-cases ans.entry) [
    | inl out ↦
        simp (share_page, out, get_or_create_full tab ip off mem h)
          (inl (refl, refl, λ jp joff. refl))
    | inr (self, p) ↦
        let kept = lookup-get_or_create tab ip off mem self ip off in
        let made : (shared_get_or_create tab ip off mem (some self)).1
            ≡ some (fresh_entry self ip off mem) =
          kept.0 ∙ rw h refl in
        let here : shared_lookup (shared_get_or_create tab ip off mem (some self)).0 ip off
            ≡ some (fresh_entry self ip off mem) =
          kept.1 ∙ rw (eq→== ip ip refl, eq→== off off refl, h) refl in
        elim (Bool-cases ans.table_ok) [
          | inl fits ↦
              simp (share_page, p, made, absent, fits) (inr (refl, (ap page_of here, inl h)))
          | inr full ↦
              simp (share_page, p, made, absent, full)
                (inl
                  (refl, refl, λ jp joff. (decref-get_or_create tab ip off mem self jp joff v).0))
        ]
  ]

  share_new-Maps :
      (ip off : ℕ)
      → IsTable tab
      → ans.others tab ≡ tab
      → pte_v (pte q) ≡ false
      → shared_lookup tab ip off ≡ none
      → Maps pte tab q perm
          (λ tab' pa. Shares tab tab' ip off pa)
          (share_new ans pte q perm tab ip off)
  unfolding share_new
  share_new-Maps ip off v quiet absent h = elim (Option-cases ans.page) [
    | inl out ↦ simp (share_new, out) (inl (refl, refl, λ jp joff. refl))
    | inr (mem, p) ↦ elim (Bool-cases ans.read_ok) [
      | inl good ↦ simp (share_new, p, good, quiet) (share_page-Maps ip off mem v absent h)
      | inr bad ↦ simp (share_new, p, bad, quiet) (inl (refl, refl, λ jp joff. refl))
    ]
  ]

  own_page-Maps :
      (file : ℕ)
      → ans.others tab ≡ tab
      → pte_v (pte q) ≡ false
      → Maps pte tab q perm (λ tab' pa. SameTable tab tab') (own_page ans pte q perm tab file)
  unfolding own_page
  own_page-Maps file quiet absent = elim (Option-cases ans.page) [
    | inl out ↦ simp (own_page, out) (inl (refl, refl, λ jp joff. refl))
    | inr (mem, p) ↦
        let same : (if file == 0 then tab else ans.others tab) ≡ tab = ground arith in
        elim (Bool-cases (not (file == 0) && not ans.read_ok)) [
          | inl bad ↦ simp (own_page, p, bad, same) (inl (refl, refl, λ jp joff. refl))
          | inr good ↦ elim (Bool-cases ans.table_ok) [
            | inl fits ↦ simp (own_page, p, good, absent, fits, same) (inr (refl, λ jp joff. refl))
            | inr full ↦
                simp (own_page, p, good, absent, full, same) (inl (refl, refl, λ jp joff. refl))
          ]
        ]
  ]

-- The access that faulted is one that the area allows.
abbrev pub allows : Vma → Bool → Bool
allows v read = has v.prot (if read then prot_read else prot_write)

Maps-sub :
    (pte : ℕ → ℕ) (tab : Buckets) (q perm : ℕ) (P Q : Buckets → ℕ → Type 0) (s : Served)
    → ((tab' : Buckets) (pa : ℕ) → P tab' pa → Q tab' pa)
    → Maps pte tab q perm P s
    → Maps pte tab q perm Q s
Maps-sub pte tab q perm P Q s f (inl same) = inl same
Maps-sub pte tab q perm P Q s f (inr m) = inr (m.0, f s.tab s.result m.1)

abbrev pub Allowed : Files → Buckets → Vma → ℕ → Bool → Buckets → ℕ → Type 0
Allowed fs tab v va read tab' pa =
    (allows v read ≡ true) × Backs (is_shared v) tab tab' (fs.ip v.file) (file_offset v va) pa

serve-Maps :
    (ans : Answers) (fs : Files) (pte : ℕ → ℕ) (tab : Buckets) (v : Vma) (va : ℕ) (read : Bool)
    → IsTable tab
    → ans.others tab ≡ tab
    → pte_v (pte (va / pgsize)) ≡ false
    → Maps pte tab
        (va / pgsize)
        (perm_of v.prot)
        (Allowed fs tab v va read)
        (serve ans fs pte tab v va read)
unfolding serve
serve-Maps ans fs pte tab v va read t quiet absent =
    let q = va / pgsize in
    let ip = fs.ip v.file in
    let off = file_offset v va in
    elim (Bool-cases (allows v read)) [
      | inr denied ↦ simp (serve, absent, denied) (inl (refl, refl, λ jp joff. refl))
      | inl ok_perm ↦ elim (Bool-cases (is_shared v)) [
        | inr own ↦
            let backs : Maps pte tab q (perm_of v.prot) (Allowed fs tab v va read)
                (own_page ans pte q (perm_of v.prot) tab v.file) =
              Maps-sub pte tab q _ (λ tab' pa. SameTable tab tab') (Allowed fs tab v va read)
                (own_page ans pte q (perm_of v.prot) tab v.file)
                (λ tab' pa same. (ok_perm, rw own same))
                (own_page-Maps ans pte q (perm_of v.prot) tab v.file quiet absent) in
            rw (serve, absent, ok_perm, own) (rw (ok_perm, own) at backs)
        | inl shared ↦ elim (Option-cases (shared_lookup tab ip off)) [
          | inl new ↦
              let backs : Maps pte tab q (perm_of v.prot) (Allowed fs tab v va read)
                  (share_new ans pte q (perm_of v.prot) tab ip off) =
                Maps-sub pte tab q _ (λ tab' pa. Shares tab tab' ip off pa)
                  (Allowed fs tab v va read) (share_new ans pte q (perm_of v.prot) tab ip off)
                  (λ tab' pa shares. (ok_perm, rw shared shares))
                  (share_new-Maps ans pte q (perm_of v.prot) tab ip off t quiet absent new) in
              rw (serve, absent, ok_perm, shared, new) (rw (ok_perm, shared, new) at backs)
          | inr (e, old) ↦
              let backs : Maps pte tab q (perm_of v.prot) (Allowed fs tab v va read)
                  (share_old ans pte q (perm_of v.prot) tab ip off e) =
                Maps-sub pte tab q _ (λ tab' pa. Shares tab tab' ip off pa)
                  (Allowed fs tab v va read) (share_old ans pte q (perm_of v.prot) tab ip off e)
                  (λ tab' pa shares. (ok_perm, rw shared shares))
                  (share_old-Maps ans pte q (perm_of v.prot) tab ip off e t absent old) in
              rw (serve, absent, ok_perm, shared, old) (rw (ok_perm, shared, old) at backs)
        ]
      ]
    ]

-- For a fault in an area, with a shared table that is well-formed and that no other process
-- changes during the call, and with no valid PTE for the page: lazy_mmap either returns 0 and
-- leaves the page table and all entries of the shared table as they were, or maps exactly that
-- page, with the permissions of the area, which allow the access; a shared area then gets the page
-- that the table holds for that offset of the file, and held before if there was one, and a
-- private area leaves the table alone.
pub lazy_mmap-Maps :
    (ans : Answers) (fs : Files) (p : Space) (tab : Buckets) (v : Vma) (va : ℕ) (read : Bool)
    → IsTable tab
    → ans.others tab ≡ tab
    → find_vma va p.vma ≡ some v
    → pte_v (p.pte (pg_round_down va / pgsize)) ≡ false
    → Maps p.pte tab
        (pg_round_down va / pgsize)
        (perm_of v.prot)
        (Allowed fs tab v (pg_round_down va) read)
        (lazy_mmap ans fs p tab va read)
unfolding lazy_mmap
lazy_mmap-Maps ans fs p tab v va read t quiet found absent =
    simp (lazy_mmap, found) (serve-Maps ans fs p.pte tab v (pg_round_down va) read t quiet absent)

share_new_races :
    (ans : Answers) (pte : ℕ → ℕ) (q perm : ℕ) (tab : Buckets) (ip off mem : ℕ) (e : SharedEntry)
    → ans.page ≡ some mem
    → ans.read_ok ≡ true
    → ans.table_ok ≡ true
    → pte_v (pte q) ≡ false
    → shared_lookup (ans.others tab) ip off ≡ some e
    → let s = share_new ans pte q perm tab ip off in
      (s.result ≡ mem)
      × (s.pte ≡ update pte q (leaf mem perm))
      × (shared_lookup s.tab ip off ≡ some (bump e))
      × (s.freed ≡ [])
unfolding share_new share_page
share_new_races ans pte q perm tab ip off mem e p good fits absent h =
    let found = get_or_create_found (ans.others tab) ip off mem ans.entry e h in
    let seen : shared_lookup (shared_get_or_create (ans.others tab) ip off mem (some 0)).0 ip off
        ≡ some (bump e) =
      (lookup-get_or_create (ans.others tab) ip off mem 0 ip off).1
      ∙ rw (eq→== ip ip refl, eq→== off off refl, h) refl in
    let again = get_or_create_found (ans.others tab) ip off mem (some 0) e h in
    let made : (shared_get_or_create (ans.others tab) ip off mem ans.entry).1 ≡ some (bump e) =
      ap (λ r. r.1) found in
    let kept : shared_lookup (shared_get_or_create (ans.others tab) ip off mem ans.entry).0 ip off
        ≡ some (bump e) =
      ap (λ r. shared_lookup r.0 ip off) (found ∙ sym again) ∙ seen in
    simp (share_new, p, good, share_page, made, absent, fits) (refl, refl, kept, refl)

-- For a fault that the area permits, at a page of a shared area that is not mapped and not in the
-- shared table: if another process puts the page of the offset into the shared table while the
-- call waits for readi(), and allocation, reading and mapping succeed, then lazy_mmap returns and
-- maps its own new page with the permissions of the area, while the entry of the table stays that
-- of the other process, with one reference more, and no page is freed.
pub lazy_mmap_races :
    (ans : Answers) (fs : Files) (p : Space) (tab : Buckets) (v : Vma) (va mem : ℕ) (read : Bool)
    (e : SharedEntry)
    → let q = pg_round_down va / pgsize in
      let ip = fs.ip v.file in
      let off = file_offset v (pg_round_down va) in
      let s = lazy_mmap ans fs p tab va read in
      find_vma va p.vma ≡ some v
      → pte_v (p.pte q) ≡ false
      → has v.prot (if read then prot_read else prot_write) ≡ true
      → is_shared v ≡ true
      → shared_lookup tab ip off ≡ none
      → ans.page ≡ some mem
      → ans.read_ok ≡ true
      → shared_lookup (ans.others tab) ip off ≡ some e
      → ans.table_ok ≡ true
      → (s.result ≡ mem)
        × (s.pte ≡ update p.pte q (leaf mem (perm_of v.prot)))
        × (shared_lookup s.tab ip off ≡ some (bump e))
        × (s.freed ≡ [])
unfolding lazy_mmap serve
lazy_mmap_races ans fs p tab v va mem read e found absent may shared new page good other fits =
    simp (lazy_mmap, found, serve, absent, may, shared, new)
      (share_new_races ans p.pte (pg_round_down va / pgsize) (perm_of v.prot) tab (fs.ip v.file)
        (file_offset v (pg_round_down va)) mem e page good fits absent other)
