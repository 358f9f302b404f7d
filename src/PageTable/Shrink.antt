-- ===== src/PageTable/Shrink.antt =====
-- vm.c: uvmdealloc() takes back what uvmalloc() has added.
use cs3500_os.Base.{
  ℕ, zero, suc, bit_or, ◌+◌, ◌-◌, ◌*◌, ◌/◌, ◌≤◌, ◌<◌, ◌≡◌, refl, sym, ap, ◌∙◌, true, arith, inl,
  inr, ◌>>=◌, ok, Bool-cases, le→leb, gt→leb, lt→ltb, ge→ltb, leb,
}
use cs3500_os.Kalloc.{Kmem, pgsize, pg_round_up}
use cs3500_os.PageTable.{maxva, int_extend, uvmunmap, uvmdealloc, uvmalloc}
use cs3500_os.PageTable.Tree.{Tree, IsTree, view}
use cs3500_os.PageTable.Map.{inside}
use cs3500_os.PageTable.Unmap.{Clears-refl, uvmunmap-Unmapped}
use cs3500_os.PageTable.Fresh.{Fresh}
use cs3500_os.PageTable.Rollback.{Restores, Fresh-Restores}
use cs3500_os.PageTable.Alloc.{new_pages, uvmalloc-Allocated}

module _ (kernel_end : ℕ) where
  uvmdealloc_same :
      (root newsz oldsz : ℕ) (k : Kmem)
      → newsz + 4096 ≤ maxva
      → new_pages (pg_round_up oldsz) newsz ≡ 0
      → oldsz ≤ newsz
      → (r : ℕ) × (uvmdealloc kernel_end root newsz oldsz k ≡ ok (r, k))
  unfolding uvmdealloc
  uvmdealloc_same root newsz oldsz k hi e le =
      let near : pg_round_up newsz ≤ pg_round_up oldsz = omega (arith, e) in
      elim (Bool-cases (leb newsz oldsz)) [
        | inl y ↦ (newsz, rw y refl)
        | inr n ↦ (oldsz, rw (n, ge→ltb (pg_round_up oldsz) (pg_round_up newsz) near) refl)
      ]

  uvmdealloc_unmaps :
      (root newsz oldsz n : ℕ) (k k' : Kmem)
      → newsz + 4096 ≤ maxva
      → new_pages (pg_round_up oldsz) newsz ≡ suc n
      → oldsz ≤ newsz
      → uvmunmap kernel_end root (pg_round_up oldsz) (suc n) true k ≡ ok k'
      → uvmdealloc kernel_end root newsz oldsz k ≡ ok (oldsz, k')
  unfolding uvmdealloc
  uvmdealloc_unmaps root newsz oldsz n k k' hi e le run =
      let up : pg_round_up newsz ≡ pg_round_up oldsz + suc n * 4096 = omega (arith, e) in
      let pages : (pg_round_up oldsz + suc n * 4096 - pg_round_up oldsz) / pgsize ≡ suc n =
        omega arith in
      let short : int_extend (suc n) ≡ suc n = ground (arith, e, hi) in
      rw
        (
          gt→leb newsz oldsz (omega (arith, e)),
          up,
          lt→ltb (pg_round_up oldsz) (pg_round_up oldsz + suc n * 4096) (omega arith),
          pages,
          short,
          run,
          ◌>>=◌,
        )
        refl

  uvmdealloc_zero : (root oldsz : ℕ) (k : Kmem) → uvmdealloc kernel_end root 0 oldsz k ≡ ok (0, k)
  unfolding uvmdealloc
  uvmdealloc_zero root oldsz k = rw (le→leb 0 oldsz (omega arith)) refl

  -- From new pages back to the start
  shrinks :
      (t u : Tree kernel_end) (oldsz newsz n perm : ℕ)
      → 0 < kernel_end
      → newsz + 4096 ≤ maxva
      → oldsz ≤ newsz
      → new_pages (pg_round_up oldsz) newsz ≡ n
      → ((w : ℕ) → w < maxva → inside (pg_round_up oldsz) n w ≡ true → view t.kmem.mem t.root w ≡ 0)
      → Fresh kernel_end t u (pg_round_up oldsz) n perm
      → (r : ℕ) × (z : Tree kernel_end) × (uvmdealloc kernel_end t.root newsz oldsz u.kmem
          ≡ ok (r, z.kmem))
        × Restores kernel_end t z
  shrinks t u oldsz newsz zero perm pos hi le e empty f =
      let (r, run) = uvmdealloc_same t.root newsz oldsz u.kmem hi e le in
      (
        r,
        u,
        run,
        Fresh-Restores kernel_end t u u (pg_round_up oldsz) 0 perm f (omega arith) (omega arith)
            empty (Clears-refl kernel_end true u (pg_round_up oldsz) f.valid),
      )
  shrinks t u oldsz newsz (suc n) perm pos hi le e empty f =
      let fits : pg_round_up oldsz + suc n * 4096 ≤ maxva = omega (arith, e) in
      let (z, run, c) =
        uvmunmap-Unmapped kernel_end true u (pg_round_up oldsz) (suc n) f.valid pos (omega arith)
          fits (λ y. f.owned) in
      (
        oldsz,
        z,
        uvmdealloc_unmaps t.root newsz oldsz n u.kmem z.kmem hi e le (
            ap (λ q. uvmunmap kernel_end q (pg_round_up oldsz) (suc n) true u.kmem)
              (sym f.same_root)
            ∙ run),
        Fresh-Restores kernel_end t u z (pg_round_up oldsz) (suc n) perm f (omega arith) fits empty
            c,
      )

  -- On a tree of page tables, with a positive kernel end, oldsz <= newsz <= MAXVA - 4096, xperm
  -- below 2^10, and no PTE in the pages from PGROUNDUP(oldsz) up to newsz: uvmdealloc of what
  -- uvmalloc has returned and oldsz returns without a panic, on the memory that uvmalloc has left,
  -- and undoes it, also where it has failed: the hardware reads what it read at first for all
  -- addresses, each page that was free is free again or a table, and pages that were neither free
  -- nor tables are unchanged.
  pub uvmdealloc-uvmalloc :
      (t : Tree kernel_end) (oldsz newsz xperm : ℕ)
      → IsTree kernel_end t
      → 0 < kernel_end
      → oldsz ≤ newsz
      → newsz + 4096 ≤ maxva
      → xperm < 1024
      → ((w : ℕ)
          → w < maxva
          → inside (pg_round_up oldsz) (new_pages (pg_round_up oldsz) newsz) w ≡ true
          → view t.kmem.mem t.root w ≡ 0)
      → (r : ℕ) × (u : Tree kernel_end) × ((uvmalloc kernel_end t.root oldsz newsz xperm t.kmem
            >>= λ (sz, k). uvmdealloc kernel_end t.root sz oldsz k)
          ≡ ok (r, u.kmem))
        × Restores kernel_end t u
  uvmdealloc-uvmalloc t oldsz newsz xperm v pos le hi small empty =
      elim (uvmalloc-Allocated kernel_end t oldsz newsz xperm v pos le hi small empty) [
        | inl (u, e, f) ↦
            let (r, z, run, back) =
              shrinks t u oldsz newsz (new_pages (pg_round_up oldsz) newsz) (bit_or 18 xperm) pos hi
                le refl empty f in
            (r, z, ap (λ o. o >>= λ (sz, k). uvmdealloc kernel_end t.root sz oldsz k) e ∙ run, back)
        | inr (u, e, back) ↦ (
          0,
          u,
          ap (λ o. o >>= λ (sz, k). uvmdealloc kernel_end t.root sz oldsz k) e
              ∙ uvmdealloc_zero t.root oldsz u.kmem,
          back,
        )
      ]
