-- ===== src/Mmap/Unmap/Returns.antt =====
-- sysfile.c: sys_munmap() where the mapped areas hold references to their files.
use cs3500_os.Base.{
  true, false, ℕ, suc, ◌+◌, ◌-◌, ◌/◌, ◌%◌, ◌^◌, ◌≤◌, ◌<◌, ◌≡◌, ◌≢◌, refl, ◌∙◌, ◌⊎◌, inl, inr, false,
  ◌&&◌, List, [], ◌∷◌, some, arith, ltb, leb, ◌==◌, All, ok, ◌>>=◌, Bool-cases, Option-cases, ne→==,
  ap, lt→ltb, le→leb, ge→ltb, subst,
}
use cs3500_os.SharedTab.{Buckets}
use cs3500_os.Mmap.{Vma, Space, Files, failed, sign_extend}
use cs3500_os.Mmap.Unmap.{
  Write, Pages, find_area, maxva, fileclose, shrink, Unmapped, finish, unmap_pages, rounds_to,
  written_back, munmap_area, sys_munmap,
}
use cs3500_os.Mmap.Layout.{IsLaidOut}
use cs3500_os.Mmap.Unmap.Shrunk.{sys_munmap-IsLaidOut}
use cs3500_os.Mmap.Unmap.Cleared.{Clears, unmap_pages-Clears, sys_munmap-Clears}

-- The area has a file, and the file is referenced; the area ends below MAXVA.
abbrev HasFile : Files → Vma → Type 0
HasFile fs v = (v.file ≢ 0) × (0 < fs.ref v.file) × (v.end < maxva)

-- What every mapping of a file has.
abbrev pub IsReferenced : Files → Vma → Type 0
IsReferenced fs v = (v.valid ≡ false) ⊎ HasFile fs v

valid-HasFile : (fs : Files) (v : Vma) → v.valid ≡ true → IsReferenced fs v → HasFile fs v
valid-HasFile fs v t (inl f) = absurd (cc)
valid-HasFile fs v t (inr h) = h

find_area-All :
    (P : Vma → Type 0) (lo hi i : ℕ) (v : Vma) (vs : List Vma)
    → All P vs
    → find_area lo hi vs ≡ some (i, v)
    → (v.valid ≡ true) × (hi ≤ v.end) × P v
unfolding find_area
find_area-All P lo hi i v [] a e = absurd (cc)
find_area-All P lo hi i v (w ∷ vs) a e =
    elim (Bool-cases (w.valid && (leb w.start lo && leb hi w.end))) [
      | inl here ↦
          let e' = simp here at e in
          let same : w ≡ v = cc in
          subst (λ x. (x.valid ≡ true) × (hi ≤ x.end) × P x) same
            (ground arith, ground (arith, here), a.0)
      | inr away ↦ elim (Option-cases (find_area lo hi vs)) [
        | inl n ↦ let e' = simp (away, n) at e in absurd (cc)
        | inr ((j, x), n) ↦
            let e' = simp (away, n) at e in
            let same : x ≡ v = cc in
            subst (λ x. (x.valid ≡ true) × (hi ≤ x.end) × P x) same
              (find_area-All P lo hi j x vs a.1 n)
      ]
    ]

shrink-returns :
    (fs : Files) (v : Vma) (lo hi : ℕ)
    → HasFile fs v
    → (r : Vma × Files) × (shrink fs v lo hi ≡ ok r)
unfolding shrink fileclose
shrink-returns fs v lo hi (file, ref, top) = elim (Bool-cases (v.start == lo && v.end == hi)) [
  | inl whole ↦ rw (whole, ne→== v.file 0 file, ge→ltb (fs.ref v.file) 1 ref) (_, refl)
  | inr part ↦ elim (Bool-cases (v.start == lo && ltb hi v.end)) [
    | inl front ↦ rw (part, front) (_, refl)
    | inr not_front ↦ elim (Bool-cases (v.end == hi && ltb v.start lo)) [
      | inl back ↦ rw (part, not_front, back) (_, refl)
      | inr none_of ↦ rw (part, not_front, none_of) (_, refl)
    ]
  ]
]

finish-returns :
    (p : Space) (fs : Files) (lo hi i : ℕ) (v : Vma) (written : List Write) (s : Pages)
    → HasFile fs v
    → (u : Unmapped) × (finish p fs lo hi i v written s ≡ ok u)
unfolding finish
finish-returns p fs lo hi i v written s h =
    let (r, e) = shrink-returns fs v lo hi h in rw (finish, e) (_, refl)

munmap_area-returns :
    (p : Space) (fs : Files) (tab : Buckets) (lo hi i : ℕ) (v : Vma)
    → HasFile fs v
    → lo % 4096 ≡ 0
    → lo ≤ hi
    → hi < maxva
    → (u : Unmapped) × (munmap_area p fs tab lo hi i v ≡ ok u)
unfolding munmap_area
munmap_area-returns p fs tab lo hi i v h al le under =
    let start : Pages = record { pte = p.pte; tab = tab; freed = [] } in
    let n : rounds_to lo hi ≡ suc ((hi - lo) / 4096) = rw (le→leb lo hi le) (omega arith) in
    let (s', e, c) =
      unmap_pages-Clears v (fs.ip v.file) ((hi - lo) / 4096) lo start al (omega arith) in
    let (u, f) = finish-returns p fs lo hi i v (written_back p fs lo hi v) s' h in
    (
      u,
      ap
            (λ k. unmap_pages v (fs.ip v.file) k lo start >>= λ s.
              finish p fs lo hi i v (written_back p fs lo hi v) s)
            n
          ∙ ap (λ o. o >>= λ s. finish p fs lo hi i v (written_back p fs lo hi v) s) e
          ∙ f,
    )

sys_munmap-returns :
    (p : Space) (fs : Files) (tab : Buckets) (addr len : ℕ)
    → All (IsReferenced fs) p.vma
    → addr % 4096 ≡ 0
    → 0 < len
    → len < 2 ^ 31
    → addr + len < 2 ^ 64
    → (u : Unmapped) × (sys_munmap p fs tab addr len ≡ ok u)
unfolding sys_munmap
sys_munmap-returns p fs tab addr len a al pos small fits =
    let hi = (addr + sign_extend len) % 2 ^ 64 in
    let end_at : hi ≡ addr + len = rw (lt→ltb len (2 ^ 31) small) (omega arith) in
    let more : (len == 0) ≡ false = ne→== len 0 (omega arith) in
    elim (Option-cases (find_area addr hi p.vma)) [
      | inl none_there ↦ rw (more, none_there) (_, refl)
      | inr ((i, v), there) ↦
          let (valid, within, r) = find_area-All (IsReferenced fs) addr hi i v p.vma a there in
          let held = valid-HasFile fs v valid r in
          rw (more, there)
            (munmap_area-returns p fs tab addr hi i v held al (omega arith)
              (omega (arith, within, held.2)))
    ]

found_below :
    (fs : Files) (vs : List Vma) (lo hi : ℕ) (r : ℕ × Vma)
    → All (IsReferenced fs) vs
    → find_area lo hi vs ≡ some r
    → hi < maxva
found_below fs vs lo hi r a e =
    let (valid, within, x) = find_area-All (IsReferenced fs) lo hi r.0 r.1 vs a e in
    let held = valid-HasFile fs r.1 valid x in omega (arith, within, held.2)

-- If each valid area has a referenced file and ends below MAXVA, sys_munmap of an aligned address
-- with 0 < len < 2^31 and an end below 2^64 returns without a panic: either it fails and leaves
-- the process unchanged, or it returns 0 and clears exactly the valid PTEs of the pages from
-- addr/4096 to (addr+len)/4096, the last included.
pub sys_munmap-Unmaps :
    (p : Space) (fs : Files) (tab : Buckets) (addr len : ℕ)
    → All (IsReferenced fs) p.vma
    → addr % 4096 ≡ 0
    → 0 < len
    → len < 2 ^ 31
    → addr + len < 2 ^ 64
    → (u : Unmapped) × (sys_munmap p fs tab addr len ≡ ok u)
      × ((u.result ≡ failed) × (u.space ≡ p)
          ⊎ (u.result ≡ 0) × Clears (addr / 4096) ((addr + len) / 4096) p.pte u.space.pte)
sys_munmap-Unmaps p fs tab addr len a al pos small fits =
    let (u, e) = sys_munmap-returns p fs tab addr len a al pos small fits in
    (
      u,
      e,
      sys_munmap-Clears p fs tab addr len u al pos small fits
          (λ r h. found_below fs p.vma addr (addr + len) r a h) e,
    )

-- If the areas are laid out and each valid area has a referenced file and ends below MAXVA, sys_munmap of an aligned
-- range with 0 < len < 2^31 and an end below 2^64 returns without a panic and leaves the areas
-- laid out.
pub munmap_layout :
    (p : Space) (fs : Files) (tab : Buckets) (addr len : ℕ)
    → IsLaidOut p
    → All (IsReferenced fs) p.vma
    → addr % 4096 ≡ 0
    → len % 4096 ≡ 0
    → 0 < len
    → len < 2 ^ 31
    → addr + len < 2 ^ 64
    → (u : Unmapped) × (sys_munmap p fs tab addr len ≡ ok u) × IsLaidOut u.space
munmap_layout p fs tab addr len v a al ll pos small fits =
    let (u, e) = sys_munmap-returns p fs tab addr len a al pos small fits in
    (u, e, sys_munmap-IsLaidOut p fs tab addr len u v al ll small fits e)
