-- ===== src/Mmap/Unmap/Cleared.antt =====
-- sysfile.c: which pages sys_munmap() takes out of the page table.
use cs3500_os.Base.{
  ℕ, zero, suc, ◌+◌, ◌-◌, ◌*◌, ◌/◌, ◌%◌, ◌^◌, ◌≤◌, ◌<◌, ◌≡◌, refl, sym, ap, subst, ◌∙◌, ◌⊎◌, inl,
  inr, Bool, true, false, ◌&&◌, List, [], ◌∷◌, ◌++◌, arith, leb, ◌==◌, if◌then◌else◌, set, update,
  Outcome, ok, panic, ◌>>=◌, Bool-cases, Option-cases, ==→eq, eq→==, ne→==, le→leb, lt→ltb, gt→leb,
  some,
}
use cs3500_os.SharedTab.{Buckets, shared_decref}
use cs3500_os.Kalloc.{pgsize}
use cs3500_os.Mmap.{Vma, Space, Files, failed, sign_extend}
use cs3500_os.Mmap.Unmap.{
  pte_v, pte2pa, maxva, is_shared, file_offset, Pages, uvmunmap_one, unmap_at, unmap_pages,
  rounds_to, find_area, shrink, finish, Write, Unmapped, munmap_area, sys_munmap, written_back,
}

-- The page table t' is t with the valid PTEs of the pages from a to b, b included, cleared.
abbrev pub Clears : ℕ → ℕ → (ℕ → ℕ) → (ℕ → ℕ) → Type 0
Clears a b t t' = (q : ℕ) → t' q ≡ (if leb a q && (leb q b && pte_v (t q)) then 0 else t q)

uvmunmap_one_aligned :
    (a : ℕ) (do_free : Bool) (s : Pages)
    → a % 4096 ≡ 0
    → (s' : Pages) × (uvmunmap_one a do_free s ≡ ok s') × (s'.pte ≡ update s.pte (a / 4096) 0)
unfolding uvmunmap_one
uvmunmap_one_aligned a do_free s h = (
  record s {
    pte = update s.pte (a / pgsize) 0;
    freed = if do_free then s.freed ++ pte2pa (s.pte (a / pgsize)) ∷ [] else s.freed;
  },
  rw (eq→== (a % pgsize) 0 h),
  refl,
)

Clears-one : (a : ℕ) (t : ℕ → ℕ) → pte_v (t a) ≡ true → Clears a a t (update t a 0)
Clears-one a t h q = elim (Bool-cases (a == q)) [
  | inl e ↦
      let e' : a ≡ q = ==→eq a q e in
      rw (e, le→leb a q (omega arith), le→leb q a (omega arith), ← e', h)
  | inr e ↦ ground arith
]

Clears-none : (a : ℕ) (t : ℕ → ℕ) → pte_v (t a) ≡ false → Clears a a t t
Clears-none a t h q = elim (Bool-cases (a == q)) [
  | inl e ↦
      let e' : a ≡ q = ==→eq a q e in
      rw (le→leb a q (omega arith), le→leb q a (omega arith), ← e', h)
  | inr e ↦ ground arith
]

unmap_at-Clears :
    (v : Vma) (ip i : ℕ) (s : Pages)
    → i % 4096 ≡ 0
    → i < maxva
    → (s' : Pages) × (unmap_at v ip i s ≡ ok s') × Clears (i / 4096) (i / 4096) s.pte s'.pte
unfolding unmap_at
unmap_at-Clears v ip i s h under =
    let below = gt→leb maxva i under in
    elim (Bool-cases (pte_v (s.pte (i / pgsize)))) [
      | inr invalid ↦ (s, rw (below, invalid) refl, Clears-none (i / 4096) s.pte invalid)
      | inl valid ↦ elim (Bool-cases (is_shared v)) [
        | inl shared ↦
            let (tab', pages) = shared_decref s.tab ip (file_offset v i) in
            let (s', e, t) =
              uvmunmap_one_aligned i false (record s { tab = tab'; freed = s.freed ++ pages }) h in
            (
              s',
              rw (below, valid, shared) e,
              subst (Clears (i / 4096) (i / 4096) s.pte) (sym t)
                  (Clears-one (i / 4096) s.pte valid),
            )
        | inr private ↦
            let (s', e, t) = uvmunmap_one_aligned i true s h in
            (
              s',
              rw (below, valid, private) e,
              subst (Clears (i / 4096) (i / 4096) s.pte) (sym t)
                  (Clears-one (i / 4096) s.pte valid),
            )
      ]
    ]

Clears-trans :
    (a b : ℕ) (t t' t'' : ℕ → ℕ)
    → a ≤ b
    → Clears a a t t'
    → Clears (a + 1) b t' t''
    → Clears a b t t''
Clears-trans a b t t' t'' h c d q = ground (arith, c q, d q)

pub unmap_pages-Clears :
    (v : Vma) (ip n i : ℕ) (s : Pages)
    → i % 4096 ≡ 0
    → i + n * 4096 < maxva
    → (s' : Pages) × (unmap_pages v ip (suc n) i s ≡ ok s')
      × Clears (i / 4096) (i / 4096 + n) s.pte s'.pte
unfolding unmap_pages
unmap_pages-Clears v ip zero i s h under =
    let (s', e, c) = unmap_at-Clears v ip i s h (omega arith) in
    let z : i / 4096 ≡ i / 4096 + 0 = omega arith in
    (s', rw e, subst (λ b. Clears (i / 4096) b s.pte s'.pte) z c)
unmap_pages-Clears v ip (suc n) i s h under =
    let (s', e, c) = unmap_at-Clears v ip i s h (omega arith) in
    let (s'', e', c') = unmap_pages-Clears v ip n (i + pgsize) s' (omega arith) (omega arith) in
    let lo : (i + pgsize) / 4096 ≡ i / 4096 + 1 = omega arith in
    let hi : (i + pgsize) / 4096 + n ≡ i / 4096 + suc n = omega arith in
    (
      s'',
      rw e e',
      Clears-trans (i / 4096) (i / 4096 + suc n) s.pte s'.pte s''.pte (omega arith) c (
          subst (λ b. Clears (i / 4096 + 1) b s'.pte s''.pte) hi
            (subst (λ a. Clears a ((i + pgsize) / 4096 + n) s'.pte s''.pte) lo c')),
    )

finish_pte :
    (p : Space) (fs : Files) (lo hi i : ℕ) (v : Vma) (written : List Write) (s : Pages)
    (u : Unmapped)
    → finish p fs lo hi i v written s ≡ ok u
    → (s.pte ≡ u.space.pte) × (u.result ≡ 0)
unfolding finish
finish_pte p fs lo hi i v written s u e = go (shrink fs v lo hi) e
  where
    go :
        (r : Outcome (Vma × Files))
        → (r >>= λ (v', fs'). ok (record {
          result = 0;
          space = record p { vma = set p.vma i v'; pte = s.pte };
          files = fs';
          tab = s.tab;
          freed = s.freed;
          written = written;
        }))
          ≡ ok u
        → (s.pte ≡ u.space.pte) × (u.result ≡ 0)
    go panic e = absurd (cc)
    go (ok (v', fs')) e = (cc, cc)

munmap_area-Clears :
    (p : Space) (fs : Files) (tab : Buckets) (lo hi i : ℕ) (v : Vma) (u : Unmapped)
    → lo % 4096 ≡ 0
    → lo ≤ hi
    → hi < maxva
    → munmap_area p fs tab lo hi i v ≡ ok u
    → Clears (lo / 4096) (hi / 4096) p.pte u.space.pte × (u.result ≡ 0)
unfolding munmap_area
munmap_area-Clears p fs tab lo hi i v u h le under e =
    let (s', e', c) =
      unmap_pages-Clears v (fs.ip v.file) ((hi - lo) / 4096) lo
        (record { pte = p.pte; tab = tab; freed = [] }) h (omega arith) in
    let last : lo / 4096 + (hi - lo) / 4096 ≡ hi / 4096 = omega arith in
    let n : rounds_to lo hi ≡ suc ((hi - lo) / 4096) = rw (le→leb lo hi le) (omega arith) in
    let done : munmap_area p fs tab lo hi i v
        ≡ finish p fs lo hi i v (written_back p fs lo hi v) s' =
      ap
        (λ k.
          unmap_pages v (fs.ip v.file) k lo (record { pte = p.pte; tab = tab; freed = [] }) >>= λ s.
          finish p fs lo hi i v (written_back p fs lo hi v) s)
        n
      ∙ ap (λ o. o >>= λ s. finish p fs lo hi i v (written_back p fs lo hi v) s) e' in
    let (t, r) = finish_pte p fs lo hi i v (written_back p fs lo hi v) s' u (sym done ∙ e) in
    (
      subst (λ b. Clears (lo / 4096) b p.pte u.space.pte) last
          (subst (Clears (lo / 4096) (lo / 4096 + (hi - lo) / 4096) p.pte) t c),
      r,
    )

-- sys_munmap
pub sys_munmap-Clears :
    (p : Space) (fs : Files) (tab : Buckets) (addr len : ℕ) (u : Unmapped)
    → addr % 4096 ≡ 0
    → 0 < len
    → len < 2 ^ 31
    → addr + len < 2 ^ 64
    → ((r : ℕ × Vma) → find_area addr (addr + len) p.vma ≡ some r → addr + len < maxva)
    → sys_munmap p fs tab addr len ≡ ok u
    → (u.result ≡ failed) × (u.space ≡ p)
      ⊎ (u.result ≡ 0) × Clears (addr / 4096) ((addr + len) / 4096) p.pte u.space.pte
unfolding sys_munmap
sys_munmap-Clears p fs tab addr len u al pos small fits under e =
    let end_at : (addr + sign_extend len) % 2 ^ 64 ≡ addr + len =
      rw (lt→ltb len (2 ^ 31) small) (omega arith) in
    let hi = (addr + sign_extend len) % 2 ^ 64 in
    let more : (len == 0) ≡ false = ne→== len 0 (omega arith) in
    elim (Option-cases (find_area addr hi p.vma)) [
      | inl n ↦ let e' = simp (more, n) at e in inl (ground arith, ground arith)
      | inr ((i, v), n) ↦
          let (c, r) =
            munmap_area-Clears p fs tab addr hi i v u al (omega arith)
              (subst (λ b. b < maxva) (sym end_at)
                (under (i, v) (ap (λ b. find_area addr b p.vma) (sym end_at) ∙ n)))
              (simp (more, n) at e) in
          inr (r, subst (λ b. Clears (addr / 4096) (b / 4096) p.pte u.space.pte) end_at c)
    ]
