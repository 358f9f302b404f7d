-- ===== src/Mmap/Layout.antt =====
-- sysfile.c: the layout of the mapped areas of a process, and sys_mmap().
use cs3500_os.Base.{
  ℕ, zero, suc, ◌+◌, ◌%◌, ◌^◌, ◌≤◌, ◌<◌, ◌≡◌, refl, ap, subst, ◌∙◌, ◌⊎◌, inl, inr, Bool, true,
  false, ◌||◌, not, List, [], ◌∷◌, none, some, arith, ltb, leb, ◌==◌, if◌then◌else◌, get_elem?, set,
  All, update, Outcome, ok, panic, ◌>>=◌, Bool-cases, Option-cases, ==→eq, leb→gt, ltb→lt, lt→ltb,
}
use cs3500_os.Kalloc.{pgsize}
use cs3500_os.Mmap.{
  Vma, Space, Files, mmapbase, mmaptop, map_shared, failed, has, sign_extend, filedup, free_slot,
  file_of, read_only, end_addr, new_vma, map_at, place, sys_mmap,
}

abbrev pub Apart : Vma → Vma → Type 0
Apart v w = v.valid ≡ true → w.valid ≡ true → (v.end ≤ w.start) ⊎ (w.end ≤ v.start)

abbrev pub Disjoint : List Vma → Type 0
Disjoint [] = Unit {0}
Disjoint (v ∷ vs) = All (Apart v) vs × Disjoint vs

pub record IsArea (cur : ℕ) (v : Vma) : Type 0 where
  pub aligned : v.start % 4096 ≡ 0
  pub low : mmapbase ≤ v.start
  pub nonempty : v.start < v.end
  pub high : v.end ≤ cur

abbrev pub Areas : ℕ → List Vma → Type 0
Areas cur vs = All (λ v. v.valid ≡ true → IsArea cur v) vs

-- Each valid area lies page-aligned between MMAPBASE and cur_vma_start, and no two share an address.
pub record IsLaidOut (p : Space) : Type 0 where
  pub aligned : p.cur_vma_start % 4096 ≡ 0
  pub low : mmapbase ≤ p.cur_vma_start
  pub high : p.cur_vma_start < mmaptop
  pub areas : Areas p.cur_vma_start p.vma
  pub disjoint : Disjoint p.vma

Areas-mono : (cur cur' : ℕ) (vs : List Vma) → cur ≤ cur' → Areas cur vs → Areas cur' vs
Areas-mono cur cur' [] h a = tt
Areas-mono cur cur' (v ∷ vs) h a = (
  λ t.
      let r = a.0 t in
      record {
        aligned = r.aligned;
        low = r.low;
        nonempty = r.nonempty;
        high = omega (arith, r.high);
      },
  Areas-mono cur cur' vs h a.1,
)

Areas-set :
    (cur i : ℕ) (n : Vma) (vs : List Vma) → IsArea cur n → Areas cur vs → Areas cur (set vs i n)
Areas-set cur i n [] h a = tt
Areas-set cur zero n (v ∷ vs) h a = (λ t. h, a.1)
Areas-set cur (suc i) n (v ∷ vs) h a = (a.0, Areas-set cur i n vs h a.1)

-- A new area that begins where all others have ended.
Apart-above : (cur : ℕ) (n : Vma) (vs : List Vma) → n.start ≡ cur → Areas cur vs → All (Apart n) vs
Apart-above cur n [] e a = tt
Apart-above cur n (v ∷ vs) e a =
    (λ tn tv. let r = a.0 tv in inr (omega (arith, r.high)), Apart-above cur n vs e a.1)

All-set :
    (v n : Vma) (i : ℕ) (vs : List Vma) → Apart v n → All (Apart v) vs → All (Apart v) (set vs i n)
All-set v n i [] h a = tt
All-set v n zero (w ∷ vs) h a = (h, a.1)
All-set v n (suc i) (w ∷ vs) h a = (a.0, All-set v n i vs h a.1)

Disjoint-set :
    (cur i : ℕ) (n : Vma) (vs : List Vma)
    → n.start ≡ cur
    → Areas cur vs
    → Disjoint vs
    → Disjoint (set vs i n)
Disjoint-set cur i n [] e a d = tt
Disjoint-set cur zero n (v ∷ vs) e a d = (Apart-above cur n vs e a.1, d.1)
Disjoint-set cur (suc i) n (v ∷ vs) e a d = (
  All-set v n i vs (λ tv tn. let r = a.0 tv in inl (omega (arith, r.high))) d.0,
  Disjoint-set cur i n vs e a.1 d.1,
)

get_elem?-free_slot :
    (vs : List Vma) (i : ℕ) (n : Vma) → free_slot vs ≡ some i → get_elem? (set vs i n) i ≡ some n
unfolding free_slot
get_elem?-free_slot [] i n e = absurd (cc)
get_elem?-free_slot (v ∷ vs) zero n e = refl
get_elem?-free_slot (v ∷ vs) (suc i) n e = get_elem?-free_slot vs i n (ground arith)

free_slot-empty :
    (vs : List Vma) (i : ℕ)
    → free_slot vs ≡ some i
    → (v : Vma) × (get_elem? vs i ≡ some v) × (v.valid ≡ false)
unfolding free_slot
free_slot-empty [] i e = absurd (cc)
free_slot-empty (v ∷ vs) i e = elim (Bool-cases v.valid) [
  | inr empty ↦
      let e' = simp empty at e in
      let here : 0 ≡ i = cc in
      subst (λ k. (w : Vma) × (get_elem? (v ∷ vs) k ≡ some w) × (w.valid ≡ false)) here
        (v, refl, empty)
  | inl full ↦ elim (Option-cases (free_slot vs)) [
    | inl n ↦ let e' = simp (full, n) at e in absurd (cc)
    | inr (j, n) ↦
        let e' = simp (full, n) at e in
        let there : suc j ≡ i = cc in
        subst (λ k. (w : Vma) × (get_elem? (v ∷ vs) k ≡ some w) × (w.valid ≡ false)) there
          (free_slot-empty vs j n)
  ]
]

-- What makes the kernel fault: a descriptor out of range, a shared mapping of no file, or a file
-- that nobody references.
abbrev pub Faults : Space → Files → ℕ → ℕ → Type 0
Faults p fs flags fd =
    (get_elem? p.ofile fd ≡ none)
    ⊎ ((has flags map_shared ≡ true) × (get_elem? p.ofile fd ≡ some 0))
    ⊎ ((f : ℕ) × (get_elem? p.ofile fd ≡ some f) × (fs.ref f < 1))

-- Where sys_mmap() does not fail, it fills a free slot.
data MmapCase (p : Space) (fs : Files) (len prot flags fd : ℕ)
    : Outcome (ℕ × Space × Files) → Type 0 where
  refuses : MmapCase p fs len prot flags fd (ok (failed, p, fs))
  faults : Faults p fs flags fd → MmapCase p fs len prot flags fd panic
  maps :
      (i f : ℕ)
      → get_elem? p.ofile fd ≡ some f
      → free_slot p.vma ≡ some i
      → end_addr p len < mmaptop
      → MmapCase p fs len prot flags fd (map_at p fs i len prot flags fd f)

place-MmapCase :
    (p : Space) (fs : Files) (len prot flags fd f : ℕ) (refuse : Bool)
    → get_elem? p.ofile fd ≡ some f
    → MmapCase p fs len prot flags fd (place p fs len prot flags fd f refuse)
unfolding place
place-MmapCase p fs len prot flags fd f true o = refuses
place-MmapCase p fs len prot flags fd f false o = elim (Bool-cases (leb mmaptop (end_addr p len))) [
  | inl high ↦ rw high refuses
  | inr low ↦ elim (Option-cases (free_slot p.vma)) [
    | inl e ↦ rw (low, e) refuses
    | inr (i, e) ↦ rw (low, e) (maps i f o e (leb→gt mmaptop (end_addr p len) low))
  ]
]

read_only-MmapCase :
    (p : Space) (fs : Files) (len prot flags fd f : ℕ)
    → get_elem? p.ofile fd ≡ some f
    → MmapCase p fs len prot flags fd
        (read_only fs f prot flags >>= λ r. place p fs len prot flags fd f r)
unfolding read_only
read_only-MmapCase p fs len prot flags fd f o = elim (Bool-cases (has flags map_shared)) [
  | inr private ↦ rw private (place-MmapCase p fs len prot flags fd f false o)
  | inl shared ↦ elim (Bool-cases (f == 0)) [
    | inl null ↦ rw (shared, null) (faults (inr (inl (shared, o ∙ ap some (==→eq f 0 null)))))
    | inr open_file ↦ rw (shared, open_file) (place-MmapCase p fs len prot flags fd f _ o)
  ]
]

sys_mmap-MmapCase :
    (p : Space) (fs : Files) (len prot flags fd offset : ℕ)
    → MmapCase p fs len prot flags fd (sys_mmap p fs len prot flags fd offset)
unfolding sys_mmap file_of
sys_mmap-MmapCase p fs len prot flags fd offset =
    elim (Bool-cases (len == 0 || not (offset % pgsize == 0))) [
      | inl bad ↦ rw bad refuses
      | inr good ↦ elim (Option-cases (get_elem? p.ofile fd)) [
        | inl o ↦ rw (good, file_of, o) (faults (inl o))
        | inr (f, o) ↦ rw (good, file_of, o) (read_only-MmapCase p fs len prot flags fd f o)
      ]
    ]

-- The space after a mapping at slot i.
abbrev mapped : Space → ℕ → ℕ → ℕ → ℕ → ℕ → ℕ → Space
mapped p i len prot flags fd f = record p {
  vma = set p.vma i (new_vma p len prot flags fd f);
  cur_vma_start = end_addr p len;
}

end_addr_covers :
    (p : Space) (len : ℕ) → IsLaidOut p → len < 2 ^ 31 → p.cur_vma_start + len ≤ end_addr p len
end_addr_covers p len v small =
    let ext : sign_extend len ≡ len = rw (lt→ltb len (2 ^ 31) small) in omega (arith, ext, v.high)

mapped-IsLaidOut :
    (p : Space) (i len prot flags fd f : ℕ)
    → IsLaidOut p
    → 0 < len
    → len < 2 ^ 31
    → end_addr p len < mmaptop
    → IsLaidOut (mapped p i len prot flags fd f)
mapped-IsLaidOut p i len prot flags fd f v pos small fits =
    let n = new_vma p len prot flags fd f in
    let ext : sign_extend len ≡ len = rw (lt→ltb len (2 ^ 31) small) in
    let grows : p.cur_vma_start + len ≤ end_addr p len = end_addr_covers p len v small in
    let whole : end_addr p len % 4096 ≡ 0 = omega (arith, ext) in
    record {
      aligned = whole;
      low = omega (arith, v.low);
      high = fits;
      areas =
          Areas-set (end_addr p len) i n p.vma
            (record {
              aligned = v.aligned;
              low = v.low;
              nonempty = omega (arith);
              high = omega (arith);
            })
            (Areas-mono p.cur_vma_start (end_addr p len) p.vma (omega arith) v.areas);
      disjoint = Disjoint-set p.cur_vma_start i n p.vma refl v.areas v.disjoint;
    }

-- filedup() of a file that is there
abbrev referenced : Files → ℕ → Files
referenced fs f = if f == 0 then fs else record fs { ref = update fs.ref f (fs.ref f + 1) }

abbrev Mapped : Space → Files → ℕ → ℕ → ℕ → ℕ → ℕ → Space → Files → Type 0
Mapped p fs len prot flags fd a p' fs' =
    (i : ℕ) × (f : ℕ) × (v : Vma) × (get_elem? p.ofile fd ≡ some f)
    × (get_elem? p.vma i ≡ some v)
    × (v.valid ≡ false)
    × (p' ≡ mapped p i len prot flags fd f)
    × (fs' ≡ referenced fs f)
    × (a ≡ p.cur_vma_start)
    × (get_elem? p'.vma i ≡ some (new_vma p len prot flags fd f))
    × (a + len ≤ p'.cur_vma_start)

-- What a call of sys_mmap may give.
abbrev pub Maps : Space → Files → ℕ → ℕ → ℕ → ℕ → Outcome (ℕ × Space × Files) → Type 0
Maps p fs len prot flags fd panic = Faults p fs flags fd
Maps p fs len prot flags fd (ok (a, p', fs')) =
    IsLaidOut p' × ((a ≡ failed) × (p' ≡ p) × (fs' ≡ fs) ⊎ Mapped p fs len prot flags fd a p' fs')

map_at-Maps :
    (p : Space) (fs : Files) (i len prot flags fd f : ℕ)
    → IsLaidOut p
    → 0 < len
    → len < 2 ^ 31
    → get_elem? p.ofile fd ≡ some f
    → free_slot p.vma ≡ some i
    → end_addr p len < mmaptop
    → Maps p fs len prot flags fd (map_at p fs i len prot flags fd f)
unfolding map_at filedup
map_at-Maps p fs i len prot flags fd f v pos small o e fits = elim (Bool-cases (f == 0)) [
  | inl null ↦ rw null (result fs (rw null))
  | inr open_file ↦ elim (Bool-cases (ltb (fs.ref f) 1)) [
    | inl unreferenced ↦
        rw (open_file, unreferenced) (inr (inr (f, o, ltb→lt (fs.ref f) 1 unreferenced)))
    | inr counted ↦ rw (open_file, counted) (result _ (rw open_file))
  ]
]
  where
    p' : Space
    p' = mapped p i len prot flags fd f

    laid : IsLaidOut p'
    laid = mapped-IsLaidOut p i len prot flags fd f v pos small fits

    covers : p.cur_vma_start + len ≤ end_addr p len
    covers = end_addr_covers p len v small

    result :
        (fs' : Files)
        → fs' ≡ referenced fs f
        → IsLaidOut p'
          × ((p.cur_vma_start ≡ failed) × (p' ≡ p) × (fs' ≡ fs)
              ⊎ Mapped p fs len prot flags fd p.cur_vma_start p' fs')
    result fs' r = (
      laid,
      inr (
        i,
        f,
        (free_slot-empty p.vma i e).0,
        o,
        (free_slot-empty p.vma i e).1,
        (free_slot-empty p.vma i e).2,
        refl,
        r,
        refl,
        get_elem?-free_slot p.vma i (new_vma p len prot flags fd f) e,
        covers,
      ),
    )

-- On a process whose areas are laid out and with 0 < len < 2^31, sys_mmap either panics, and then
-- the descriptor is out of range, or the flags are MAP_SHARED on a closed descriptor, or the open
-- file has no references; or it fails and changes nothing; or it changes nothing but a slot that
-- was not valid, which it fills with the area from cur_vma_start to the new cur_vma_start, of at
-- least len bytes, and cur_vma_start itself, and counts the file, if any, once more. If it does
-- not panic, the areas stay laid out: page-aligned, within MMAPBASE and cur_vma_start, and apart.
pub sys_mmap-Maps :
    (p : Space) (fs : Files) (len prot flags fd offset : ℕ)
    → IsLaidOut p
    → 0 < len
    → len < 2 ^ 31
    → Maps p fs len prot flags fd (sys_mmap p fs len prot flags fd offset)
sys_mmap-Maps p fs len prot flags fd offset v pos small =
    go (sys_mmap-MmapCase p fs len prot flags fd offset)
  where
    go :
        {r : Outcome (ℕ × Space × Files)}
        → MmapCase p fs len prot flags fd r
        → Maps p fs len prot flags fd r
    go refuses = (v, inl (refl, refl, refl))
    go (faults why) = why
    go (maps i f o e fits) = map_at-Maps p fs i len prot flags fd f v pos small o e fits
