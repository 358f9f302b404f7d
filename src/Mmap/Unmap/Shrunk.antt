-- ===== src/Mmap/Unmap/Shrunk.antt =====
-- sysfile.c: what sys_munmap() leaves of the mapped areas.
use cs3500_os.Base.{
  ℕ, zero, suc, ◌+◌, ◌%◌, ◌^◌, ◌≤◌, ◌<◌, ◌≡◌, ◌≢◌, refl, subst, ◌⊎◌, inl, inr, true, false, ◌&&◌,
  List, [], ◌∷◌, some, arith, ltb, ◌==◌, get_elem?, set, All, Outcome, ok, panic, ◌>>=◌, Bool-cases,
  Option-cases, ==→ne, lt→ltb,
}
use cs3500_os.SharedTab.{Buckets}
use cs3500_os.Mmap.{Vma, Space, Files, sign_extend}
use cs3500_os.Mmap.Layout.{Apart, Disjoint, IsArea, Areas, IsLaidOut}
use cs3500_os.Mmap.Unmap.{
  Pages, Write, Unmapped, find_area, fileclose, shrink, finish, unmap_pages, munmap_area,
  sys_munmap, rounds_to, written_back,
}

-- The area w lies inside v.
record Within (w v : Vma) : Type 0 where
  valid : v.valid ≡ true
  low : v.start ≤ w.start
  high : w.end ≤ v.end

abbrev Inside : Vma → Vma → Type 0
Inside w v = w.valid ≡ true → Within w v

Apart-Inside : (v w x : Vma) → Inside w v → Apart x v → Apart x w
Apart-Inside v w x i a tx tw =
    let r = i tw in
    elim (a tx r.valid) [ inl h ↦ inl (omega (arith, r.low)) | inr h ↦ inr (omega (arith, r.high)) ]

Apart-sym : (v w : Vma) → Apart v w → Apart w v
Apart-sym v w a tw tv = elim (a tv tw) [ inl h ↦ inr h | inr h ↦ inl h ]

All-sub :
    (x w v : Vma) (vs : List Vma) (i : ℕ)
    → Inside w v
    → get_elem? vs i ≡ some v
    → All (Apart x) vs
    → All (Apart x) (set vs i w)
All-sub x w v [] i h e a = tt
All-sub x w v (y ∷ vs) zero h e a =
    let e' : y ≡ v = cc in (Apart-Inside v w x h (subst (Apart x) e' a.0), a.1)
All-sub x w v (y ∷ vs) (suc i) h e a = (a.0, All-sub x w v vs i h e a.1)

All-Inside : (w v : Vma) (vs : List Vma) → Inside w v → All (Apart v) vs → All (Apart w) vs
All-Inside w v [] h a = tt
All-Inside w v (y ∷ vs) h a =
    (Apart-sym y w (Apart-Inside v w y h (Apart-sym v y a.0)), All-Inside w v vs h a.1)

Disjoint-sub :
    (w v : Vma) (vs : List Vma) (i : ℕ)
    → Inside w v
    → get_elem? vs i ≡ some v
    → Disjoint vs
    → Disjoint (set vs i w)
Disjoint-sub w v [] i h e d = tt
Disjoint-sub w v (y ∷ vs) zero h e d =
    let e' : y ≡ v = cc in (All-Inside w v vs h (subst (λ y. All (Apart y) vs) e' d.0), d.1)
Disjoint-sub w v (y ∷ vs) (suc i) h e d =
    (All-sub y w v vs i h e d.0, Disjoint-sub w v vs i h e d.1)

Areas-sub :
    (cur : ℕ) (w : Vma) (vs : List Vma) (i : ℕ)
    → (w.valid ≡ true → IsArea cur w)
    → Areas cur vs
    → Areas cur (set vs i w)
Areas-sub cur w [] i h a = tt
Areas-sub cur w (y ∷ vs) zero h a = (h, a.1)
Areas-sub cur w (y ∷ vs) (suc i) h a = (a.0, Areas-sub cur w vs i h a.1)

Areas-at :
    (cur : ℕ) (v : Vma) (vs : List Vma) (i : ℕ)
    → get_elem? vs i ≡ some v
    → v.valid ≡ true
    → Areas cur vs
    → IsArea cur v
Areas-at cur v [] i e t a = absurd (cc)
Areas-at cur v (y ∷ vs) zero e t a =
    let e' : y ≡ v = cc in subst (λ y. y.valid ≡ true → IsArea cur y) e' a.0 t
Areas-at cur v (y ∷ vs) (suc i) e t a = Areas-at cur v vs i e t a.1

record Found (lo hi : ℕ) (vs : List Vma) (i : ℕ) (v : Vma) : Type 0 where
  at : get_elem? vs i ≡ some v
  valid : v.valid ≡ true
  low : v.start ≤ lo
  high : hi ≤ v.end

find_area-Found :
    (lo hi : ℕ) (vs : List Vma) (i : ℕ) (v : Vma)
    → find_area lo hi vs ≡ some (i, v)
    → Found lo hi vs i v
unfolding find_area
find_area-Found lo hi [] i v e = absurd (cc)
find_area-Found lo hi (y ∷ vs) zero v e = record {
  at = ground arith;
  valid = ground arith;
  low = ground arith;
  high = ground arith;
}
find_area-Found lo hi (y ∷ vs) (suc i) v e =
    let r = find_area-Found lo hi vs i v (ground arith) in
    record { at = r.at; valid = r.valid; low = r.low; high = r.high }

shrink_cases :
    (fs fs' : Files) (v w : Vma) (lo hi : ℕ)
    → v.start ≤ lo
    → hi ≤ v.end
    → lo < hi
    → shrink fs v lo hi ≡ ok (w, fs')
    → (w.valid ≡ false)
      ⊎ ((v.start ≤ w.start)
          × (w.end ≤ v.end)
          × (w.start < w.end)
          × ((w.start ≡ v.start) ⊎ (w.start ≡ hi)))
unfolding shrink
shrink_cases fs fs' v w lo hi l h lt e = elim (Bool-cases (v.start == lo && v.end == hi)) [
  | inl whole ↦ inl (closed (fileclose fs v.file) (rw whole at e))
  | inr part ↦ elim (Bool-cases (v.start == lo && ltb hi v.end)) [
    | inl front ↦ inr (ground arith, ground arith, ground arith, inr (ground arith))
    | inr other ↦ elim (Bool-cases (v.end == hi && ltb v.start lo)) [
      | inl back ↦ inr (ground arith, ground arith, ground arith, inl (ground arith))
      | inr middle ↦ inr (ground arith, ground arith, ground arith, inl (ground arith))
    ]
  ]
]
  where
    closed :
        (r : Outcome Files)
        → ◌≡◌ {A = Outcome (Vma × Files)}
            (r >>= λ fs'. ok (record v { valid = false; len = 0 }, fs'))
            (ok (w, fs'))
        → w.valid ≡ false
    closed panic c = absurd (cc)
    closed (ok g) c = cc

-- The area that shrink() leaves lies in the old one, and is still an area if the range was aligned.
shrink-Inside :
    (fs fs' : Files) (v w : Vma) (cur lo hi : ℕ)
    → v.valid ≡ true
    → IsArea cur v
    → v.start ≤ lo
    → hi ≤ v.end
    → lo < hi
    → hi % 4096 ≡ 0
    → shrink fs v lo hi ≡ ok (w, fs')
    → Inside w v × (w.valid ≡ true → IsArea cur w)
shrink-Inside fs fs' v w cur lo hi t a l h lt al e = elim (shrink_cases fs fs' v w lo hi l h lt e) [
  | inl gone ↦ (λ tw. absurd (cc), λ tw. absurd (cc))
  | inr (low, high, nonempty, from) ↦ (
    λ tw. record { valid = t; low = low; high = high },
    λ tw. record {
      aligned = elim from [ inl s ↦ omega (arith, a.aligned) | inr s ↦ omega (arith, al) ];
      low = omega (arith, a.low);
      nonempty = nonempty;
      high = omega (arith, a.high);
    },
  )
]

finish_space :
    (p : Space) (fs : Files) (lo hi i : ℕ) (v : Vma) (written : List Write) (s : Pages)
    (u : Unmapped)
    → finish p fs lo hi i v written s ≡ ok u
    → (w : Vma) × (shrink fs v lo hi ≡ ok (w, u.files))
      × (set p.vma i w ≡ u.space.vma)
      × (p.cur_vma_start ≡ u.space.cur_vma_start)
unfolding finish
finish_space p fs lo hi i v written s u e = go (shrink fs v lo hi) refl e
  where
    go :
        (r : Outcome (Vma × Files))
        → shrink fs v lo hi ≡ r
        → (r >>= λ (v', fs'). ok (record {
          result = 0;
          space = record p { vma = set p.vma i v'; pte = s.pte };
          files = fs';
          tab = s.tab;
          freed = s.freed;
          written = written;
        }))
          ≡ ok u
        → (w : Vma) × (shrink fs v lo hi ≡ ok (w, u.files))
          × (set p.vma i w ≡ u.space.vma)
          × (p.cur_vma_start ≡ u.space.cur_vma_start)
    go panic f e = absurd (cc)
    go (ok (v', fs')) f e = (v', cc, cc, cc)

area :
    (p : Space) (fs : Files) (tab : Buckets) (lo hi i : ℕ) (x : Vma) (u : Unmapped)
    → IsLaidOut p
    → lo < hi
    → hi % 4096 ≡ 0
    → Found lo hi p.vma i x
    → munmap_area p fs tab lo hi i x ≡ ok u
    → IsLaidOut u.space
unfolding munmap_area
area p fs tab lo hi i x u v lt al f e =
    go
      (unmap_pages x (fs.ip x.file) (rounds_to lo hi) lo
        (record { pte = p.pte; tab = tab; freed = [] }))
      e
  where
    go :
        (r : Outcome Pages)
        → (r >>= λ s. finish p fs lo hi i x (written_back p fs lo hi x) s) ≡ ok u
        → IsLaidOut u.space
    go panic e = absurd (cc)
    go (ok s) e =
        let (w, sh, vm, cur) = finish_space p fs lo hi i x (written_back p fs lo hi x) s u e in
        let (inside, good) =
          shrink-Inside fs u.files x w p.cur_vma_start lo hi f.valid
            (Areas-at p.cur_vma_start x p.vma i f.at f.valid v.areas) f.low f.high lt al sh in
        record {
          aligned = omega (arith, cur, v.aligned);
          low = omega (arith, cur, v.low);
          high = omega (arith, cur, v.high);
          areas =
              subst (λ c. Areas c u.space.vma) cur
                (subst (Areas p.cur_vma_start) vm
                  (Areas-sub p.cur_vma_start w p.vma i good v.areas));
          disjoint = subst Disjoint vm (Disjoint-sub w x p.vma i inside f.at v.disjoint);
        }

-- munmap
pub sys_munmap-IsLaidOut :
    (p : Space) (fs : Files) (tab : Buckets) (addr len : ℕ) (u : Unmapped)
    → IsLaidOut p
    → addr % 4096 ≡ 0
    → len % 4096 ≡ 0
    → len < 2 ^ 31
    → addr + len < 2 ^ 64
    → sys_munmap p fs tab addr len ≡ ok u
    → IsLaidOut u.space
unfolding sys_munmap
sys_munmap-IsLaidOut p fs tab addr len u v al ll small fits e = elim (Bool-cases (len == 0)) [
  | inl zero_len ↦ subst IsLaidOut (ground arith) v
  | inr more ↦
      let hi = (addr + sign_extend len) % 2 ^ 64 in
      let end_at : hi ≡ addr + len = rw (lt→ltb len (2 ^ 31) small) (omega arith) in
      let pos : len ≢ 0 = ==→ne len 0 more in
      elim (Option-cases (find_area addr hi p.vma)) [
        | inl n ↦ let e' = simp (more, n) at e in subst IsLaidOut (ground arith) v
        | inr ((i, x), n) ↦
            area p fs tab addr hi i x u v (omega (arith)) (omega (arith))
              (find_area-Found addr hi p.vma i x n) (simp (more, n) at e)
      ]
]
