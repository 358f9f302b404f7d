-- ===== src/Mmap/Process.antt =====
-- labs/week7/EE23B102/xv6-riscv/kernel/proc.c: what allocproc(), kfork() and kexit() do with the mapped
-- areas of a process.
mod Tests
use cs3500_os.Base.{
  ltb, leb, ◌⊎◌, ge→ltb, ==→ne, ℕ, zero, suc, ◌+◌, ◌-◌, ◌*◌, ◌/◌, ◌%◌, ◌≤◌, ◌<◌, ◌≡◌, refl, sym, ap,
  subst, ◌∙◌, Bool, true, false, not, List, [], ◌∷◌, ◌++◌, map, Option, arith, fun_ext, ◌≢◌, ◌==◌,
  if◌then◌else◌, length, All, update, Outcome, ok, panic, ◌>>=◌, ◌>>◌, panic_if, inl, inr,
  Bool-cases, ne→==,
}
use mathlib.Core.List.{append_assoc, append-nil}
use cs3500_os.SharedTab.{Buckets, shared_decref}
use cs3500_os.Kalloc.{pgsize}
use cs3500_os.Mmap.{Vma, Files, filedup}
use cs3500_os.Mmap.Unmap.{
  pte_v, pte2pa, maxva, is_shared, file_offset, Pages, uvmunmap_one, unmap_at, unmap_pages,
}

-- The loop of allocproc() over the slots; `prot` and `file` are left as they are.
pub reset_slot : Vma → Vma
reset_slot v = record v {
  valid = false;
  start = 0;
  end = 0;
  len = 0;
  flags = 0;
  offset = 0;
  fd = 0;
}

-- The first slot of the child that is not valid takes the parent's area, but for the offset.
pub fill_slot : Vma → List Vma → List Vma
fill_slot pv [] = []
fill_slot pv (v ∷ vs) =
    if v.valid then v ∷ fill_slot pv vs else record pv { offset = v.offset } ∷ vs

abbrev pub has_slot : List Vma → Bool
has_slot [] = false
has_slot (v ∷ vs) = if v.valid then has_slot vs else true

-- The loop of kfork() over the parent's slots.
pub fork_areas : List Vma → List Vma → Files → Outcome (List Vma × Files)
unfolding fill_slot filedup
fork_areas [] child fs = ok (child, fs)
fork_areas (pv ∷ parent) child fs =
    let copied = (if pv.file == 0 then ok fs else filedup fs pv.file) >>= λ fs'.
    fork_areas parent (fill_slot pv child) fs' in
    let skipped = fork_areas parent child fs in
    if pv.valid then (if has_slot child then copied else skipped) else skipped

-- uvmunmap(p->pagetable, i, 1, 1), with the slot's number i for an address
pub uvmunmap_slot : ℕ → Pages → Outcome Pages
uvmunmap_slot i s =
    panic_if (not (i % pgsize == 0))
    >> (if pte_v (s.pte (i / pgsize))
        then ok (record s {
          pte = update s.pte (i / pgsize) 0;
          freed = s.freed ++ pte2pa (s.pte (i / pgsize)) ∷ [];
        })
        else ok s)

-- The body of kexit()'s loop over the pages of the area v in slot i, at the address j
pub exit_at : Vma → ℕ → ℕ → ℕ → Pages → Outcome Pages
unfolding uvmunmap_slot uvmunmap_one
exit_at v ip i j s =
    panic_if (leb maxva j)
    >> (if pte_v (s.pte (j / pgsize))
        then (if is_shared v
            then (let (tab', pages) = shared_decref s.tab ip (file_offset v j) in
                uvmunmap_one j false (record s { tab = tab'; freed = s.freed ++ pages }))
            else uvmunmap_slot i s)
        else ok s)

-- for(j = v->start; j <= v->end; j += PGSIZE), with the rounds n
pub exit_area : Vma → ℕ → ℕ → ℕ → ℕ → Pages → Outcome Pages
unfolding exit_at
exit_area v ip i zero j s = ok s
exit_area v ip i (suc n) j s = exit_at v ip i j s >>= λ s'. exit_area v ip i n (j + pgsize) s'

abbrev pub valid_areas : List Vma → List Vma
valid_areas [] = []
valid_areas (v ∷ vs) = if v.valid then v ∷ valid_areas vs else valid_areas vs

abbrev pub no_offset : Vma → Vma
no_offset v = record v { offset = 0 }

abbrev IsValidArea : Vma → Type 0
IsValidArea v = v.valid ≡ true

fill_slot-append :
    (pv f : Vma) (used free : List Vma)
    → All IsValidArea used
    → fill_slot pv (used ++ (reset_slot f ∷ free)) ≡ used ++ (no_offset pv ∷ free)
unfolding fill_slot reset_slot
fill_slot-append pv f [] free a = refl
fill_slot-append pv f (v ∷ used) free a =
    simp a.0 (ap (◌∷◌ v) (fill_slot-append pv f used free a.1))

has_slot-append :
    (f : Vma) (used free : List Vma)
    → All IsValidArea used
    → has_slot (used ++ (reset_slot f ∷ free)) ≡ true
unfolding reset_slot
has_slot-append f [] free a = refl
has_slot-append f (v ∷ used) free a = rw a.0 (has_slot-append f used free a.1)

All-append :
    (used : List Vma) (v : Vma)
    → All IsValidArea used
    → v.valid ≡ true
    → All IsValidArea (used ++ v ∷ [])
All-append [] v a t = (t, tt)
All-append (u ∷ used) v a t = (a.0, All-append used v a.1 t)

valid_areas-append :
    (used free : List Vma) → All IsValidArea used → valid_areas (used ++ map reset_slot free) ≡ used
unfolding reset_slot
valid_areas-append [] [] a = refl
valid_areas-append [] (f ∷ free) a = valid_areas-append [] free a
valid_areas-append (u ∷ used) free a = simp a.0 (ap (◌∷◌ u) (valid_areas-append used free a.1))

valid_areas-cons :
    (v : Vma) (vs : List Vma) → v.valid ≡ true → valid_areas (v ∷ vs) ≡ v ∷ valid_areas vs
valid_areas-cons v vs t = ground arith

fork_areas_loop :
    (parent used free : List Vma) (fs fs' : Files) (cs : List Vma)
    → All IsValidArea used
    → length parent ≤ length free
    → fork_areas parent (used ++ map reset_slot free) fs ≡ ok (cs, fs')
    → valid_areas cs ≡ used ++ map no_offset (valid_areas parent)
unfolding fork_areas
fork_areas_loop [] used free fs fs' cs a n e =
    let e' : used ++ map reset_slot free ≡ cs = cc in
    subst (λ l. valid_areas l ≡ used ++ []) e'
      (valid_areas-append used free a ∙ sym (append-nil used))
fork_areas_loop (pv ∷ parent) used [] fs fs' cs a n e = absurd (omega arith)
fork_areas_loop (pv ∷ parent) used (f ∷ free) fs fs' cs a n e = elim (Bool-cases pv.valid) [
  | inr empty ↦
      let rest =
        fork_areas_loop parent used (f ∷ free) fs fs' cs a (omega arith) (simp empty at e) in
      simp empty rest
  | inl full ↦
      (copied
        (λ g.
          fork_areas_loop parent (used ++ no_offset pv ∷ []) free g fs' cs
            (All-append used (no_offset pv) a full) (omega arith))
        (if pv.file == 0 then ok fs else filedup fs pv.file)
        (simp (full, has_slot-append f used (map reset_slot free) a) at e))
      ∙ ap (λ l. used ++ map no_offset l) (sym (valid_areas-cons pv parent full))
]
  where
    copied :
        ((g : Files)
          → fork_areas parent ((used ++ no_offset pv ∷ []) ++ map reset_slot free) g ≡ ok (cs, fs')
          → valid_areas cs ≡ (used ++ no_offset pv ∷ []) ++ map no_offset (valid_areas parent))
        → (o : Outcome Files)
        → (o >>= λ g. fork_areas parent (fill_slot pv (used ++ map reset_slot (f ∷ free))) g)
          ≡ ok (cs, fs')
        → valid_areas cs ≡ used ++ map no_offset (pv ∷ valid_areas parent)
    copied rest panic e = absurd (cc)
    copied rest (ok g) e =
        let x = no_offset pv in
        let child : fill_slot pv (used ++ map reset_slot (f ∷ free))
            ≡ (used ++ x ∷ []) ++ map reset_slot free =
          fill_slot-append pv f used (map reset_slot free) a
          ∙ sym (append_assoc used (x ∷ []) (map reset_slot free)) in
        rest g (ap (λ c. fork_areas parent c g) (sym child) ∙ e)
        ∙ append_assoc used (x ∷ []) (map no_offset (valid_areas parent))

-- The area, if valid, has no file or one that is referenced.
abbrev pub IsBacked : Files → Vma → Type 0
IsBacked fs v = (v.valid ≡ false) ⊎ (v.file ≡ 0) ⊎ (0 < fs.ref v.file)

IsBacked-filedup :
    (fs : Files) (f : ℕ) (vs : List Vma)
    → All (IsBacked fs) vs
    → All (IsBacked (record fs { ref = update fs.ref f (fs.ref f + 1) })) vs
IsBacked-filedup fs f [] a = tt
IsBacked-filedup fs f (v ∷ vs) a = (more a.0, IsBacked-filedup fs f vs a.1)
  where
    more : IsBacked fs v → IsBacked (record fs { ref = update fs.ref f (fs.ref f + 1) }) v
    more (inl empty) = inl empty
    more (inr (inl null)) = inr (inl null)
    more (inr (inr pos)) = inr (inr (ground arith))

fork_areas-returns :
    (parent child : List Vma) (fs : Files)
    → All (IsBacked fs) parent
    → (cs : List Vma) × (fs' : Files) × (fork_areas parent child fs ≡ ok (cs, fs'))
unfolding fork_areas filedup
fork_areas-returns [] child fs a = (child, fs, refl)
fork_areas-returns (pv ∷ parent) child fs a = elim (Bool-cases pv.valid) [
  | inr empty ↦ simp empty (fork_areas-returns parent child fs a.1)
  | inl full ↦ elim (Bool-cases (has_slot child)) [
    | inr none_free ↦ simp (full, none_free) (fork_areas-returns parent child fs a.1)
    | inl slot ↦ elim (Bool-cases (pv.file == 0)) [
      | inl null ↦ simp (full, slot, null) (fork_areas-returns parent (fill_slot pv child) fs a.1)
      | inr open_file ↦
          let pos : ltb (fs.ref pv.file) 1 ≡ false =
            ge→ltb (fs.ref pv.file) 1 (held a.0 full open_file) in
          simp (full, slot, open_file, pos)
            (fork_areas-returns parent (fill_slot pv child)
              (record fs { ref = update fs.ref pv.file (fs.ref pv.file + 1) })
              (IsBacked-filedup fs pv.file parent a.1))
    ]
  ]
]
  where
    held : IsBacked fs pv → pv.valid ≡ true → (pv.file == 0) ≡ false → 1 ≤ fs.ref pv.file
    held (inl empty) full open_file = absurd (cc)
    held (inr (inl null)) full open_file = absurd (==→ne pv.file 0 open_file null)
    held (inr (inr pos)) full open_file = pos

-- If the child has as many slots as the parent, freshly reset, and each valid area of the parent
-- has no file or a referenced one, the loop of kfork returns without a panic and the valid areas
-- of the child are those of the parent in their order, with the offset 0.
pub fork_areas-valid_areas :
    (parent child : List Vma) (fs : Files)
    → length parent ≤ length child
    → All (IsBacked fs) parent
    → (cs : List Vma) × (fs' : Files) × (fork_areas parent (map reset_slot child) fs ≡ ok (cs, fs'))
      × (valid_areas cs ≡ map no_offset (valid_areas parent))
fork_areas-valid_areas parent child fs n a =
    let (cs, fs', e) = fork_areas-returns parent (map reset_slot child) fs a in
    (cs, fs', e, fork_areas_loop parent [] child fs fs' cs tt n e)

-- For a private area in a slot i with 0 < i < 4096 that has a resident page, the page loop of
-- kexit panics.
pub exit_area_private_panics :
    (v : Vma) (ip i n k j : ℕ) (s : Pages)
    → is_shared v ≡ false
    → 0 < i
    → i < 4096
    → k < n
    → pte_v (s.pte (j / 4096 + k)) ≡ true
    → exit_area v ip i n j s ≡ panic
unfolding exit_area exit_at uvmunmap_slot
exit_area_private_panics v ip i zero k j s p lo hi lt r = absurd (omega arith)
exit_area_private_panics v ip i (suc n) k j s p lo hi lt r = elim (Bool-cases (leb maxva j)) [
  | inl above ↦ rw above refl
  | inr below ↦ elim (Bool-cases (pte_v (s.pte (j / pgsize)))) [
    | inl here ↦ rw (below, here, p, ne→== (i % pgsize) 0 (omega arith))
    | inr absent ↦
        let k' = k - 1 in
        let pos : k ≢ 0 = first k r absent in
        let at : (j + pgsize) / 4096 + k' ≡ j / 4096 + k = omega arith in
        rw (below, absent)
          (exit_area_private_panics v ip i n k' (j + pgsize) s p lo hi (omega arith)
            (ap (λ q. pte_v (s.pte q)) at ∙ r))
  ]
]
  where
    first :
        (k : ℕ) → pte_v (s.pte (j / 4096 + k)) ≡ true → pte_v (s.pte (j / pgsize)) ≡ false → k ≢ 0
    first k r absent z =
        let e : j / 4096 + k ≡ j / 4096 = omega arith in cc (ap (λ q. pte_v (s.pte q)) e)

exit_at_shared :
    (v : Vma) (ip i j : ℕ) (s : Pages) → is_shared v ≡ true → exit_at v ip i j s ≡ unmap_at v ip j s
unfolding exit_at unmap_at
exit_at_shared v ip i j s h = rw h

-- For a shared area, the page loop of kexit does the same as the page loop of sys_munmap.
pub exit_area_shared :
    (v : Vma) (ip i n j : ℕ) (s : Pages)
    → is_shared v ≡ true
    → exit_area v ip i n j s ≡ unmap_pages v ip n j s
unfolding exit_area unmap_pages
exit_area_shared v ip i zero j s h = refl
exit_area_shared v ip i (suc n) j s h =
    ap (λ o. o >>= λ s'. exit_area v ip i n (j + pgsize) s') (exit_at_shared v ip i j s h)
    ∙ ap (λ (f : Pages → Outcome Pages). unmap_at v ip j s >>= f)
        (fun_ext λ s'. exit_area_shared v ip i n (j + pgsize) s' h)
