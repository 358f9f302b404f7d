-- ===== src/PageTable/Unmap.antt =====
-- vm.c: uvmunmap() clears its range, and gives the pages back.
use cs3500_os.Base.{
  ℕ, zero, suc, ◌+◌, ◌*◌, ◌/◌, ◌%◌, ◌^◌, ◌≤◌, ◌<◌, ◌≡◌, refl, sym, ap, subst, ◌∙◌, Bool, true,
  false, ltb, Absent, arith, inl, inr, Bool-cases, ◌>>=◌, ◌>>◌, Outcome, ok, lt→ltb, gt→leb, ge→ltb,
}
use cs3500_os.Kalloc.{Kmem, pgsize}
use cs3500_os.PageTable.{pte_v, pte2pa, walk_from, walk, maxva, unmap_slot, unmap_loop, uvmunmap}
use cs3500_os.PageTable.Tree.{Tree, IsTree, view}
use cs3500_os.PageTable.Walk.{walk_from-view}
use cs3500_os.PageTable.Map.{inside}
use cs3500_os.PageTable.Clear.{freed, cleared_out, Clears}
use cs3500_os.PageTable.Owning.{Owned, round, freed_cong, freed-Absent, Absent-pushed}

module _ (kernel_end : ℕ) where
  loop_more :
      (fuel root a end_va : ℕ) (f : Bool) (k k' : Kmem)
      → ltb a end_va ≡ true
      → a < maxva
      → unmap_slot kernel_end f (walk_from false 2 root a k).0 k ≡ ok k'
      → unmap_loop kernel_end (suc fuel) root a end_va f k
        ≡ unmap_loop kernel_end fuel root ((a + pgsize) % 2 ^ 64) end_va f k'
  unfolding unmap_loop walk
  loop_more fuel root a end_va f k k' more lt e =
      rw (more, unmap_loop, walk, gt→leb maxva a lt, ◌>>=◌, (walk_from-view 2 root a k).0, e, ◌>>=◌)
        refl

  loop_next :
      (fuel a end_va : ℕ) (f : Bool) (t u : Tree kernel_end)
      → ltb a end_va ≡ true
      → a < maxva
      → unmap_slot kernel_end f (walk_from false 2 t.root a t.kmem).0 t.kmem ≡ ok u.kmem
      → u.root ≡ t.root
      → unmap_loop kernel_end (suc fuel) t.root a end_va f t.kmem
        ≡ unmap_loop kernel_end fuel u.root (a + 4096) end_va f u.kmem
  loop_next fuel a end_va f t u more lt e same =
      let step : (a + pgsize) % 2 ^ 64 ≡ a + 4096 = omega arith in
      loop_more fuel t.root a end_va f t.kmem u.kmem more lt e
      ∙ (ap (λ x. unmap_loop kernel_end fuel t.root x end_va f u.kmem) step
          ∙ ap (λ x. unmap_loop kernel_end fuel x (a + 4096) end_va f u.kmem) (sym same))

  loop_stop :
      (fuel root a end_va : ℕ) (f : Bool) (k : Kmem)
      → ltb a end_va ≡ false
      → unmap_loop kernel_end fuel root a end_va f k ≡ ok k
  unfolding unmap_loop
  loop_stop zero root a end_va f k stop = rw stop refl
  loop_stop (suc fuel) root a end_va f k stop = rw (stop, unmap_loop) refl

  pub Clears-refl :
      (f : Bool) (t : Tree kernel_end) (a : ℕ) → IsTree kernel_end t → Clears kernel_end f t t a 0
  Clears-refl f t a v = record {
    valid = v;
    same_root = refl;
    same_level = λ p. refl;
    given_back = refl;
    views = λ w small. let out : inside a 0 w ≡ false = ground arith in rw out refl;
    kept = λ x h ab. refl;
  }

  -- A page behind the first
  later_view :
      (f : Bool) (t u : Tree kernel_end) (a w : ℕ)
      → Clears kernel_end f t u a 1
      → w < maxva
      → a + 4096 ≤ w
      → view u.kmem.mem u.root w ≡ view t.kmem.mem t.root w
  later_view f t u a w c lt h =
      let out : inside a 1 w ≡ false = ground (arith, h) in
      c.views w lt ∙ cleared_out (inside a 1 w) (view t.kmem.mem t.root w) out

  Clears-next :
      (f : Bool) (t u z : Tree kernel_end) (a n : ℕ)
      → a + suc n * 4096 ≤ maxva
      → Clears kernel_end f t u a 1
      → Clears kernel_end f u z (a + 4096) n
      → Clears kernel_end f t z a (suc n)
  Clears-next f t u z a n hi c d = record {
    valid = d.valid;
    same_root = d.same_root ∙ c.same_root;
    same_level = λ p. d.same_level p ∙ c.same_level p;
    given_back =
        d.given_back
        ∙ (freed_cong f (view u.kmem.mem u.root) (view t.kmem.mem t.root) (a + 4096) n u.pages
              (λ w lo up. later_view f t u a w c (omega arith) lo)
            ∙ ap (freed f (view t.kmem.mem t.root) (a + 4096) n) c.given_back);
    views = λ w small. d.views w small ∙ (elim (Bool-cases (inside (a + 4096) n w)) [
      | inl later ↦
          let both : inside a (suc n) w ≡ true = ground (arith, later) in
          let behind : a + 4096 ≤ w = ground (arith, later) in
          rw (later, both, later_view f t u a w c small behind) refl
      | inr past ↦ rw past (
          c.views w small ∙ (elim (Bool-cases (inside a 1 w)) [
            | inl here ↦
                let both : inside a (suc n) w ≡ true = ground (arith, here) in rw (here, both) refl
            | inr out ↦
                let both : inside a (suc n) w ≡ false = ground (arith, past, out) in
                rw (out, both) refl
          ]))
    ]);
    kept = λ x h ab.
        let ab' =
          freed-Absent f (view u.kmem.mem u.root) (a + 4096) n (x / 4096 * 4096) u.pages
            (subst (Absent (x / 4096 * 4096)) d.given_back ab) in
        d.kept x (c.same_level (x / 4096 * 4096) ∙ h) ab ∙ c.kept x h ab';
  }

  Owned-next :
      (t u : Tree kernel_end) (a n : ℕ)
      → a % 4096 ≡ 0
      → a < maxva
      → Clears kernel_end true t u a 1
      → Owned kernel_end t a (suc n)
      → Owned kernel_end u (a + 4096) n
  Owned-next t u a n al lt c o =
      let wider : (w : ℕ) → inside (a + 4096) n w ≡ true → inside a (suc n) w ≡ true =
        (λ w h. ground (arith, h)) in
      let first : inside a (suc n) a ≡ true = ground arith in
      let behind : (w : ℕ) → inside (a + 4096) n w ≡ true → a + 4096 ≤ w =
        (λ w h. ground (arith, h)) in
      let same : (w : ℕ)
          → w < maxva
          → inside (a + 4096) n w ≡ true
          → view u.kmem.mem u.root w ≡ view t.kmem.mem t.root w =
        (λ w small h. later_view true t u a w c small (behind w h)) in
      record {
        spare = λ w small h valid.
            let e = same w small h in
            let valid' = ap pte_v (sym e) ∙ valid in
            let (page, lv, ab) = o.spare w small (wider w h) valid' in
            rw e (
              page,
              c.same_level (pte2pa (view t.kmem.mem t.root w)) ∙ lv,
              subst (Absent (pte2pa (view t.kmem.mem t.root w))) (sym c.given_back) (
                  Absent-pushed true (view t.kmem.mem t.root a) _ t.pages
                    (λ va q.
                      let z = o.once a w lt small first (wider w h) va valid' q in
                      let far = behind w h in absurd (omega (arith, al, z, far)))
                    ab),
            );
        once = λ w x sw sx hw hx vw vx e.
            o.once w x sw sx (wider w hw) (wider x hx) (ap pte_v (sym (same w sw hw)) ∙ vw)
              (ap pte_v (sym (same x sx hx)) ∙ vx)
              (ap pte2pa (sym (same w sw hw)) ∙ (e ∙ ap pte2pa (same x sx hx)));
      }

  -- What uvmunmap() does.
  abbrev pub Unmapped : Bool → Tree kernel_end → ℕ → ℕ → Outcome Kmem → Type 0
  Unmapped f t a n o = (u : Tree kernel_end) × (o ≡ ok u.kmem) × Clears kernel_end f t u a n

  unmap_loop-Unmapped :
      (f : Bool) (n : ℕ) (t : Tree kernel_end) (a end_va : ℕ)
      → IsTree kernel_end t
      → 0 < kernel_end
      → a % 4096 ≡ 0
      → end_va ≡ a + n * 4096
      → end_va ≤ maxva
      → (f ≡ true → Owned kernel_end t a n)
      → Unmapped f t a n (unmap_loop kernel_end n t.root a end_va f t.kmem)
  unmap_loop-Unmapped f zero t a end_va v pos al e le own = (
    t,
    loop_stop zero t.root a end_va f t.kmem (ge→ltb a end_va (omega arith)),
    Clears-refl f t a v,
  )
  unmap_loop-Unmapped f (suc n) t a end_va v pos al e le own =
      let lt : a < maxva = omega arith in
      let first : inside a (suc n) a ≡ true = ground arith in
      let r = round kernel_end f t v a al lt pos (λ y valid. (own y).spare a lt first valid) in
      let c = r.clears in
      let (z, run, d) =
        unmap_loop-Unmapped f n r.tree (a + 4096) end_va c.valid pos (omega arith) (omega arith) le
          (λ y.
            Owned-next t r.tree a n al lt (subst (λ b. Clears kernel_end b t r.tree a 1) y c)
              (own y)) in
      (
        z,
        loop_next n a end_va f t r.tree (lt→ltb a end_va (omega arith)) lt r.runs c.same_root ∙ run,
        Clears-next f t r.tree z a n (omega arith) c d,
      )

  -- On a tree of page tables, with a positive kernel end, and for an aligned range below MAXVA
  -- whose valid PTEs, if do_free is set, lead to distinct pages that kfree accepts and that are
  -- neither free nor tables: uvmunmap returns without a panic and keeps the tree. The hardware
  -- then reads 0 where it read a valid PTE in the range, and what it read before elsewhere; the
  -- free list has, if do_free is set, the pages of those PTEs in front, and is unchanged
  -- otherwise; and no page but tables and free pages has changed.
  pub uvmunmap-Unmapped :
      (f : Bool) (t : Tree kernel_end) (va n : ℕ)
      → IsTree kernel_end t
      → 0 < kernel_end
      → va % 4096 ≡ 0
      → va + n * 4096 ≤ maxva
      → (f ≡ true → Owned kernel_end t va n)
      → Unmapped f t va n (uvmunmap kernel_end t.root va n f t.kmem)
  unfolding uvmunmap
  uvmunmap-Unmapped f t va n v pos al le own =
      let bound : (va + n * pgsize) % 2 ^ 64 ≡ va + n * 4096 = omega arith in
      rw (al, ◌>>◌, bound) (unmap_loop-Unmapped f n t va (va + n * 4096) v pos al refl le own)
