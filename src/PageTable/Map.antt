-- ===== src/PageTable/Map.antt =====
-- vm.c: mappages() maps its range, and nothing else.
use cs3500_os.Base.{
  ℕ, zero, suc, ◌+◌, ◌-◌, ◌*◌, ◌/◌, ◌%◌, ◌^◌, ◌≤◌, ◌<◌, ◌≡◌, ◌≢◌, refl, sym, ap, subst, ◌∙◌, Bool,
  true, false, ltb, leb, ◌==◌, if◌then◌else◌, [], arith, inl, inr, Bool-cases, ne→==, eq→==, ==→eq,
  ◌&&◌, ◌⊎◌, ◌>>=◌, ◌>>◌, Outcome, ok, gt→leb,
}
use cs3500_os.Kalloc.{Kmem, pgsize}
use cs3500_os.PageTable.{pte_v, store, walk_from, walk, maxva, make_pte, map_loop, mappages}
use cs3500_os.PageTable.Tree.{Tree, IsTree, view}
use cs3500_os.PageTable.Put.{Grows, Grows-trans, Extends-Grows, Puts, found-Puts, walk_top}

-- The address is in the n pages from a on.
abbrev pub inside : ℕ → ℕ → ℕ → Bool
inside a n w = leb a w && ltb w (a + n * 4096)

module _ (root a last pa perm fuel : ℕ) (k : Kmem) where
  abbrev walked : ℕ × Kmem
  walked = walk_from true 2 root a k

  round_none :
      a < maxva → walked.0 ≡ 0 → map_loop (suc fuel) root a last pa perm k ≡ ok (false, walked.1)
  unfolding map_loop walk
  round_none lt z = rw (map_loop, walk, gt→leb maxva a lt, ◌>>=◌, eq→== walked.0 0 z) refl

  round_store :
      a < maxva
      → walked.0 ≢ 0
      → pte_v (walked.1.mem walked.0) ≡ false
      → map_loop (suc fuel) root a last pa perm k ≡ (
          if a == last
          then ok (true, store walked.1 walked.0 (make_pte pa perm))
          else map_loop fuel root
              ((a + pgsize) % 2 ^ 64)
              last
              ((pa + pgsize) % 2 ^ 64)
              perm
              (store walked.1 walked.0 (make_pte pa perm)))
  unfolding map_loop walk
  round_store lt nz empty = elim (Bool-cases (a == last)) [
    | inl y ↦ rw (y, map_loop, walk, gt→leb maxva a lt, ◌>>=◌, ne→== walked.0 0 nz, empty, y) refl
    | inr n ↦ rw (n, map_loop, walk, gt→leb maxva a lt, ◌>>=◌, ne→== walked.0 0 nz, empty, n) refl
  ]

pub mappages_runs :
    (root va n pa perm : ℕ) (k : Kmem)
    → va % 4096 ≡ 0
    → 0 < n
    → va + n * 4096 ≤ maxva
    → mappages root va (n * 4096) pa perm k ≡ map_loop n root va (va + n * 4096 - 4096) pa perm k
unfolding mappages
mappages_runs root va n pa perm k al some le =
    let rounds : n * 4096 / pgsize ≡ n = omega arith in
    let last : (va + n * 4096 - pgsize) % 2 ^ 64 ≡ va + n * 4096 - 4096 = omega arith in
    let whole : n * 4096 % pgsize ≡ 0 = omega arith in
    rw (al, whole, ne→== (n * 4096) 0 (omega arith), ◌>>◌, rounds, last) refl

module _ (kernel_end : ℕ) where
  -- From t to u the n pages from a on get mapped to the pages from pa on.
  pub record Maps (t u : Tree kernel_end) (a n pa perm : ℕ) : Type 0 where
    pub valid : IsTree kernel_end u
    pub grows : Grows kernel_end t u
    pub views :
        (w : ℕ)
        → w < maxva
        → view u.kmem.mem u.root w ≡ (
            if inside a n w
            then make_pte (pa + (w / 4096 * 4096 - a)) perm
            else view t.kmem.mem t.root w)

  -- All n pages are mapped, or memory has run out and only the first are.
  abbrev pub Mapped : Tree kernel_end → ℕ → ℕ → ℕ → ℕ → Outcome (Bool × Kmem) → Type 0
  Mapped t a n pa perm o =
      ((u : Tree kernel_end) × (o ≡ ok (true, u.kmem)) × Maps t u a n pa perm)
      ⊎ ((u : Tree kernel_end) × (m : ℕ) × (m < n)
          × (o ≡ ok (false, u.kmem))
          × (u.pages ≡ [])
          × Maps t u a m pa perm)

  put_first :
      (t : Tree kernel_end) (a pa perm : ℕ) (r : ℕ × Kmem)
      (p : Puts kernel_end t a (make_pte pa perm) r)
      → a % 4096 ≡ 0
      → Maps t p.tree a 1 pa perm
  put_first t a pa perm r p al = record {
    valid = p.valid;
    grows = p.grows;
    views = λ w lt. p.after w lt ∙ (elim (Bool-cases (w / 4096 == a / 4096)) [
      | inl y ↦
          let here : inside a 1 w ≡ true = ground (arith, y, al) in
          let off : w / 4096 * 4096 - a ≡ 0 = omega (arith, ==→eq _ _ y) in
          rw (y, here, off) (ap (λ q. make_pte q perm) (omega arith))
      | inr n ↦ let there : inside a 1 w ≡ false = ground (arith, n, al) in rw (n, there) refl
    ]);
  }

  Maps-next :
      (t u z : Tree kernel_end) (a m pa perm : ℕ)
      → a % 4096 ≡ 0
      → Maps t u a 1 pa perm
      → Maps u z (a + 4096) m (pa + 4096) perm
      → Maps t z a (suc m) pa perm
  Maps-next t u z a m pa perm al f g = record {
    valid = g.valid;
    grows = Grows-trans kernel_end t u z f.grows g.grows;
    views = λ w lt. g.views w lt ∙ (elim (Bool-cases (inside (a + 4096) m w)) [
      | inl later ↦
          let both : inside a (suc m) w ≡ true = ground (arith, later) in
          let off : pa + 4096 + (w / 4096 * 4096 - (a + 4096)) ≡ pa + (w / 4096 * 4096 - a) =
            ground (arith, later) in
          rw (later, both) (ap (λ q. make_pte q perm) off)
      | inr past ↦ rw past (
          f.views w lt ∙ (elim (Bool-cases (inside a 1 w)) [
            | inl here ↦
                let both : inside a (suc m) w ≡ true = ground (arith, here) in rw (here, both) refl
            | inr out ↦
                let both : inside a (suc m) w ≡ false = ground (arith, past, out, al) in
                rw (out, both) refl
          ]))
    ]);
  }

  -- One page: mapped, or memory has run out.
  map_page :
      (fuel : ℕ) (t : Tree kernel_end) (a last pa perm : ℕ)
      → IsTree kernel_end t
      → 0 < kernel_end
      → a % 4096 ≡ 0
      → a < maxva
      → pte_v (view t.kmem.mem t.root a) ≡ false
      → ((u : Tree kernel_end) × (map_loop (suc fuel) t.root a last pa perm t.kmem
            ≡ ok (false, u.kmem))
          × (u.pages ≡ [])
          × Maps t u a 0 pa perm)
        ⊎ ((u : Tree kernel_end) × Maps t u a 1 pa perm
            × (map_loop (suc fuel) t.root a last pa perm t.kmem ≡ (
                if a == last
                then ok (true, u.kmem)
                else map_loop fuel t.root
                    ((a + pgsize) % 2 ^ 64)
                    last
                    ((pa + pgsize) % 2 ^ 64)
                    perm
                    u.kmem)))
  map_page fuel t a last pa perm v pos al lt empty =
      let w = walk_top kernel_end t a v pos lt in
      elim w.found [
        | inl (z, out) ↦ inl (
          w.tree,
          round_none t.root a last pa perm fuel t.kmem lt z ∙ ap (λ k. ok (false, k)) w.state,
          out,
          record {
            valid = w.valid;
            grows = Extends-Grows kernel_end t w.tree w.extends;
            views = λ x small.
                let none_in : inside a 0 x ≡ false = ground arith in
                rw none_in (
                  ap (λ q. view w.tree.kmem.mem q x) w.extends.same_root
                  ∙ w.extends.views 2 t.root x v.at_root (omega arith)
                      (v.root_prefix ∙ omega (arith, small)));
          },
        )
        | inr (leaf, at, ll, lp, leads) ↦
            let p =
              found-Puts kernel_end t v a (make_pte pa perm) lt _ w.tree leaf pos w.state w.valid
                w.extends at ll lp leads in
            inr (
              p.tree,
              put_first t a pa perm _ p al,
              subst
                  (λ k. map_loop (suc fuel) t.root a last pa perm t.kmem ≡ (
                    if a == last
                    then ok (true, k)
                    else map_loop fuel t.root ((a + pgsize) % 2 ^ 64) last ((pa + pgsize) % 2 ^ 64)
                        perm k))
                  p.state
                  (round_store t.root a last pa perm fuel t.kmem lt p.there
                    (ap pte_v p.before ∙ empty)),
            )
      ]

  Mapped-next :
      (t u : Tree kernel_end) (a n pa perm : ℕ) (o : Outcome (Bool × Kmem))
      → a % 4096 ≡ 0
      → Maps t u a 1 pa perm
      → Mapped u (a + 4096) n (pa + 4096) perm o
      → Mapped t a (suc n) pa perm o
  Mapped-next t u a n pa perm o al f (inl (z, e, g)) =
      inl (z, e, Maps-next t u z a n pa perm al f g)
  Mapped-next t u a n pa perm o al f (inr (z, m, lt, e, out, g)) =
      inr (z, suc m, omega arith, e, out, Maps-next t u z a m pa perm al f g)

  map_loop-Mapped :
      (fuel : ℕ) (t : Tree kernel_end) (a last pa perm : ℕ)
      → IsTree kernel_end t
      → 0 < kernel_end
      → a % 4096 ≡ 0
      → last ≡ a + fuel * 4096
      → last < maxva
      → pa + suc fuel * 4096 < 2 ^ 64
      → ((w : ℕ)
          → w < maxva
          → inside a (suc fuel) w ≡ true
          → pte_v (view t.kmem.mem t.root w) ≡ false)
      → Mapped t a (suc fuel) pa perm (map_loop (suc fuel) t.root a last pa perm t.kmem)
  map_loop-Mapped zero t a last pa perm v pos al le lt hi empty =
      elim (map_page zero t a last pa perm v pos al (omega arith)
        (empty a (omega arith) (ground arith))) [
          | inl (u, e, out, f) ↦ inr (u, 0, omega arith, e, out, f)
          | inr (u, f, e) ↦ inl (u, e ∙ rw (eq→== a last (omega arith)) refl, f)
        ]
  map_loop-Mapped (suc fuel) t a last pa perm v pos al le lt hi empty =
      elim (map_page (suc fuel) t a last pa perm v pos al (omega arith)
        (empty a (omega arith) (ground arith))) [
          | inl (u, e, out, f) ↦ inr (u, 0, omega arith, e, out, f)
          | inr (u, f, e) ↦
              let a' : (a + pgsize) % 2 ^ 64 ≡ a + 4096 = omega arith in
              let pa' : (pa + pgsize) % 2 ^ 64 ≡ pa + 4096 = omega arith in
              let e' : map_loop (suc (suc fuel)) t.root a last pa perm t.kmem
                  ≡ map_loop (suc fuel) u.root (a + 4096) last (pa + 4096) perm u.kmem =
                e ∙ rw (ne→== a last (omega arith), a', pa', f.grows.same_root) refl in
              Mapped-next t u a (suc fuel) pa perm _ al f (
                subst (λ o. Mapped u (a + 4096) (suc fuel) (pa + 4096) perm o) (sym e')
                  (map_loop-Mapped fuel u (a + 4096) last (pa + 4096) perm f.valid pos (omega arith)
                    (omega arith) lt (omega arith)
                    (λ w small later.
                      let first : inside a 1 w ≡ false = ground (arith, later) in
                      let both : inside a (suc (suc fuel)) w ≡ true = ground (arith, later) in
                      ap pte_v (f.views w small ∙ rw first refl) ∙ empty w small both)))
        ]

  -- On a tree of page tables, with a positive kernel end, an aligned va and size > 0, a range
  -- below MAXVA and physical pages below 2^64, and no valid PTE in the range: mappages returns
  -- without a panic and keeps the tree. Either it succeeds, and the hardware then reads PA2PTE(pa)
  -- | perm | V for the pages of the range, and what it read before for all others; or it fails, no
  -- page is free any more, and so it is for the first m pages of the range, m less than all. The
  -- free pages that are gone have become tables, and the pages that are neither tables nor free
  -- are unchanged.
  pub mappages-Mapped :
      (t : Tree kernel_end) (va n pa perm : ℕ)
      → IsTree kernel_end t
      → 0 < kernel_end
      → va % 4096 ≡ 0
      → 0 < n
      → va + n * 4096 ≤ maxva
      → pa + n * 4096 < 2 ^ 64
      → ((w : ℕ) → w < maxva → inside va n w ≡ true → pte_v (view t.kmem.mem t.root w) ≡ false)
      → Mapped t va n pa perm (mappages t.root va (n * 4096) pa perm t.kmem)
  mappages-Mapped t va zero pa perm v pos al some le hi empty = absurd (omega arith)
  mappages-Mapped t va (suc m) pa perm v pos al some le hi empty =
      subst (Mapped t va (suc m) pa perm)
        (sym (mappages_runs t.root va (suc m) pa perm t.kmem al some le))
        (map_loop-Mapped m t va _ pa perm v pos al (omega arith) (omega arith) hi empty)
