-- ===== src/FileTable/Owing.antt =====
-- sysfile.c, pipe.c: the references that a call holds while it runs.
use cs3500_os.Base.{ℕ, ◌+◌, ◌<◌, ◌≡◌, refl, ap, arith, update, ok}
use cs3500_os.FileTable.{Files, fileclose}
use cs3500_os.FileTable.Counts.{hit, uses}
use cs3500_os.FileTable.Slots.{IsClean, Adds, fileclose-Drops}
use cs3500_os.FileTable.Calls.{IsCounted, swap}

-- Beside what the descriptors hold, the call itself holds `x g` references to each file g.
pub record Owing (x : ℕ → ℕ) (s t : Files) : Type 0 where
  pub owes :
      (g : ℕ)
      → 0 < g
      → (t.file g).ref + uses 16 0 s.ofile g ≡ (s.file g).ref + uses 16 0 t.ofile g + x g
  pub clean : IsClean t.file

pub Owing-close :
    (x y : ℕ → ℕ) (f : ℕ) (s t : Files)
    → IsCounted s
    → 0 < f
    → ((g : ℕ) → y g ≡ x g + hit f g)
    → Owing y s t
    → (u : Files) × (fileclose f t ≡ ok u) × Owing x s u × (u.ofile ≡ t.ofile)
Owing-close x y f s t v pos q w =
    let there : 0 < (t.file f).ref =
      (let a = w.owes f pos in let r = q f in let b = v.enough f pos in ground (arith, a, b)) in
    let (u, e, d) = fileclose-Drops f t there in
    (
      u,
      e,
      record {
        owes = λ g at.
            let o = ap (λ o. uses 16 0 o g) d.same in
            let a = w.owes g at in let r = q g in let b = d.refs g in omega arith;
        clean = d.clean w.clean;
      },
      d.same,
    )

-- A descriptor takes the reference over.
pub Owing-take :
    (x y : ℕ → ℕ) (f fd : ℕ) (s t : Files)
    → fd < 16
    → t.ofile fd ≡ 0
    → ((g : ℕ) → y g ≡ x g + hit f g)
    → Owing y s t
    → Owing x s (record t { ofile = update t.ofile fd f })
Owing-take x y f fd s t lt free q w = record {
  owes = λ g at.
      let a = w.owes g at in
      let r = q g in
      let b = swap t (record t { ofile = update t.ofile fd f }) fd f refl lt g in
      ground (arith, a, b, r, free);
  clean = w.clean;
}

-- A descriptor gives its reference back to the call.
pub Owing-give :
    (x y : ℕ → ℕ) (f fd : ℕ) (s t : Files)
    → fd < 16
    → t.ofile fd ≡ f
    → Owing x s t
    → ((g : ℕ) → y g ≡ x g + hit f g)
    → Owing y s (record t { ofile = update t.ofile fd 0 })
Owing-give x y f fd s t lt holds w q = record {
  owes = λ g at.
      let a = w.owes g at in
      let r = q g in
      let b = swap t (record t { ofile = update t.ofile fd 0 }) fd 0 refl lt g in
      ground (arith, a, b, r, holds);
  clean = w.clean;
}

-- filealloc() hands the call a reference.
pub Owing-get :
    (x y : ℕ → ℕ) (f : ℕ) (s t u : Files)
    → Adds f t u
    → Owing x s t
    → ((g : ℕ) → y g ≡ x g + hit f g)
    → Owing y s u
Owing-get x y f s t u a w q = record {
  owes = λ g at.
      let o = ap (λ o. uses 16 0 o g) a.same in
      let b = w.owes g at in let r = q g in let c = a.refs g in omega arith;
  clean = a.clean w.clean;
}
