-- ===== src/Spinlock/Nesting.antt =====
-- spinlock.c: nested calls of push_off() and pop_off().
use cs3500_os.Base.{
  ℕ, zero, suc, ◌<◌, ◌≡◌, refl, ap, ◌∙◌, ◌⊎◌, false, arith, ◌==◌, if◌then◌else◌, Outcome, ok, panic,
  ◌>>=◌, ne→==, inr,
}
use cs3500_os.Spinlock.{Cpu, push_off, pop_off}

-- With a push_off() open, interrupts are off.
abbrev pub IsCpu : Cpu → Type 0
IsCpu c = (c.noff ≡ 0) ⊎ (c.intr ≡ false)

-- n calls each
abbrev pub push_offs : ℕ → Cpu → Cpu
push_offs zero c = c
push_offs (suc n) c = push_offs n (push_off c)

abbrev pub pop_offs : ℕ → Cpu → Outcome Cpu
pop_offs zero c = ok c
pop_offs (suc n) c = pop_off c >>= λ c'. pop_offs n c'

-- The state after push_off, without the note of the old state of the interrupts
abbrev noted : Cpu → Cpu
noted c = record c { intena = if c.noff == 0 then c.intr else c.intena }

push_off-IsCpu : (c : Cpu) → IsCpu (push_off c)
unfolding push_off
push_off-IsCpu c = inr refl

pop_off-push_off : (c : Cpu) → IsCpu c → pop_off (push_off c) ≡ ok (noted c)
unfolding pop_off push_off
pop_off-push_off c v = ground (arith, v)

pop_offs_last : (n : ℕ) (c : Cpu) → pop_offs (suc n) c ≡ pop_offs n c >>= λ c'. pop_off c'
pop_offs_last zero c = go (pop_off c)
  where
    go : (o : Outcome Cpu) → (o >>= λ c'. ok c') ≡ o
    go panic = refl
    go (ok x) = refl
pop_offs_last (suc n) c = go (λ x. pop_offs_last n x) (pop_off c)
  where
    go :
        ((x : Cpu) → pop_offs (suc n) x ≡ pop_offs n x >>= λ c'. pop_off c')
        → (o : Outcome Cpu)
        → (o >>= λ c'. pop_offs (suc n) c') ≡ (o >>= λ c'. pop_offs n c') >>= λ c'. pop_off c'
    go f panic = refl
    go f (ok x) = f x

-- Deeper than the first call, nothing is noted.
pop_offs-push_offs_inner :
    (n : ℕ) (c : Cpu) → 0 < c.noff → c.intr ≡ false → pop_offs n (push_offs n c) ≡ ok c
unfolding push_off
pop_offs-push_offs_inner zero c pos off = refl
pop_offs-push_offs_inner (suc n) c pos off =
    pop_offs_last n (push_offs n (push_off c))
    ∙ ap (λ o. o >>= λ c'. pop_off c') (pop_offs-push_offs_inner n (push_off c) (omega arith) refl)
    ∙ pop_off-push_off c (inr off)
    ∙ ap ok (same (ne→== c.noff 0 (omega arith)))
  where
    same : (c.noff == 0) ≡ false → noted c ≡ c
    same ne = simp ne refl

-- On a CPU where interrupts are off or no push_off is open, n calls of push_off and then n calls
-- of pop_off return without a panic, with the depth and the state of the interrupts of before.
pub pop_offs-push_offs :
    (n : ℕ) (c : Cpu)
    → IsCpu c
    → (c' : Cpu) × (pop_offs n (push_offs n c) ≡ ok c') × (c'.noff ≡ c.noff) × (c'.intr ≡ c.intr)
unfolding push_off
pop_offs-push_offs zero c v = (c, refl, refl, refl)
pop_offs-push_offs (suc n) c v = (
  noted c,
  pop_offs_last n (push_offs n (push_off c))
      ∙ ap (λ o. o >>= λ c'. pop_off c')
          (pop_offs-push_offs_inner n (push_off c) (omega arith) refl)
      ∙ pop_off-push_off c v,
  refl,
  refl,
)
