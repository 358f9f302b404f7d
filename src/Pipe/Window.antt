-- ===== src/Pipe/Window.antt =====
-- pipe.c: the bytes that a pipe holds, and what one `put` and one `shift` do to them.
use cs3500_os.Base.{
  ℕ, zero, suc, ◌+◌, ◌-◌, ◌%◌, ◌^◌, ◌≤◌, ◌<◌, ◌≡◌, ◌≢◌, refl, sym, ap, ap₂, List, [], ◌∷◌, ◌++◌,
  arith, length, update, ◌∙◌, eq→==, ne→==,
}
use cs3500_os.Pipe.{Pipe, pipesize, put, shift}

-- nwrite - nread, as uint
abbrev pub size : Pipe → ℕ
size pi = (pi.nwrite + 2 ^ 32 - pi.nread) % 2 ^ 32

pub record IsValid (pi : Pipe) : Type 0 where
  pub nread_fits : pi.nread < 2 ^ 32
  pub nwrite_fits : pi.nwrite < 2 ^ 32
  pub bounded : size pi ≤ 512

-- The n bytes from the counter r on.
abbrev pub window : (ℕ → ℕ) → ℕ → ℕ → List ℕ
window b r zero = []
window b r (suc n) = b (r % 512) ∷ window b ((r + 1) % 2 ^ 32) n

-- What the pipe holds, oldest first.
abbrev pub contents : Pipe → List ℕ
contents pi = window pi.bytes pi.nread (size pi)

pub length-window : (b : ℕ → ℕ) (r n : ℕ) → length (window b r n) ≡ n
length-window b r zero = refl
length-window b r (suc n) = ap suc (length-window b ((r + 1) % 2 ^ 32) n)

-- Writing just past a window of fewer than 512 bytes extends it by that byte, also where the uint
-- counter wraps: 512 divides 2^32.
window-update :
    (b : ℕ → ℕ) (r n w ch : ℕ)
    → n < 512
    → w ≡ (r + n) % 2 ^ 32
    → r < 2 ^ 32
    → window (update b (w % 512) ch) r (suc n) ≡ window b r n ++ ch ∷ []
window-update b r zero w ch h e hr = rw (eq→== (w % 512) (r % 512) (omega arith))
window-update b r (suc n) w ch h e hr =
    ap₂ ◌∷◌ (rw (ne→== (w % 512) (r % 512) (omega arith)))
      (window-update b ((r + 1) % 2 ^ 32) n w ch (omega arith) (omega arith) (omega arith))

size-put :
    (pi : Pipe) (ch : ℕ)
    → IsValid pi
    → pi.nwrite ≢ (pi.nread + pipesize) % 2 ^ 32
    → size (put pi ch) ≡ suc (size pi)
unfolding put
size-put pi ch v ne = omega (arith, v.nread_fits, v.nwrite_fits, v.bounded)

size-shift : (pi : Pipe) → IsValid pi → pi.nread ≢ pi.nwrite → suc (size (shift pi)) ≡ size pi
unfolding shift
size-shift pi v ne = omega (arith, v.nread_fits, v.nwrite_fits, v.bounded)

-- A pipe that pipewrite does not find full takes the byte at its end.
pub put-contents :
    (pi : Pipe) (ch : ℕ)
    → IsValid pi
    → pi.nwrite ≢ (pi.nread + pipesize) % 2 ^ 32
    → IsValid (put pi ch) × (contents (put pi ch) ≡ contents pi ++ ch ∷ [])
unfolding put
put-contents pi ch v ne = (
  record {
    nread_fits = v.nread_fits;
    nwrite_fits = omega arith;
    bounded = omega (arith, v.nread_fits, v.nwrite_fits, v.bounded);
  },
  ap (window (put pi ch).bytes pi.nread) (size-put pi ch v ne)
      ∙ window-update pi.bytes pi.nread (size pi) pi.nwrite ch
          (omega (arith, v.nread_fits, v.nwrite_fits, v.bounded))
          (omega (arith, v.nread_fits, v.nwrite_fits)) v.nread_fits,
)

-- A pipe that piperead does not find empty gives its first byte.
pub shift-contents :
    (pi : Pipe)
    → IsValid pi
    → pi.nread ≢ pi.nwrite
    → IsValid (shift pi) × (contents pi ≡ pi.bytes (pi.nread % pipesize) ∷ contents (shift pi))
unfolding shift
shift-contents pi v ne = (
  record {
    nread_fits = omega arith;
    nwrite_fits = v.nwrite_fits;
    bounded = omega (arith, v.nread_fits, v.nwrite_fits, v.bounded);
  },
  sym (ap (window pi.bytes pi.nread) (size-shift pi v ne)),
)

pub contents_empty : (pi : Pipe) → IsValid pi → pi.nread ≡ pi.nwrite → contents pi ≡ []
contents_empty pi v e =
    let none_left : size pi ≡ 0 = omega (arith, v.nread_fits) in
    ap (window pi.bytes pi.nread) none_left

pub size_full :
    (pi : Pipe) → IsValid pi → pi.nwrite ≡ (pi.nread + pipesize) % 2 ^ 32 → size pi ≡ 512
size_full pi v e = omega (arith, v.nread_fits, v.nwrite_fits)
