-- ===== src/Fs/Paths.antt =====
-- fs.c: the names that namex() takes from a path are its pieces between slashes.
use cs3500_os.Base.{
  ℕ, zero, suc, ◌≤◌, ◌≡◌, refl, sym, ◌∙◌, ap, ◌⊎◌, inl, inr, false, List, [], ◌∷◌, map, length,
  take, ◌==◌, if◌then◌else◌, arith, Bool-cases,
}
use cs3500_os.Fs.{Str, slash, dirsiz, skip_slashes, element, after_element, skipelem, names}

-- A path cut at its slashes; n slashes make n + 1 pieces.
abbrev pub longer : ℕ → List Str → List Str
longer c [] = (c ∷ []) ∷ []
longer c (p ∷ ps) = (c ∷ p) ∷ ps

pub pieces : Str → List Str
pieces [] = [] ∷ []
pieces (c ∷ path) = let rest = pieces path in if c == slash then [] ∷ rest else longer c rest

-- The pieces that are not empty.
abbrev pub solid : List Str → List Str
solid [] = []
solid ([] ∷ ps) = solid ps
solid ((c ∷ p) ∷ ps) = (c ∷ p) ∷ solid ps

-- The pieces behind the first.
abbrev pub behind : Str → List Str
behind [] = []
behind (c ∷ path) = pieces path

pieces_first : (path : Str) → pieces path ≡ element path ∷ behind (after_element path)
unfolding pieces element after_element
pieces_first [] = refl
pieces_first (c ∷ path) = elim (Bool-cases (c == slash)) [
  | inl cut ↦ rw cut refl
  | inr within ↦ rw within (ap (longer c) (pieces_first path))
]

solid_skip : (path : Str) → solid (pieces (skip_slashes path)) ≡ solid (pieces path)
unfolding skip_slashes pieces
solid_skip [] = refl
solid_skip (c ∷ path) = elim (Bool-cases (c == slash)) [
  | inl cut ↦ rw cut (solid_skip path)
  | inr within ↦ rw within (rw within refl)
]

-- A path that skip_slashes() leaves begins with no slash.
skip_slashes_next :
    (path : Str)
    → (skip_slashes path ≡ [])
      ⊎ ((c : ℕ) × (rest : Str) × (skip_slashes path ≡ c ∷ rest)
          × ((c == slash) ≡ false)
          × (length (c ∷ rest) ≤ length path))
unfolding skip_slashes
skip_slashes_next [] = inl refl
skip_slashes_next (c ∷ path) = elim (Bool-cases (c == slash)) [
  | inl cut ↦ rw cut (elim (skip_slashes_next path) [
    | inl e ↦ inl e
    | inr (d, rest, e, f, g) ↦ inr (d, rest, e, f, omega arith)
  ])
  | inr within ↦ rw within (inr (c, path, refl, within, omega arith))
]

length-after_element : (path : Str) → length (after_element path) ≤ length path
unfolding after_element
length-after_element [] = omega arith
length-after_element (c ∷ path) = elim (Bool-cases (c == slash)) [
  | inl cut ↦ rw cut (omega arith)
  | inr within ↦ rw within (omega (arith, length-after_element path))
]

solid-behind :
    (path : Str) → solid (behind (after_element path)) ≡ solid (pieces (after_element path))
unfolding after_element pieces
solid-behind [] = refl
solid-behind (c ∷ path) = elim (Bool-cases (c == slash)) [
  | inl cut ↦ rw cut (rw cut refl)
  | inr within ↦ rw within (solid-behind path)
]

solid-element :
    (c : ℕ) (rest : Str) (ps : List Str)
    → (c == slash) ≡ false
    → solid (element (c ∷ rest) ∷ ps) ≡ element (c ∷ rest) ∷ solid ps
unfolding element
solid-element c rest ps within = rw within refl

-- The first name, and the rest.
solid_next :
    (path : Str) (c : ℕ) (rest : Str)
    → skip_slashes path ≡ c ∷ rest
    → (c == slash) ≡ false
    → solid (pieces path)
      ≡ element (c ∷ rest) ∷ solid (pieces (skip_slashes (after_element (c ∷ rest))))
solid_next path c rest e within =
    sym (solid_skip path)
    ∙ ap (λ p. solid (pieces p)) e
    ∙ ap solid (pieces_first (c ∷ rest))
    ∙ solid-element c rest (behind (after_element (c ∷ rest))) within
    ∙ ap (λ ps. element (c ∷ rest) ∷ ps)
        (solid-behind (c ∷ rest) ∙ sym (solid_skip (after_element (c ∷ rest))))

length-skip_slashes : (path : Str) → length (skip_slashes path) ≤ length path
unfolding skip_slashes
length-skip_slashes [] = omega arith
length-skip_slashes (c ∷ path) = elim (Bool-cases (c == slash)) [
  | inl cut ↦ rw cut (omega (arith, length-skip_slashes path))
  | inr within ↦ rw within (omega arith)
]

length_left :
    (c : ℕ) (rest : Str)
    → (c == slash) ≡ false
    → length (skip_slashes (after_element (c ∷ rest))) ≤ length rest
unfolding after_element
length_left c rest within =
    rw within (omega (arith, length-skip_slashes (after_element rest), length-after_element rest))

-- With fuel of at least the length of the path, the names that the loop of namex takes from it are
-- the nonempty pieces of the path between slashes, in order, each cut at 14 bytes.
pub names-pieces :
    (fuel : ℕ) (path : Str)
    → length path ≤ fuel
    → names fuel path ≡ map (take dirsiz) (solid (pieces path))
unfolding names skipelem pieces
names-pieces zero [] le = refl
names-pieces zero (c ∷ path) le = absurd (omega arith)
names-pieces (suc fuel) path le = elim (skip_slashes_next path) [
  | inl e ↦
      let s : solid (pieces path) ≡ [] = sym (solid_skip path) ∙ ap (λ p. solid (pieces p)) e in
      rw (names, skipelem, e) (ap (map (take dirsiz)) (sym s))
  | inr (c, rest, e, f, g) ↦
      rw (names, skipelem, e)
        (ap (λ ps. take dirsiz (element (c ∷ rest)) ∷ ps)
            (names-pieces fuel (skip_slashes (after_element (c ∷ rest)))
              (omega (arith, length_left c rest f)))
          ∙ ap (map (take dirsiz)) (sym (solid_next path c rest e f)))
]
