-- ===== src/SharedTab/View.antt =====
-- vm.c: the shared table as a map from a file's inode and offset to a page with its count.
use mathlib.Core.Option
use cs3500_os.Base.{
  ℕ, ◌-◌, ◌<◌, ◌≡◌, refl, sym, ap, ap₂, ◌∙◌, inl, inr, Bool, true, ◌&&◌, List, [], ◌∷◌, Option,
  none, some, arith, ◌==◌, if◌then◌else◌, update, Bool-cases, Option-cases, ==→eq, eq→==,
}
use cs3500_os.SharedTab.{
  SharedEntry, Buckets, init_shared_tab, shared_hash, matches, find, shared_lookup, bump, incref,
  shared_get_or_create, decref, shared_decref,
}

-- In a bucket no key has two entries, and every entry is referenced.
abbrev pub IsBucket : List SharedEntry → Type 0
IsBucket [] = Unit {0}
IsBucket (e ∷ es) = (find e.ip e.file_off es ≡ none) × (0 < e.refcnt) × IsBucket es

pub record IsTable (tab : Buckets) : Type 0 where
  pub bucket : (h : ℕ) → IsBucket (tab h)

abbrev pub same_key : ℕ → ℕ → ℕ → ℕ → Bool
same_key ip off jp joff = ip == jp && off == joff

-- One reference less.
abbrev pub drop_one : Option SharedEntry → Option SharedEntry
drop_one none = none
drop_one (some e) = if e.refcnt - 1 == 0 then none else some (record e { refcnt = e.refcnt - 1 })

-- The pages that go with the last reference: the file's and the entry's own.
abbrev pub freed_by : Option SharedEntry → List ℕ
freed_by none = []
freed_by (some e) = if e.refcnt - 1 == 0 then e.pa ∷ e.self ∷ [] else []

find-incref :
    (ip off jp joff : ℕ) (es : List SharedEntry)
    → find jp joff (incref ip off es)
      ≡ (if same_key ip off jp joff then Option.map bump (find jp joff es) else find jp joff es)
unfolding find incref
find-incref ip off jp joff [] = ground arith
find-incref ip off jp joff (e ∷ es) = ground (arith, find-incref ip off jp joff es)

find-decref :
    (ip off jp joff : ℕ) (es : List SharedEntry)
    → IsBucket es
    → find jp joff (decref ip off es).0
      ≡ (if same_key ip off jp joff then drop_one (find jp joff es) else find jp joff es)
unfolding find decref
find-decref ip off jp joff [] b = ground arith
find-decref ip off jp joff (e ∷ es) b = ground (arith, find-decref ip off jp joff es b.2, b.0, b.1)

freed-decref :
    (ip off : ℕ) (es : List SharedEntry) → (decref ip off es).1 ≡ freed_by (find ip off es)
unfolding find decref
freed-decref ip off [] = refl
freed-decref ip off (e ∷ es) = ground (arith, freed-decref ip off es)

incref-IsBucket : (ip off : ℕ) (es : List SharedEntry) → IsBucket es → IsBucket (incref ip off es)
unfolding incref
incref-IsBucket ip off [] b = tt
incref-IsBucket ip off (e ∷ es) b =
    ground (arith, incref-IsBucket ip off es b.2, find-incref ip off e.ip e.file_off es, b.0, b.1)

decref-IsBucket : (ip off : ℕ) (es : List SharedEntry) → IsBucket es → IsBucket (decref ip off es).0
unfolding decref
decref-IsBucket ip off [] b = tt
decref-IsBucket ip off (e ∷ es) b =
    ground
      (arith, decref-IsBucket ip off es b.2, find-decref ip off e.ip e.file_off es b.2, b.0, b.1)

find-cons :
    (e : SharedEntry) (ip off : ℕ) (es : List SharedEntry)
    → find ip off (e ∷ es) ≡ (if matches e ip off then some e else find ip off es)
unfolding find
find-cons e ip off es = refl

lookup_same_bucket :
    (tab : Buckets) (ip off jp joff : ℕ)
    → (shared_hash ip off == shared_hash jp joff) ≡ true
    → find jp joff (tab (shared_hash ip off)) ≡ shared_lookup tab jp joff
unfolding shared_lookup
lookup_same_bucket tab ip off jp joff h = ap (λ k. find jp joff (tab k)) (==→eq _ _ h)

-- The hash of one key decides the bucket; a key in another bucket is another key.
shared_lookup-update :
    (tab : Buckets) (ip off jp joff : ℕ) (es : List SharedEntry)
    → shared_lookup (update tab (shared_hash ip off) es) jp joff ≡ (
        if shared_hash ip off == shared_hash jp joff
        then find jp joff es
        else shared_lookup tab jp joff)
unfolding shared_lookup
shared_lookup-update tab ip off jp joff es = ground arith

same_hash :
    (ip off jp joff : ℕ)
    → same_key ip off jp joff ≡ true
    → (shared_hash ip off == shared_hash jp joff) ≡ true
same_hash ip off jp joff h =
    let a : ip ≡ jp = ground arith in
    let b : off ≡ joff = ground arith in eq→== _ _ (ap₂ shared_hash a b)

abbrev pub fresh_entry : ℕ → ℕ → ℕ → ℕ → SharedEntry
fresh_entry self ip off pa = record { self = self; ip = ip; file_off = off; pa = pa; refcnt = 1 }

-- What shared_get_or_create answers, given the entry that was there.
abbrev pub entry_after : Option SharedEntry → SharedEntry → SharedEntry
entry_after none new = new
entry_after (some e) new = bump e

-- If kalloc succeeds, shared_get_or_create answers the old entry of the key with one more
-- reference, or a new entry with one reference, lookups of the key find that entry, and lookups of
-- other keys are unchanged.
pub lookup-get_or_create :
    (tab : Buckets) (ip off pa self jp joff : ℕ)
    → let (tab', e) = shared_get_or_create tab ip off pa (some self) in
      let e' = entry_after (shared_lookup tab ip off) (fresh_entry self ip off pa) in
      (e ≡ some e')
      × (shared_lookup tab' jp joff
          ≡ (if same_key ip off jp joff then some e' else shared_lookup tab jp joff))
unfolding shared_get_or_create
lookup-get_or_create tab ip off pa self jp joff = elim (Option-cases (shared_lookup tab ip off)) [
  | inl e ↦
      rw (e, shared_get_or_create)
        (
          refl,
          ground (
            arith,
            shared_lookup-update tab ip off jp joff
                (fresh_entry self ip off pa ∷ tab (shared_hash ip off)),
            find-cons (fresh_entry self ip off pa) jp joff (tab (shared_hash ip off)),
            same_hash ip off jp joff,
            lookup_same_bucket tab ip off jp joff,
          ),
        )
  | inr (old, e) ↦
      rw (e, shared_get_or_create)
        (
          refl,
          ground (
            arith,
            e,
            shared_lookup-update tab ip off jp joff (incref ip off (tab (shared_hash ip off))),
            find-incref ip off jp joff (tab (shared_hash ip off)),
            same_hash ip off jp joff,
            lookup_same_bucket tab ip off jp joff,
          ),
        )
]

pub get_or_create_found :
    (tab : Buckets) (ip off pa : ℕ) (page : Option ℕ) (e : SharedEntry)
    → shared_lookup tab ip off ≡ some e
    → shared_get_or_create tab ip off pa page
      ≡ (update tab (shared_hash ip off) (incref ip off (tab (shared_hash ip off))), some (bump e))
unfolding shared_get_or_create
get_or_create_found tab ip off pa page e h = rw (h, shared_get_or_create)

pub get_or_create_full :
    (tab : Buckets) (ip off pa : ℕ)
    → shared_lookup tab ip off ≡ none
    → shared_get_or_create tab ip off pa none ≡ (tab, none)
unfolding shared_get_or_create
get_or_create_full tab ip off pa h = rw (h, shared_get_or_create)

pub get_or_create_fresh :
    (tab : Buckets) (ip off pa self : ℕ)
    → shared_lookup tab ip off ≡ none
    → shared_get_or_create tab ip off pa (some self) ≡ (
      update tab (shared_hash ip off) (fresh_entry self ip off pa ∷ tab (shared_hash ip off)),
      some (fresh_entry self ip off pa),
    )
unfolding shared_get_or_create
get_or_create_fresh tab ip off pa self h = rw (h, shared_get_or_create)

-- On a well-formed table, shared_decref takes one reference from the entry of its key, removes the
-- entry and frees its two pages with the last reference, frees nothing otherwise, and keeps the
-- entries of other keys.
pub lookup-decref :
    (tab : Buckets) (ip off jp joff : ℕ)
    → IsTable tab
    → let (tab', freed) = shared_decref tab ip off in
      (freed ≡ freed_by (shared_lookup tab ip off))
      × (shared_lookup tab' jp joff ≡ (
          if same_key ip off jp joff
          then drop_one (shared_lookup tab jp joff)
          else shared_lookup tab jp joff))
unfolding shared_decref
lookup-decref tab ip off jp joff v = (
  freed-decref ip off (tab (shared_hash ip off))
      ∙ ap freed_by (lookup_same_bucket tab ip off ip off (eq→== _ _ refl)),
  ground (
    arith,
    shared_lookup-update tab ip off jp joff (decref ip off (tab (shared_hash ip off))).0,
    find-decref ip off jp joff (tab (shared_hash ip off)) (v.bucket (shared_hash ip off)),
    same_hash ip off jp joff,
    lookup_same_bucket tab ip off jp joff,
  ),
)

-- A lookup that fails and one that is dropped again leave no trace.
drop_one-bump : (e : SharedEntry) → 0 < e.refcnt → drop_one (some (bump e)) ≡ some e
drop_one-bump e h = ground arith

find-IsReferenced :
    (ip off : ℕ) (es : List SharedEntry) (e : SharedEntry)
    → IsBucket es
    → find ip off es ≡ some e
    → 0 < e.refcnt
unfolding find
find-IsReferenced ip off [] e b h = cc
find-IsReferenced ip off (x ∷ es) e b h = ground (arith, find-IsReferenced ip off es e b.2, b.1)

lookup-IsReferenced :
    (tab : Buckets) (ip off : ℕ) (e : SharedEntry)
    → IsTable tab
    → shared_lookup tab ip off ≡ some e
    → 0 < e.refcnt
lookup-IsReferenced tab ip off e v h =
    find-IsReferenced ip off (tab (shared_hash ip off)) e (v.bucket (shared_hash ip off))
      (lookup_same_bucket tab ip off ip off (eq→== _ _ refl) ∙ h)

update-IsTable :
    (tab : Buckets) (k : ℕ) (es : List SharedEntry)
    → IsTable tab
    → IsBucket es
    → IsTable (update tab k es)
update-IsTable tab k es v b = record {
  bucket = λ h. elim (Bool-cases (k == h)) [ inl e ↦ rw e b | inr e ↦ rw e (v.bucket h) ];
}

pub lookup-init_shared_tab : (ip off : ℕ) → shared_lookup init_shared_tab ip off ≡ none
unfolding init_shared_tab shared_lookup find
lookup-init_shared_tab ip off = refl

pub init_shared_tab-IsTable : IsTable init_shared_tab
unfolding init_shared_tab
init_shared_tab-IsTable = record { bucket = λ h. tt }

-- shared_get_or_create, with or without a page from kalloc, keeps the table well-formed: in a
-- bucket no key has two entries and each entry is referenced.
pub shared_get_or_create-IsTable :
    (tab : Buckets) (ip off pa : ℕ) (page : Option ℕ)
    → IsTable tab
    → IsTable (shared_get_or_create tab ip off pa page).0
unfolding shared_get_or_create
shared_get_or_create-IsTable tab ip off pa page v = elim (Option-cases (shared_lookup tab ip off)) [
  | inr (old, e) ↦
      rw (e, shared_get_or_create)
        (update-IsTable tab _ _ v (incref-IsBucket ip off _ (v.bucket (shared_hash ip off))))
  | inl e ↦ elim (Option-cases page) [
    | inl out ↦ rw (e, shared_get_or_create, out) v
    | inr (self, p) ↦
        rw (e, shared_get_or_create, p)
          (update-IsTable tab _ _ v (
            lookup_same_bucket tab ip off ip off (eq→== _ _ refl) ∙ e,
            omega arith,
            v.bucket (shared_hash ip off),
          ))
  ]
]

-- shared_decref keeps the table well-formed: in a bucket no key has two entries and each entry is
-- referenced.
pub shared_decref-IsTable :
    (tab : Buckets) (ip off : ℕ) → IsTable tab → IsTable (shared_decref tab ip off).0
unfolding shared_decref
shared_decref-IsTable tab ip off v =
    update-IsTable tab _ _ v (decref-IsBucket ip off _ (v.bucket (shared_hash ip off)))

-- Taking a reference and dropping it again changes nothing, at the key.
drop_one-entry_after :
    (old : Option SharedEntry) (ip off pa self : ℕ)
    → ((e : SharedEntry) → old ≡ some e → 0 < e.refcnt)
    → (drop_one (some (entry_after old (fresh_entry self ip off pa))) ≡ old)
      × (freed_by (some (entry_after old (fresh_entry self ip off pa)))
          ≡ (elim old [ none ↦ pa ∷ self ∷ [] | some e ↦ [] ]))
drop_one-entry_after none ip off pa self h = (refl, refl)
drop_one-entry_after (some e) ip off pa self h =
    let pos : 0 < e.refcnt = h e refl in (ground arith, ground arith)

-- On a well-formed table, shared_decref after a successful shared_get_or_create of the same key
-- restores the entry of every key, and frees nothing if the key had an entry, and the new page and
-- the new entry if it had none.
pub decref-get_or_create :
    (tab : Buckets) (ip off pa self jp joff : ℕ)
    → IsTable tab
    → let (tab', freed) = shared_decref (shared_get_or_create tab ip off pa (some self)).0 ip off in
      (shared_lookup tab' jp joff ≡ shared_lookup tab jp joff)
      × (freed ≡ (elim (shared_lookup tab ip off) [ none ↦ pa ∷ self ∷ [] | some e ↦ [] ]))
decref-get_or_create tab ip off pa self jp joff v =
    let tab' = (shared_get_or_create tab ip off pa (some self)).0 in
    let new = entry_after (shared_lookup tab ip off) (fresh_entry self ip off pa) in
    let (freed, dropped) =
      lookup-decref tab' ip off jp joff
        (shared_get_or_create-IsTable tab ip off pa (some self) v) in
    let (undone, pages) =
      drop_one-entry_after (shared_lookup tab ip off) ip off pa self
        (λ e h. lookup-IsReferenced tab ip off e v h) in
    let here : shared_lookup tab' ip off ≡ some new =
      (lookup-get_or_create tab ip off pa self ip off).1
      ∙ rw (eq→== ip ip refl, eq→== off off refl) in
    (
      dropped ∙ elim (Bool-cases (same_key ip off jp joff)) [
        | inl k ↦
            let a : ip ≡ jp = ground arith in
            let b : off ≡ joff = ground arith in
            rw k (
              ap drop_one (sym (ap₂ (shared_lookup tab') a b) ∙ here)
              ∙ undone
              ∙ ap₂ (shared_lookup tab) a b)
        | inr k ↦ rw k ((lookup-get_or_create tab ip off pa self jp joff).1 ∙ rw k)
      ],
      freed ∙ ap freed_by here ∙ pages,
    )
