-- ===== src/SharedTab.antt =====
-- labs/week7/EE23B102/xv6-riscv/kernel/vm.c: the table of pages shared by MAP_SHARED mappings, a hash
-- table with chained entries under one lock. A pointer is its address; an entry is one page of
-- kalloc(), whose address is `self`. A call returns the pages it gave to kfree(). The reference
-- counts are int and are taken not to overflow.
pub mod View
mod Tests
use Prim.Native.Nat.{bit_xor}
use cs3500_os.Base.{
  ℕ, suc, ◌+◌, ◌-◌, ◌%◌, Bool, true, false, ◌&&◌, List, [], ◌∷◌, Option, none, some, ◌==◌,
  if◌then◌else◌, update,
}

-- struct shared_entry; `next` is the tail of its bucket.
pub record SharedEntry : Type 0 where
  pub self : ℕ
  pub ip : ℕ
  pub file_off : ℕ
  pub pa : ℕ
  pub refcnt : ℕ

abbrev pub shash : ℕ
shash = 64

abbrev pub Buckets : Type 0
Buckets = ℕ → List SharedEntry

-- init_shared_tab
pub init_shared_tab : Buckets
init_shared_tab i = []

pub shared_hash : ℕ → ℕ → ℕ
shared_hash ip off = bit_xor ip off % shash

abbrev pub matches : SharedEntry → ℕ → ℕ → Bool
matches e ip off = e.ip == ip && e.file_off == off

-- The walk of one bucket.
pub find : ℕ → ℕ → List SharedEntry → Option SharedEntry
find ip off [] = none
find ip off (e ∷ es) = if matches e ip off then some e else find ip off es

pub shared_lookup : Buckets → ℕ → ℕ → Option SharedEntry
unfolding find
shared_lookup tab ip off = find ip off (tab (shared_hash ip off))

abbrev pub bump : SharedEntry → SharedEntry
bump e = record e { refcnt = e.refcnt + 1 }

-- e->refcnt++ on the entry that the walk finds
pub incref : ℕ → ℕ → List SharedEntry → List SharedEntry
incref ip off [] = []
incref ip off (e ∷ es) = if matches e ip off then bump e ∷ es else e ∷ incref ip off es

-- `page` is the answer of kalloc().
pub shared_get_or_create : Buckets → ℕ → ℕ → ℕ → Option ℕ → Buckets × Option SharedEntry
shared_get_or_create tab ip off pa page =
    let h = shared_hash ip off in
    elim (shared_lookup tab ip off) [
      | some e ↦ (update tab h (incref ip off (tab h)), some (bump e))
      | none ↦ elim page [
        | none ↦ (tab, none)
        | some self ↦
            let e : SharedEntry = record {
              self = self;
              ip = ip;
              file_off = off;
              pa = pa;
              refcnt = 1;
            } in
            (update tab h (e ∷ tab h), some e)
      ]
    ]

-- The loop of shared_decref: the bucket that is left and the pages that were freed.
pub decref : ℕ → ℕ → List SharedEntry → List SharedEntry × List ℕ
decref ip off [] = ([], [])
decref ip off (e ∷ es) =
    let rest = decref ip off es in
    if matches e ip off
    then (if e.refcnt - 1 == 0
        then (es, e.pa ∷ e.self ∷ [])
        else (record e { refcnt = e.refcnt - 1 } ∷ es, []))
    else (e ∷ rest.0, rest.1)

pub shared_decref : Buckets → ℕ → ℕ → Buckets × List ℕ
shared_decref tab ip off =
    let h = shared_hash ip off in
    let (es, freed) = decref ip off (tab h) in (update tab h es, freed)
