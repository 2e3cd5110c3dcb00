-- ===== src/Stride/Table.antt =====
-- mdb.c, the hash table of stride entries that a write transaction keeps: open addressing with linear
-- probing. A capacity is 0 or a power of two, so that `& mask` is written as the remainder by it.
pub mod Slots
pub mod Place
pub mod Find
pub mod Grow
pub mod Acquire
pub mod Prepare
pub mod Reset
mod Tests
use Prim.Native.Nat.{bit_xor}
use dlmdb.Base.{
  p_invalid, ℕ, zero, suc, ◌+◌, ◌-◌, ◌*◌, ◌/◌, ◌%◌, ◌^◌, List, [], ◌∷◌, Bool, true, false, ◌||◌,
  not, if◌then◌else◌, ltb, ◌==◌, word32, word64, length, get_elem?, set, replicate, Option, none,
  some, Result, ok, err, enomem, fault, ◌>>=◌, Allocator,
}
use dlmdb.Stride.{StrideEntry, LeafPage, stride_entry_rebuild}

pub record StrideCache : Type 0 where
  pub entries : List StrideEntry
  pub count : ℕ
  pub capacity : ℕ
  pub generation : ℕ

-- The lengths are freed, and no pointer to an entry is left.
abbrev pub stride_cache_clear : StrideCache → StrideCache
stride_cache_clear cache = elim cache.entries [
  | [] ↦ cache
  | _ ∷ _ ↦ record { entries = []; count = 0; capacity = 0; generation = 0 }
]

-- What `mdb_prefix_scratch_reset` does to the cache; its other part zeroes a cache of measured keys.
pub clear_tags : List StrideEntry → List StrideEntry
clear_tags [] = []
clear_tags (entry ∷ entries) = record entry { valid = 0 } ∷ clear_tags entries

pub scratch_reset : StrideCache → StrideCache
unfolding clear_tags
scratch_reset cache =
    let generation = (cache.generation + 1) % word32 in
    if generation == 0
    then record cache { entries = clear_tags cache.entries; generation = 1 }
    else record cache { generation = generation }

pub stride_hash : ℕ → ℕ
stride_hash pgno = bit_xor pgno (pgno / 2 ^ 32) % word32

-- `hash & mask`
pub home : ℕ → ℕ → ℕ
unfolding stride_hash
home pgno capacity = stride_hash pgno % capacity

-- The index of the entry; the fuel is the number of probes that are left.
pub find_loop : List StrideEntry → ℕ → ℕ → ℕ → ℕ → Option ℕ
find_loop entries capacity pgno zero idx = none
find_loop entries capacity pgno (suc probes) idx = elim (get_elem? entries idx) [
  | none ↦ none
  | some entry ↦ elim (entry.pgno == pgno) [
    | true ↦ some idx
    | false ↦ elim (entry.pgno == p_invalid) [
      | true ↦ none
      | false ↦ find_loop entries capacity pgno probes ((idx + 1) % capacity)
    ]
  ]
]

pub entry_find_slot : List StrideEntry → ℕ → ℕ → Option ℕ
unfolding find_loop home
entry_find_slot entries capacity pgno =
    if capacity == 0 then none else find_loop entries capacity pgno capacity (home pgno capacity)

-- The loops that look for a free slot have no bound of their own: fuel `capacity` is enough while a slot
-- is free.
pub free_loop : List StrideEntry → ℕ → ℕ → ℕ → Result ℕ
free_loop entries capacity zero idx = err fault
free_loop entries capacity (suc fuel) idx = elim (get_elem? entries idx) [
  | none ↦ err fault
  | some entry ↦ elim (entry.pgno == p_invalid) [
    | true ↦ ok idx
    | false ↦ free_loop entries capacity fuel ((idx + 1) % capacity)
  ]
]

-- A `calloc`ed entry, for a page.
abbrev pub blank_entry : ℕ → StrideEntry
blank_entry pgno = record {
  pgno = pgno;
  lengths = [];
  count = 0;
  max_len = 0;
  max_valid = false;
  valid = 0;
}

-- An entry written to the first free slot from its home on, and that slot.
pub place : List StrideEntry → ℕ → StrideEntry → Result (List StrideEntry × ℕ)
unfolding free_loop home
place entries capacity entry = do
  idx ← free_loop entries capacity capacity (home entry.pgno capacity)
  ok (set entries idx entry, idx)

pub rehash : List StrideEntry → List StrideEntry → ℕ → Result (List StrideEntry)
unfolding place
rehash [] fresh newcap = ok fresh
rehash (old ∷ entries) fresh newcap = elim (old.pgno == p_invalid) [
  | true ↦ rehash entries fresh newcap
  | false ↦ do placed ← place fresh newcap old; rehash entries placed.0 newcap
]

-- 40 bytes are an entry's size.
pub cache_grow : Allocator → StrideCache → Result StrideCache
unfolding rehash
cache_grow os cache =
    let newcap = if cache.capacity == 0 then 8 else cache.capacity * 2 % word32 in
    if not (os.grant (newcap * 40)) then err enomem else do
      fresh ← rehash cache.entries (replicate newcap (blank_entry p_invalid)) newcap
      ok (record cache { entries = fresh; capacity = newcap })

-- A new entry at the first free slot from its home on.
pub acquire_new : StrideCache → ℕ → Result (StrideCache × ℕ)
unfolding place
acquire_new cache pgno = do
  placed ← place cache.entries cache.capacity (blank_entry pgno)
  ok (record cache { entries = placed.0; count = cache.count + 1 }, placed.1)

pub acquire_grown : Allocator → StrideCache → ℕ → Result (StrideCache × ℕ)
unfolding cache_grow acquire_new
acquire_grown os cache pgno = do grown ← cache_grow os cache; acquire_new grown pgno

-- `if (!cache->generation) cache->generation = 1;`
abbrev pub seed : StrideCache → StrideCache
seed cache = if cache.generation == 0 then record cache { generation = 1 } else cache

-- With the slot that the search gave.
pub acquire_slot : Allocator → StrideCache → ℕ → Option ℕ → Result (StrideCache × ℕ)
unfolding acquire_new acquire_grown
acquire_slot os cache pgno (some idx) = ok (cache, idx)
acquire_slot os cache pgno none =
    if cache.capacity == 0 || ltb (cache.capacity * 3 % word32 / 4) (cache.count + 1)
    then acquire_grown os cache pgno
    else acquire_new cache pgno

-- With the index of the page's entry, which stands for the pointer to it. On a failure the cache is the
-- seeded one.
pub entry_acquire : Allocator → StrideCache → ℕ → Result (StrideCache × ℕ)
unfolding entry_find_slot acquire_slot
entry_acquire os unseeded pgno =
    let cache = seed unseeded in
    acquire_slot os cache pgno (entry_find_slot cache.entries cache.capacity pgno)

pub entry_invalidate : StrideCache → ℕ → StrideCache
unfolding entry_find_slot
entry_invalidate cache pgno = elim (entry_find_slot cache.entries cache.capacity pgno) [
  | none ↦ cache
  | some idx ↦ elim (get_elem? cache.entries idx) [
    | none ↦ cache
    | some entry ↦ record cache { entries = set cache.entries idx (record entry { valid = 0 }) }
  ]
]

-- What a rebuilding leaves in the cache: on a failure the entry keeps the tag 0.
abbrev pub refreshed :
    StrideCache
    → ℕ
    → StrideEntry
    → Result (StrideEntry × LeafPage)
    → StrideCache × Result (LeafPage × Option ℕ)
refreshed cache idx stale (err e) = (record cache { entries = set cache.entries idx stale }, err e)
refreshed cache idx stale (ok out) =
    (record cache { entries = set cache.entries idx out.0 }, ok (out.1, some idx))

-- The entry of the page, rebuilt unless it is of the cache's generation and of the page's key count.
pub freshen :
    Allocator
    → Bool
    → StrideCache
    → LeafPage
    → ℕ
    → StrideEntry
    → StrideCache × Result (LeafPage × Option ℕ)
unfolding stride_entry_rebuild
freshen os prefix_enabled cache mp idx entry =
    if not (entry.valid == cache.generation) || not (entry.count == length mp.keys)
    then (let stale = record entry { valid = 0 } in
        refreshed cache idx stale
          (stride_entry_rebuild os prefix_enabled cache.generation mp stale))
    else (cache, ok (mp, some idx))

-- With what acquiring gave, on a cache that was `cache` before.
pub prepare_with :
    Allocator
    → Bool
    → StrideCache
    → LeafPage
    → Result (StrideCache × ℕ)
    → StrideCache × Result (LeafPage × Option ℕ)
unfolding freshen
prepare_with os prefix_enabled cache mp (err e) = (seed cache, err e)
prepare_with os prefix_enabled cache mp (ok acquired) =
    elim (get_elem? acquired.0.entries acquired.1) [
      | none ↦ (acquired.0, err fault)
      | some entry ↦ freshen os prefix_enabled acquired.0 mp acquired.1 entry
    ]

-- The index of the page's entry, if the page is one that has one.
pub stride_prepare :
    Allocator → Bool → Bool → StrideCache → LeafPage → StrideCache × Result (LeafPage × Option ℕ)
unfolding entry_acquire prepare_with
stride_prepare os rdonly prefix_enabled cache mp =
    if mp.subp || rdonly || not prefix_enabled || not mp.leaf || mp.leaf2
    then (cache, ok (mp, none))
    else prepare_with os prefix_enabled cache mp (entry_acquire os cache mp.pgno)
