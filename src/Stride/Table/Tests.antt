-- ===== src/Stride/Table/Tests.antt =====
-- Runs of the hash table.
use dlmdb.Base.{p_invalid, none, ◌≡◌, refl, [], ok, true, ◌>>=◌, Allocator, replicate}
use dlmdb.Stride.Table.{StrideCache, entry_find_slot, entry_acquire, blank_entry}
use dlmdb.Stride.Table.Acquire.{lookup}

abbrev roomy : Allocator
roomy = record { grant = λ n. true; junk = λ i. 0 }

abbrev cache : StrideCache
cache = record {
  entries = replicate 8 (blank_entry p_invalid);
  count = 0;
  capacity = 8;
  generation = 1;
}

-- Pages 7 and 15 have the same home in a table of eight slots.
acquire_run :
    (entry_acquire roomy cache 7 >>= λ first.
    entry_acquire roomy first.0 15 >>= λ second. ok second.1)
    ≡ ok 0
unfolding entry_acquire
acquire_run = refl

-- A table without room is given eight slots.
grow_run :
    (entry_acquire roomy (record { entries = []; count = 0; capacity = 0; generation = 0 }) 7
      >>= λ first. ok first.0.capacity)
    ≡ ok 8
unfolding entry_acquire
grow_run = refl

-- An empty table has no entry of page 7.
lookup_run : lookup cache 7 ≡ none
unfolding entry_find_slot
lookup_run = refl
