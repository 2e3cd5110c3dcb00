-- ===== src/Stride/Tests.antt =====
-- Runs of the functions on stride entries, and the theorems at concrete inputs.
use dlmdb.Base.{
  ℕ, zero, suc, ap, some_inj, get_elem?, p_invalid, ◌≤◌, ◌≡◌, refl, [], ◌∷◌, true, false, some,
  arith, ok, Allocator, replicate,
}
use dlmdb.Varint.{varint_decode}
use dlmdb.LeafKey.{prefix_decode_shared}
use dlmdb.LeafKey.Canonical.{prefix_decoded_length}
use dlmdb.Stride.{LeafPage, StrideEntry, stride_apply_insert, stride_apply_delete}
use dlmdb.Stride.Tracks.{Tracks, inserted_at}
use dlmdb.Stride.Changes.{Inserted, apply_insert-Inserted, apply_delete-Inserted}
use dlmdb.Stride.Table.{
  StrideCache, scratch_reset, cache_grow, entry_acquire, blank_entry, stride_prepare,
}
use dlmdb.Stride.Table.Grow.{IsTable, blank-IsProbed, Grown, cache_grow-Grown}
use dlmdb.Stride.Table.Acquire.{lookup, Acquired, acquire-Acquired}
use dlmdb.Stride.Table.Reset.{IsTagged, Stale, scratch_reset-Stale}
use dlmdb.Stride.Table.Prepare.{Prepared, prepare-Prepared}

abbrev roomy : Allocator
roomy = record { grant = λ n. true; junk = λ i. 0 }

-- The keys "abcd" and "abx" under the trunk "abcd": the second is stored as the shared length 2 and "x".
abbrev page : LeafPage
page = record {
  pgno = 7;
  leaf = true;
  leaf2 = false;
  subp = false;
  pad = 0;
  keys = (97 ∷ 98 ∷ 99 ∷ 100 ∷ []) ∷ (2 ∷ 120 ∷ []) ∷ [];
}

abbrev entry : StrideEntry
entry = record {
  pgno = 7;
  lengths = 4 ∷ 3 ∷ [];
  count = 2;
  max_len = 4;
  max_valid = true;
  valid = 1;
}

second_run : prefix_decoded_length 4 (2 ∷ 120 ∷ []) ≡ 3
unfolding prefix_decoded_length prefix_decode_shared varint_decode
second_run = refl

entry-Tracks : Tracks entry (4 ∷ 3 ∷ [])
entry-Tracks = record {
  counted = refl;
  room = omega arith;
  held = refl;
  bounded = omega arith;
  exact = λ e. refl;
}

apply_insert-Inserted_example :
    Inserted true page
      (inserted_at (4 ∷ 3 ∷ []) 1 9)
      (stride_apply_insert roomy true entry page 1 9)
apply_insert-Inserted_example =
    apply_insert-Inserted roomy true entry page (4 ∷ 3 ∷ []) 1 9 entry-Tracks (omega arith)

apply_delete-Inserted_example :
    (out : StrideEntry × LeafPage) × (stride_apply_delete true entry page 0 ≡ ok out)
    × Inserted true page (3 ∷ []) (ok out)
apply_delete-Inserted_example =
    apply_delete-Inserted true entry page (4 ∷ 3 ∷ []) 0 entry-Tracks (omega arith)

blank_tags :
    (n i : ℕ) (e : StrideEntry)
    → get_elem? (replicate n (blank_entry p_invalid)) i ≡ some e
    → e.valid ≤ 1
blank_tags zero i e at = cc
blank_tags (suc n) zero e at = omega (arith, ap (λ x. x.valid) (some_inj at))
blank_tags (suc n) (suc i) e at = blank_tags n i e at

abbrev cache : StrideCache
cache = record {
  entries = replicate 8 (blank_entry p_invalid);
  count = 0;
  capacity = 8;
  generation = 1;
}

cache-IsTable : IsTable cache
cache-IsTable = record { probed = blank-IsProbed 8; counted = refl }

cache-IsTagged : IsTagged cache
cache-IsTagged = record { fits = omega arith; tags = λ i e at. blank_tags 8 i e at }

cache_grow-Grown_example : Grown cache 16 (cache_grow roomy cache)
cache_grow-Grown_example = cache_grow-Grown roomy cache cache-IsTable (omega arith)

acquire-Acquired_example : Acquired cache 1 7 (entry_acquire roomy cache 7)
acquire-Acquired_example =
    acquire-Acquired roomy cache 7 cache-IsTable (omega arith) (λ e. omega arith)

prepare-Prepared_example :
    Prepared true page (lookup cache 7) (stride_prepare roomy false true cache page)
prepare-Prepared_example =
    prepare-Prepared roomy cache page cache-IsTable (omega arith) (λ e. omega arith) refl
      (omega arith, (omega (arith, second_run), tt))

scratch_reset-Stale_example : Stale (scratch_reset cache)
scratch_reset-Stale_example = scratch_reset-Stale cache cache-IsTable cache-IsTagged
