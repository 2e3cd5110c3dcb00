-- ===== src/Stride/Table/Prepare.antt =====
-- Preparing the entry of a page for a change of the page.
use mathlib.Core.Path.{subst}
use dlmdb.Base.{
  p_invalid, ℕ, suc, ap, ◌*◌, ◌<◌, ◌≡◌, ◌≢◌, refl, sym, ◌∙◌, List, [], ◌∷◌, Bool, true, false, not,
  ◌||◌, ◌&&◌, ◌==◌, word32, length, length-map, get_elem?, set, Option, none, some, arith, All,
  Result, ok, err, enomem, fault, Allocator, inl, inr, ◌⊎◌, get_elem?-lt, get_elem?-set_self,
  Bool-cases,
}
use dlmdb.LeafKey.Canonical.{prefix_decoded_length}
use dlmdb.Stride.{LeafPage, StrideEntry}
use dlmdb.Stride.Longest.{maximum, decoded_lengths}
use dlmdb.Stride.Tracks.{Tracks, pad_for}
use dlmdb.Stride.Rebuild.{Rebuilt, entry_rebuild-Rebuilt}
use dlmdb.Stride.Table.{
  StrideCache, seed, refreshed, freshen, prepare_with, entry_acquire, stride_prepare,
}
use dlmdb.Stride.Table.Place.{set_same-IsProbed, occupied-set_same}
use dlmdb.Stride.Table.Grow.{IsTable}
use dlmdb.Stride.Table.Acquire.{
  lookup, or_blank, lookup-Stored, Acquired, next_generation, seed_cases, acquire-Acquired,
}

-- What preparing may do, where `kept` is the entry of the page before: fail for lack of memory, or give
-- the index of an entry of the page that passes the test. Either the entry is built from the page and
-- the stride with it, or it is the one that was kept and the page is unchanged.
abbrev pub Prepared :
    Bool → LeafPage → Option StrideEntry → StrideCache × Result (LeafPage × Option ℕ) → Type 0
Prepared prefix_enabled mp kept (cache, err e) = IsTable cache × (e ≡ enomem)
Prepared prefix_enabled mp kept (cache, ok (mp', none)) = ⊥
Prepared prefix_enabled mp kept (cache, ok (mp', some idx)) =
    IsTable cache
    × ((e : StrideEntry) × (get_elem? cache.entries idx ≡ some e)
        × (e.pgno ≡ mp.pgno)
        × (e.valid ≡ cache.generation)
        × (e.count ≡ length mp.keys)
        × ((Tracks e (decoded_lengths mp.keys)
              × (mp' ≡ record mp {
                pad = pad_for prefix_enabled mp (maximum (decoded_lengths mp.keys));
              }))
            ⊎ ((kept ≡ some e) × (mp' ≡ mp))))

length-decoded_lengths : (keys : List (List ℕ)) → length (decoded_lengths keys) ≡ length keys
length-decoded_lengths [] = refl
length-decoded_lengths (trunk ∷ keys) =
    ap suc (length-map keys (prefix_decoded_length (length trunk)))

set-IsTable :
    (cache : StrideCache) (idx : ℕ) (old e : StrideEntry)
    → IsTable cache
    → get_elem? cache.entries idx ≡ some old
    → old.pgno ≢ p_invalid
    → e.pgno ≡ old.pgno
    → IsTable (record cache { entries = set cache.entries idx e })
set-IsTable cache idx old e t at full same = record {
  probed = set_same-IsProbed cache.entries cache.capacity idx old e t.probed at full same;
  counted = t.counted ∙ sym (occupied-set_same cache.entries idx old e at full same);
}

module _ (prefix_enabled : Bool) (cache : StrideCache) (mp : LeafPage) (idx : ℕ)
    (entry : StrideEntry) (kept : Option StrideEntry) (t : IsTable cache)
    (at : get_elem? cache.entries idx ≡ some entry) (page : entry.pgno ≡ mp.pgno)
    (full : mp.pgno ≢ p_invalid) where
  used : entry.pgno ≢ p_invalid
  used e = full (sym page ∙ e)

  refreshed-Prepared :
      (r : Result (StrideEntry × LeafPage))
      → Rebuilt prefix_enabled cache.generation mp (decoded_lengths mp.keys) entry.pgno r
      → Prepared prefix_enabled mp kept (refreshed cache idx (record entry { valid = 0 }) r)
  refreshed-Prepared (err e) failed =
      (set-IsTable cache idx entry (record entry { valid = 0 }) t at used refl, failed)
  refreshed-Prepared (ok (e, mp')) (tracks, same, valid, stride) = (
    set-IsTable cache idx entry e t at used same,
    (
      e,
      get_elem?-set_self cache.entries idx e (get_elem?-lt cache.entries idx entry at),
      same ∙ page,
      valid,
      tracks.counted ∙ length-decoded_lengths mp.keys,
      inl (tracks, stride),
    ),
  )

  freshen-Prepared :
      (os : Allocator)
      → cache.generation ≢ 0
      → mp.leaf && not mp.leaf2 && not mp.subp ≡ true
      → All (λ l. l < word32) (decoded_lengths mp.keys)
      → (entry.valid ≡ cache.generation → kept ≡ some entry)
      → Prepared prefix_enabled mp kept (freshen os prefix_enabled cache mp idx entry)
  unfolding freshen
  freshen-Prepared os tagged kind small found =
      elim (Bool-cases
        (not (entry.valid == cache.generation) || not (entry.count == length mp.keys))) [
          | inl old ↦ rw old (
              refreshed-Prepared _ (
                entry_rebuild-Rebuilt os prefix_enabled cache.generation mp
                  (record entry { valid = 0 }) tagged kind small))
          | inr fresh ↦
              let valid : entry.valid ≡ cache.generation = ground arith in
              let many : entry.count ≡ length mp.keys = ground arith in
              rw fresh (t, (entry, at, page, valid, many, inr (found valid, refl)))
        ]

seed-IsTable : (cache : StrideCache) → IsTable cache → IsTable (seed cache)
seed-IsTable cache t = rw (seed_cases cache) (record { probed = t.probed; counted = t.counted })

next_generation-pos : (cache : StrideCache) → next_generation cache ≢ 0
next_generation-pos cache same = ground arith

-- The entry that acquiring gives is of the page, and one that passes the test was there before.
module _ (cache : StrideCache) (mp : LeafPage) where
  or_blank-kept :
      (o : Option StrideEntry)
      → lookup cache mp.pgno ≡ o
      → ((or_blank o mp.pgno).pgno ≡ mp.pgno)
        × ((or_blank o mp.pgno).valid ≡ next_generation cache
            → lookup cache mp.pgno ≡ some (or_blank o mp.pgno))
  or_blank-kept none gone = (refl, λ valid. absurd (next_generation-pos cache (sym valid)))
  or_blank-kept (some e) found = ((lookup-Stored cache mp.pgno e found).1, λ valid. found)

  with-Prepared :
      (os : Allocator) (prefix_enabled : Bool)
      → IsTable cache
      → mp.pgno ≢ p_invalid
      → mp.leaf && not mp.leaf2 && not mp.subp ≡ true
      → All (λ l. l < word32) (decoded_lengths mp.keys)
      → (r : Result (StrideCache × ℕ)) → Acquired cache (next_generation cache) mp.pgno r
      → Prepared prefix_enabled mp
          (lookup cache mp.pgno)
          (prepare_with os prefix_enabled cache mp r)
  unfolding prepare_with
  with-Prepared os prefix_enabled t full kind small (err e) failed = (seed-IsTable cache t, failed)
  with-Prepared os prefix_enabled t full kind small (ok (out, idx)) (u, seeded, at, found, others) =
      let (page, before) = or_blank-kept (lookup cache mp.pgno) refl in
      subst
        (λ o.
          Prepared prefix_enabled mp (lookup cache mp.pgno)
            (elim o as (λ _. StrideCache × Result (LeafPage × Option ℕ)) [
              | none ↦ (out, err fault)
              | some entry ↦ freshen os prefix_enabled out mp idx entry
            ]))
        (sym at)
        (freshen-Prepared prefix_enabled out mp idx (or_blank (lookup cache mp.pgno) mp.pgno)
          (lookup cache mp.pgno) u at page full os (λ e. next_generation-pos cache (sym seeded ∙ e))
          kind small (λ valid. before (valid ∙ seeded)))

-- Let a well-formed cache have a capacity below 2 ^ 32 / 3, and let the page be a leaf of variable-size
-- keys that is no sub-page, has a number other than `P_INVALID` and keys that decode to less than
-- 2 ^ 32 bytes. Preparing in a writable database with prefix compression keeps the cache well-formed and
-- either fails with `ENOMEM`, or gives the index of an entry of that page, of the cache's generation and
-- with the page's key count. Either this entry holds the decoded length of every key and the page is
-- unchanged but for the stride in `mp_pad`, which comes from their maximum, or the cache had this very
-- entry for the page before and the page is unchanged.
pub prepare-Prepared :
    (os : Allocator) (cache : StrideCache) (mp : LeafPage)
    → IsTable cache
    → cache.capacity * 3 < word32
    → mp.pgno ≢ p_invalid
    → mp.leaf && not mp.leaf2 && not mp.subp ≡ true
    → All (λ l. l < word32) (decoded_lengths mp.keys)
    → Prepared true mp (lookup cache mp.pgno) (stride_prepare os false true cache mp)
unfolding stride_prepare
prepare-Prepared os cache mp t room full kind small =
    let on : (mp.subp || false || not true || not mp.leaf || mp.leaf2) ≡ false = ground arith in
    simp on (
      with-Prepared cache mp os true t full kind small (entry_acquire os cache mp.pgno)
        (acquire-Acquired os cache mp.pgno t room full))
