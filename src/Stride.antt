-- ===== src/Stride.antt =====
-- mdb.c, the decoded lengths of the keys of prefix-compressed leaf pages: the longest one, which is kept in
-- the page header as its stride, and the entries of a transaction's cache, which hold the length of every
-- key of a page so that an insertion or a deletion does not decode the others.
pub mod Longest
pub mod Reserve
pub mod Tracks
pub mod Changes
pub mod Rebuild
pub mod Table
mod Tests
use dlmdb.Base.{
  ℕ, zero, suc, ◌+◌, ◌-◌, ◌*◌, ◌/◌, ◌^◌, List, [], ◌∷◌, Bool, true, false, ◌&&◌, ◌||◌, not,
  if◌then◌else◌, ltb, leb, ◌==◌, word32, length, get_or, take, drop, Result, ok, err, enomem, fault,
  ◌>>=◌, Allocator, resize, store, copy_in, overwrite,
}
use dlmdb.LeafKey.Canonical.{prefix_decoded_length}

-- A page: flags, `mp_pad`, and the stored keys of its nodes; `mn_ksize` is the length of a key.
pub record LeafPage : Type 0 where
  pub pgno : ℕ
  pub leaf : Bool
  pub leaf2 : Bool
  pub subp : Bool
  pub pad : ℕ
  pub keys : List (List ℕ)

-- `if (len > max_len) max_len = len;`
abbrev pub raise : ℕ → ℕ → ℕ
raise max_len len = if ltb max_len len then len else max_len

pub maxdecoded_loop : ℕ → List (List ℕ) → ℕ → ℕ
maxdecoded_loop trunk_len [] max_len = max_len
maxdecoded_loop trunk_len (encoded ∷ keys) max_len = maxdecoded_loop trunk_len keys (
    if length encoded == 0
    then max_len
    else raise max_len (prefix_decoded_length trunk_len encoded))

pub leaf_maxdecoded : LeafPage → ℕ
unfolding maxdecoded_loop
leaf_maxdecoded mp = if not mp.leaf || mp.leaf2 then 0 else elim mp.keys [
  | [] ↦ 0
  | trunk ∷ keys ↦
      let max_len = maxdecoded_loop (length trunk) keys (length trunk) in
      if max_len == 0 then length trunk else max_len
]

pub maxkey_loop : List (List ℕ) → ℕ → ℕ
maxkey_loop [] max_len = max_len
maxkey_loop (key ∷ keys) max_len = maxkey_loop keys (raise max_len (length key))

pub leaf_maxkey_raw : LeafPage → ℕ
unfolding maxkey_loop
leaf_maxkey_raw mp = if not mp.leaf || mp.leaf2 then 0 else maxkey_loop mp.keys 0

-- `prefix_enabled` is that the cursor's database has `MDB_PREFIX_COMPRESSION`.
abbrev pub leaf_store_stride : Bool → LeafPage → ℕ → LeafPage
leaf_store_stride prefix_enabled mp stride =
    if not mp.leaf || mp.leaf2 || not prefix_enabled
    then (if not mp.leaf2 then record mp { pad = 0 } else mp)
    else record mp { pad = if ltb (2 ^ 16 - 1) stride then 2 ^ 16 - 1 else stride }

pub leaf_refresh_stride : Bool → LeafPage → LeafPage
unfolding leaf_maxdecoded
leaf_refresh_stride prefix_enabled mp =
    if not mp.leaf || mp.leaf2 || not prefix_enabled
    then (if not mp.leaf2 then record mp { pad = 0 } else mp)
    else elim mp.keys [
      | [] ↦ record mp { pad = 0 }
      | trunk ∷ keys ↦
          let stride = leaf_maxdecoded mp in
          leaf_store_stride prefix_enabled mp (if stride == 0 then length trunk else stride)
    ]

-- `MDB_prefix_stride_entry`; `length_cap` is the length of `lengths`.
pub record StrideEntry : Type 0 where
  pub pgno : ℕ
  pub lengths : List ℕ
  pub count : ℕ
  pub max_len : ℕ
  pub max_valid : Bool
  pub valid : ℕ

pub stride_pack_length : ℕ → ℕ
stride_pack_length len = if ltb (word32 - 1) len then word32 - 1 else len

pub entry_max_loop : List ℕ → ℕ → ℕ
entry_max_loop [] max_len = max_len
entry_max_loop (len ∷ lengths) max_len = entry_max_loop lengths (raise max_len len)

-- The entry with its maximum, and the maximum.
pub stride_entry_max : StrideEntry → StrideEntry × ℕ
unfolding entry_max_loop
stride_entry_max entry =
    if entry.count == 0
    then (entry, 0)
    else if entry.max_valid
    then (entry, entry.max_len)
    else let max_len =
        entry_max_loop (drop 1 (take entry.count entry.lengths)) (get_or entry.lengths 0 0) in
      (record entry { max_len = max_len; max_valid = true }, max_len)

-- `while (newcap < need)`; each round needs less fuel than `need - newcap`.
pub cap_loop : ℕ → ℕ → ℕ → ℕ
cap_loop zero need newcap = newcap
cap_loop (suc fuel) need newcap = elim (ltb newcap need) [
  | false ↦ newcap
  | true ↦ elim (ltb ((word32 - 1) / 2) newcap) [
    | true ↦ need
    | false ↦ cap_loop fuel need (newcap * 2)
  ]
]

pub stride_entry_reserve : Allocator → StrideEntry → ℕ → Result StrideEntry
unfolding cap_loop resize
stride_entry_reserve os entry need =
    if leb need (length entry.lengths)
    then ok entry
    else let newcap =
        cap_loop need need (if length entry.lengths == 0 then 16 else length entry.lengths) in
      if os.grant (4 * newcap)
      then ok (record entry { lengths = resize os entry.lengths newcap })
      else err enomem

-- The loop of the rebuilding over the keys from position `i` on.
pub rebuild_loop : ℕ → List (List ℕ) → ℕ → List ℕ → ℕ → Result (List ℕ × ℕ)
unfolding stride_pack_length
rebuild_loop trunk_len [] i lengths max_len = ok (lengths, max_len)
rebuild_loop trunk_len (encoded ∷ keys) i lengths max_len = do
  let len = prefix_decoded_length trunk_len encoded
  lengths' ← store lengths i (stride_pack_length len)
  rebuild_loop trunk_len keys (suc i) lengths' (raise max_len len)

-- With room for the lengths of the keys.
pub rebuild_entry :
    Bool → ℕ → LeafPage → List (List ℕ) → StrideEntry → Result (StrideEntry × LeafPage)
unfolding rebuild_loop stride_pack_length
rebuild_entry prefix_enabled generation mp [] room = ok (
  record room { count = 0; max_len = 0; max_valid = true; valid = generation },
  leaf_store_stride prefix_enabled mp 0,
)
rebuild_entry prefix_enabled generation mp (trunk ∷ keys) room = do
  first ← store room.lengths 0 (stride_pack_length (length trunk))
  (lengths, max_len) ← rebuild_loop (length trunk) keys 1 first (length trunk)
  ok (
    record room {
      lengths = lengths;
      count = suc (length keys);
      max_len = max_len;
      max_valid = true;
      valid = generation;
    },
    leaf_store_stride prefix_enabled mp max_len,
  )

-- The generation is that of the cache; `fault` is a failed assertion on it.
pub stride_entry_rebuild :
    Allocator → Bool → ℕ → LeafPage → StrideEntry → Result (StrideEntry × LeafPage)
unfolding stride_entry_reserve rebuild_entry
stride_entry_rebuild os prefix_enabled generation mp entry =
    if not mp.leaf || mp.leaf2 || mp.subp
    then ok (entry, mp)
    else if generation == 0
    then err fault
    else do
      let total = length mp.keys
      room ← stride_entry_reserve os entry (if total == 0 then 1 else total)
      rebuild_entry prefix_enabled generation mp mp.keys room

-- With room for one more length.
pub insert_length : Bool → StrideEntry → LeafPage → ℕ → ℕ → Result (StrideEntry × LeafPage)
unfolding overwrite stride_pack_length stride_entry_max
insert_length prefix_enabled room mp indx keylen = do
  let at = if ltb room.count indx then room.count else indx
  moved ←
      if ltb at room.count
      then copy_in room.lengths (at + 1) (take (room.count - at) (drop at room.lengths))
      else ok room.lengths
  lengths ← store moved at (stride_pack_length keylen)
  let added = record room { lengths = lengths; count = room.count + 1 }
  let grown =
      if leb room.max_len keylen then record added { max_len = keylen; max_valid = true } else added
  let out = stride_entry_max grown
  ok (out.0, leaf_store_stride prefix_enabled mp out.1)

pub stride_apply_insert :
    Allocator → Bool → StrideEntry → LeafPage → ℕ → ℕ → Result (StrideEntry × LeafPage)
unfolding stride_entry_reserve insert_length
stride_apply_insert os prefix_enabled entry mp indx keylen = do
  room ← stride_entry_reserve os entry (entry.count + 1)
  insert_length prefix_enabled room mp indx keylen

-- With the cells moved down.
abbrev pub shorten : Bool → StrideEntry → LeafPage → ℕ → StrideEntry × LeafPage
shorten prefix_enabled fewer mp removed =
    if fewer.count == 0
    then (record fewer { max_len = 0; max_valid = true }, leaf_store_stride prefix_enabled mp 0)
    else let checked =
        if leb fewer.max_len removed then record fewer { max_valid = false } else fewer in
      let out = stride_entry_max checked in (out.0, leaf_store_stride prefix_enabled mp out.1)

pub stride_apply_delete : Bool → StrideEntry → LeafPage → ℕ → Result (StrideEntry × LeafPage)
unfolding overwrite stride_entry_max
stride_apply_delete prefix_enabled entry mp indx =
    if leb entry.count indx then ok (entry, mp) else do
      let removed = get_or entry.lengths indx 0
      lengths ←
          if ltb (indx + 1) entry.count
          then copy_in entry.lengths indx
              (take (entry.count - indx - 1) (drop (indx + 1) entry.lengths))
          else ok entry.lengths
      ok (
          shorten prefix_enabled (record entry { lengths = lengths; count = entry.count - 1 }) mp
            removed)
