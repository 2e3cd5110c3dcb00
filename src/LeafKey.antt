-- ===== src/LeafKey.antt =====
-- mdb.c, keys of prefix-compressed leaf pages. The first key of a page, the trunk, is stored whole;
-- any other key is the length of the prefix that it shares with the trunk, as a varint, and the bytes
-- after that prefix. A `MDB_val` is the list of its bytes, and `none` one that is NULL or has NULL data.
pub mod Shared
pub mod RoundTrip
pub mod Inverse
pub mod Canonical
pub mod Encoded
pub mod Legacy
mod Tests
use dlmdb.Base.{
  ℕ, zero, suc, ◌+◌, ◌-◌, ◌*◌, ◌/◌, ◌%◌, List, [], ◌∷◌, ◌++◌, Option, none, some, Bool, true, false,
  ◌&&◌, ◌||◌, not, if◌then◌else◌, ltb, ◌==◌, word64, length, drop, take, get_or, Result, ok, err,
  corrupted, bad_valsize, ◌>>=◌,
}
use dlmdb.Varint.{varint_length, varint_encode, varint_decode}

pub leaf_shared_prefix : List ℕ → List ℕ → ℕ
leaf_shared_prefix [] b = 0
leaf_shared_prefix (x ∷ a) [] = 0
leaf_shared_prefix (x ∷ a) (y ∷ b) = if x == y then suc (leaf_shared_prefix a b) else 0

-- The size, and what goes to `*shared_out`, which is left alone without a trunk.
pub leaf_encoded_size : Option (List ℕ) → List ℕ → ℕ × Option ℕ
unfolding leaf_shared_prefix
leaf_encoded_size none key = (length key, none)
leaf_encoded_size (some trunk) key =
    let shared = leaf_shared_prefix trunk key in
    (varint_length shared + (length key - shared), some shared)

-- The bytes put at `dest`; the C function returns how many.
pub leaf_encode_key_fast : List ℕ → ℕ → List ℕ
leaf_encode_key_fast key shared =
    let shared' = if ltb (length key) shared then length key else shared in
    varint_encode shared' ++ drop shared' key

-- The bytes at `dest`, and `*shared_out`.
pub leaf_encode_key : Option (List ℕ) → List ℕ → List ℕ × ℕ
unfolding leaf_shared_prefix leaf_encode_key_fast
leaf_encode_key none key = (key, 0)
leaf_encode_key (some trunk) key =
    let shared = leaf_shared_prefix trunk key in (leaf_encode_key_fast key shared, shared)

-- The shared length and the bytes of the header; `none` is `MDB_CORRUPTED`.
unfoldable pub prefix_decode_shared : List ℕ → Option (ℕ × ℕ)
prefix_decode_shared [] = none
prefix_decode_shared (first ∷ rest) =
    if first / 128 % 2 == 0 then some (first, 1) else varint_decode (first ∷ rest)

-- `MDB_key_parts`: `prefix` is `none` for the NULL of the raw form.
pub record KeyParts : Type 0 where
  pub prefix : Option (List ℕ)
  pub suffix : List ℕ

abbrev pub raw : List ℕ → KeyParts
raw encoded = record { prefix = none; suffix = encoded }

-- `memcmp(a, b, n) == 0` for two strings of `n` bytes.
pub same_bytes : List ℕ → List ℕ → Bool
same_bytes [] [] = true
same_bytes [] (y ∷ b) = false
same_bytes (x ∷ a) [] = false
same_bytes (x ∷ a) (y ∷ b) = x == y && same_bytes a b

-- `suffix_len && shared < trunk->mv_size && trunk->mv_data[shared] == encoded[used]`
abbrev pub repeats_trunk : List ℕ → List ℕ → ℕ → ℕ → Bool
repeats_trunk trunk encoded shared used =
    ltb 0 (length encoded - used)
    && (ltb shared (length trunk) && get_or trunk shared 0 == get_or encoded used 0)

-- A header of one byte, or the header that `mdb_varint_encode` writes.
pub header_canonical : List ℕ → ℕ → ℕ → Bool
unfolding same_bytes
header_canonical encoded shared used =
    (used == 1 && ltb (get_or encoded 0 0) 0x80)
    || (length (varint_encode shared) == used
        && same_bytes (take used encoded) (varint_encode shared))

-- `mdb_leaf_key_parts` from the header on: the guards in the order of the code.
unfoldable pub parts_of : List ℕ → List ℕ → ℕ → ℕ × ℕ → Result KeyParts
unfolding header_canonical
parts_of trunk encoded limit (shared, used) =
    let suffix_len = length encoded - used in
    if ltb (length trunk) shared || ltb (length encoded) used
    then ok (raw encoded)
    else if ltb limit shared || ltb (limit - shared) suffix_len
    then err bad_valsize
    else if repeats_trunk trunk encoded shared used
    then ok (raw encoded)
    else if not (header_canonical encoded shared used)
    then ok (raw encoded)
    else ok (record { prefix = some (take shared trunk); suffix = drop used encoded })

-- `header` is a header that the caller has decoded, if that succeeded.
abbrev pub header_of : Option (ℕ × ℕ) → List ℕ → Result (ℕ × ℕ)
header_of (some h) encoded = ok h
header_of none encoded = elim (prefix_decode_shared encoded) [
  | none ↦ err corrupted
  | some h ↦ ok h
]

unfoldable pub leaf_key_parts : Option (List ℕ) → List ℕ → ℕ → Option (ℕ × ℕ) → Result KeyParts
leaf_key_parts none encoded limit header = ok (raw encoded)
leaf_key_parts (some trunk) encoded limit header = do
  h ← header_of header encoded
  parts_of trunk encoded limit h

-- `out`, and whether `out->mv_data` is the stored key itself rather than the buffer.
pub record Decoded : Type 0 where
  pub bytes : List ℕ
  pub aliased : Bool

abbrev pub join_parts : KeyParts → ℕ → Bool → Result Decoded
join_parts parts buf_size allow_alias = elim parts.prefix [
  | none ↦
      if allow_alias
      then ok (record { bytes = parts.suffix; aliased = true })
      else if ltb buf_size (length parts.suffix)
      then err bad_valsize
      else ok (record { bytes = parts.suffix; aliased = false })
  | some p ↦
      if ltb buf_size (length p + length parts.suffix)
      then err bad_valsize
      else ok (record { bytes = p ++ parts.suffix; aliased = false })
]

unfoldable pub leaf_decode_key :
    Option (List ℕ) → List ℕ → ℕ → Bool → Option (ℕ × ℕ) → Result Decoded
unfolding leaf_key_parts
leaf_decode_key trunk encoded buf_size allow_alias header = do
  parts ← leaf_key_parts trunk encoded buf_size header
  join_parts parts buf_size allow_alias
