-- ===== src/LeafKey/Canonical.antt =====
-- mdb.c, `mdb_prefix_decode_canonical`, a second parser of stored keys, and
-- `mdb_prefix_decoded_length`, the bound by which buffers are sized.
use dlmdb.Base.{
  ℕ, ◌+◌, ◌-◌, ◌≤◌, ◌<◌, ◌≡◌, refl, ◌∙◌, inl, inr, List, [], ◌∷◌, ◌++◌, Option, none, some, Bool,
  ◌&&◌, ◌||◌, not, ltb, ◌==◌, if◌then◌else◌, length, drop, take, get_or, arith, Result, ok, err,
  corrupted, ◌>>=◌, >>=-eq-ok, Option-cases, length-append, length-drop, length-take, word64,
  get_or-drop,
}
use dlmdb.Varint.{varint_length, varint_encode}
use dlmdb.Varint.RoundTrip.{length-varint_encode}
use dlmdb.LeafKey.{
  leaf_shared_prefix, prefix_decode_shared, KeyParts, raw, same_bytes, repeats_trunk,
  header_canonical, parts_of, leaf_key_parts, Decoded, join_parts, leaf_decode_key,
}
use dlmdb.LeafKey.Inverse.{key_parts-header}

-- `SIZE_MAX`
abbrev pub size_max : ℕ
size_max = word64 - 1

unfoldable pub prefix_decoded_length : ℕ → List ℕ → ℕ
prefix_decoded_length trunk_len [] = 0
prefix_decoded_length trunk_len (b ∷ bs) = elim (prefix_decode_shared (b ∷ bs)) [
  | none ↦ length (b ∷ bs)
  | some (shared, used) ↦
      let encoded_len = length (b ∷ bs) in
      let suffix_len = encoded_len - used in
      if ltb trunk_len shared || ltb encoded_len used
      then encoded_len
      else if ltb (size_max - suffix_len) shared
      then encoded_len
      else if ltb (shared + suffix_len) encoded_len
      then encoded_len
      else shared + suffix_len
]

-- The header of more than one byte must be the one that `mdb_varint_encode` writes.
abbrev pub long_header_ok : List ℕ → ℕ → ℕ → Bool
long_header_ok encoded shared used =
    varint_length shared == used
    && (length (varint_encode shared) == varint_length shared
        && same_bytes (take used encoded) (varint_encode shared))

-- From the header on. `while (extra < suffix_len && extra < trunk_tail && trunk_bytes[shared + extra]
-- == encoded[used + extra]) extra++` is the loop of `mdb_leaf_shared_prefix` on the two tails.
pub canonical_of : List ℕ → List ℕ → ℕ → ℕ → Option (ℕ × ℕ × ℕ)
unfolding leaf_shared_prefix
canonical_of trunk encoded shared used =
    let suffix_len = length encoded - used in
    let extra = leaf_shared_prefix (drop shared trunk) (drop used encoded) in
    if ltb (length trunk) shared || ltb (length encoded) used
    then none
    else if ltb (size_max - suffix_len) shared
    then none
    else if ltb 0 extra
    then none
    else if not (used == 1 && ltb (get_or encoded 0 0) 0x80)
        && not (long_header_ok encoded shared used)
    then none
    else some (shared, used, shared + suffix_len)

-- `shared`, `used` and `full_len` where the function returns 1.
pub prefix_decode_canonical : Option (List ℕ) → List ℕ → Option (ℕ × ℕ × ℕ)
prefix_decode_canonical none encoded = none
prefix_decode_canonical (some trunk) [] = none
prefix_decode_canonical (some trunk) (b ∷ bs) = elim (prefix_decode_shared (b ∷ bs)) [
  | none ↦ none
  | some (shared, used) ↦ canonical_of trunk (b ∷ bs) shared used
]

-- What `mdb_leaf_key_parts` makes of a key that has no prefix form: an error if no header can be read.
abbrev pub refusal : List ℕ → Option (ℕ × ℕ) → Result KeyParts
refusal encoded none = err corrupted
refusal encoded (some h) = ok (raw encoded)

-- The answers of the two parsers that go together, where `refused` goes with a refusal.
abbrev pub Agrees :
    List ℕ → List ℕ → Result KeyParts → Option (ℕ × ℕ × ℕ) → Result KeyParts → Type 0
Agrees trunk encoded refused none r = r ≡ refused
Agrees trunk encoded refused (some (shared, used, full_len)) r =
    (r ≡ ok (record { prefix = some (take shared trunk); suffix = drop used encoded }))
    × (full_len ≡ length (take shared trunk ++ drop used encoded))

-- One more common byte is what `mdb_leaf_key_parts` looks for.
first_common :
    (a b : List ℕ)
    → ltb 0 (leaf_shared_prefix a b)
      ≡ (ltb 0 (length b) && (ltb 0 (length a) && get_or a 0 0 == get_or b 0 0))
unfolding leaf_shared_prefix
first_common [] [] = refl
first_common [] (y ∷ b) = ground arith
first_common (x ∷ a) [] = ground arith
first_common (x ∷ a) (y ∷ b) = ground arith

ltb-sub : (m n : ℕ) → ltb 0 (n - m) ≡ ltb m n
ltb-sub m n = ground arith

extra_iff :
    (trunk encoded : List ℕ) (shared used : ℕ)
    → ltb 0 (leaf_shared_prefix (drop shared trunk) (drop used encoded))
      ≡ repeats_trunk trunk encoded shared used
extra_iff trunk encoded shared used =
    first_common (drop shared trunk) (drop used encoded)
    ∙ rw
        (
          length-drop used encoded,
          length-drop shared trunk,
          get_or-drop shared trunk 0,
          get_or-drop used encoded 0,
          ltb-sub shared (length trunk),
        )
        refl

long_header-canonical :
    (encoded : List ℕ) (shared used : ℕ)
    → (used == 1 && ltb (get_or encoded 0 0) 0x80) || long_header_ok encoded shared used
      ≡ header_canonical encoded shared used
unfolding header_canonical
long_header-canonical encoded shared used = ground (arith, length-varint_encode shared)

canonical_of-Agrees :
    (trunk encoded : List ℕ) (limit shared used : ℕ)
    → length trunk + length encoded < word64
    → length trunk + length encoded ≤ limit
    → Agrees trunk encoded
        (ok (raw encoded))
        (canonical_of trunk encoded shared used)
        (parts_of trunk encoded limit (shared, used))
unfolding canonical_of parts_of header_canonical
canonical_of-Agrees trunk encoded limit shared used small fits =
    rw (extra_iff trunk encoded shared used) (
      ground (
        arith,
        length-varint_encode shared,
        length-append (take shared trunk) (drop used encoded),
        length-take shared trunk,
        length-drop used encoded,
      ))

-- Where the limit is at least the length of the trunk and the stored key together, which is below 2 ^ 64:
-- `mdb_prefix_decode_canonical` accepts the stored keys that `mdb_leaf_key_parts` takes for the prefix
-- form, with the same prefix and suffix and the length of the decoded key. A stored key that it refuses
-- is raw for `mdb_leaf_key_parts` if a header can be read from it, and an error, `MDB_CORRUPTED`, if
-- none can.
pub prefix_decode_canonical-Agrees :
    (trunk encoded : List ℕ) (limit : ℕ)
    → length trunk + length encoded < word64
    → length trunk + length encoded ≤ limit
    → Agrees trunk encoded
        (refusal encoded (prefix_decode_shared encoded))
        (prefix_decode_canonical (some trunk) encoded)
        (leaf_key_parts (some trunk) encoded limit none)
unfolding prefix_decode_canonical leaf_key_parts
prefix_decode_canonical-Agrees trunk [] limit small fits = unfold prefix_decode_shared in refl
prefix_decode_canonical-Agrees trunk (b ∷ bs) limit small fits =
    elim (prefix_decode_shared (b ∷ bs))
      as (λ o.
        Agrees trunk (b ∷ bs) (refusal (b ∷ bs) o)
          (elim o [ none ↦ none | some h ↦ canonical_of trunk (b ∷ bs) h.0 h.1 ])
          ((elim o as (λ _. Result (ℕ × ℕ)) [ none ↦ err corrupted | some h ↦ ok h ]) >>= λ h.
            parts_of trunk (b ∷ bs) limit h)) [
              | none ↦ refl
              | some h ↦ canonical_of-Agrees trunk (b ∷ bs) limit h.0 h.1 small fits
            ]

encoded-le-decoded_length :
    (trunk_len : ℕ) (encoded : List ℕ) → length encoded ≤ prefix_decoded_length trunk_len encoded
unfolding prefix_decoded_length
encoded-le-decoded_length trunk_len [] = omega arith
encoded-le-decoded_length trunk_len (b ∷ bs) = ground arith

prefix-le-decoded_length :
    (trunk_len : ℕ) (encoded : List ℕ) (h : ℕ × ℕ)
    → prefix_decode_shared encoded ≡ some h
    → h.0 ≤ trunk_len
    → h.1 ≤ length encoded
    → trunk_len + length encoded < word64
    → h.0 + (length encoded - h.1) ≤ prefix_decoded_length trunk_len encoded
unfolding prefix_decoded_length
prefix-le-decoded_length trunk_len [] h e p q small = unfold prefix_decode_shared in cc
prefix-le-decoded_length trunk_len (b ∷ bs) h e p q small = ground arith

abbrev parts_len : KeyParts → ℕ
parts_len parts = elim parts.prefix [
  | none ↦ length parts.suffix
  | some p ↦ length p + length parts.suffix
]

parts_len-le :
    (trunk encoded : List ℕ) (limit : ℕ) (h : ℕ × ℕ) (parts : KeyParts)
    → length trunk + length encoded < word64
    → prefix_decode_shared encoded ≡ some h
    → parts_of trunk encoded limit h ≡ ok parts
    → parts_len parts ≤ prefix_decoded_length (length trunk) encoded
unfolding parts_of
parts_len-le trunk encoded limit h parts small e f = ground (
  arith,
  encoded-le-decoded_length (length trunk) encoded,
  prefix-le-decoded_length (length trunk) encoded h e,
  length-take h.0 trunk,
  length-drop h.1 encoded,
)

join_parts-length :
    (parts : KeyParts) (buf_size : ℕ) (allow_alias : Bool) (d : Decoded)
    → join_parts parts buf_size allow_alias ≡ ok d
    → length d.bytes ≡ parts_len parts
join_parts-length parts buf_size allow_alias d e = elim (Option-cases parts.prefix) [
  | inl is_raw ↦ ground arith
  | inr (p, is_prefix) ↦ ground (arith, length-append p parts.suffix)
]

-- The bound is never below the length of the decoded key.
pub decode_key-le-decoded_length :
    (trunk encoded : List ℕ) (buf_size : ℕ) (allow_alias : Bool) {d : Decoded}
    → length trunk + length encoded < word64
    → leaf_decode_key (some trunk) encoded buf_size allow_alias none ≡ ok d
    → length d.bytes ≤ prefix_decoded_length (length trunk) encoded
unfolding leaf_decode_key
decode_key-le-decoded_length trunk encoded buf_size allow_alias {d} small e =
    let (parts, f, g) =
      >>=-eq-ok (leaf_key_parts (some trunk) encoded buf_size none)
        (λ parts. join_parts parts buf_size allow_alias) e in
    let (h, found, kept) = key_parts-header trunk encoded buf_size f in
    omega (
      arith,
      join_parts-length parts buf_size allow_alias d g,
      parts_len-le trunk encoded buf_size h parts small found kept,
    )
