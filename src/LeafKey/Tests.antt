-- ===== src/LeafKey/Tests.antt =====
-- Runs on the keys of a small page, and the theorems at concrete inputs.
use Prim.Native.Nat.{Ordering}
use dlmdb.Base.{ℕ, ◌≤◌, ◌≡◌, ◌≢◌, refl, List, [], ◌∷◌, ◌++◌, none, some, true, false, arith, ok}
use dlmdb.Varint.{varint_encode, varint_decode}
use dlmdb.Compare.Order.{lex}
use dlmdb.LeafKey.{
  leaf_encode_key, leaf_decode_key, leaf_key_parts, prefix_decode_shared, parts_of, raw,
}
use dlmdb.LeafKey.RoundTrip.{decode_key-encode_key}
use dlmdb.LeafKey.Inverse.{encode_key-key_parts}
use dlmdb.LeafKey.Canonical.{
  prefix_decode_canonical, prefix_decode_canonical-Agrees, Agrees, refusal, prefix_decoded_length,
  decode_key-le-decoded_length,
}
use dlmdb.LeafKey.Encoded.{leaf_cmp_memn_encoded, leaf_cmp_memn_encoded-decoded}
use dlmdb.LeafKey.Legacy.{leaf_cmp_memn_encoded-raw}

program : Unit {0}
unfolding leaf_encode_key leaf_decode_key leaf_key_parts prefix_decode_shared parts_of varint_encode
    varint_decode
program = tt

-- The trunk "acct", the key "acme" under it, and a raw key that looks like a header.
abbrev trunk : List ℕ
trunk = b'a' ∷ b'c' ∷ b'c' ∷ b't' ∷ []

abbrev acme : List ℕ
acme = b'a' ∷ b'c' ∷ b'm' ∷ b'e' ∷ []

abbrev stored : List ℕ
stored = 2 ∷ b'm' ∷ b'e' ∷ []

abbrev legacy : List ℕ
legacy = 1 ∷ b'c' ∷ []

stored_form : (leaf_encode_key (some trunk) acme).0 ≡ stored
unfolding program
stored_form = refl

parts_run :
    leaf_key_parts (some trunk) stored 16 none
    ≡ ok (record { prefix = some (b'a' ∷ b'c' ∷ []); suffix = b'm' ∷ b'e' ∷ [] })
unfolding program
parts_run = refl

legacy_run : leaf_key_parts (some trunk) legacy 16 none ≡ ok (raw legacy)
unfolding program
legacy_run = refl

decode_run :
    leaf_decode_key (some trunk) stored 16 false none
    ≡ ok (record { bytes = acme; aliased = false })
unfolding program
decode_run = refl

decode_key-encode_key_example :
    leaf_decode_key (some trunk) (leaf_encode_key (some trunk) acme).0 16 true none
    ≡ ok (record { bytes = acme; aliased = false })
decode_key-encode_key_example = decode_key-encode_key trunk acme 16 true (omega arith) (omega arith)

encode_key-key_parts_example :
    (leaf_encode_key (some trunk) (b'a' ∷ b'c' ∷ [] ++ b'm' ∷ b'e' ∷ [])).0 ≡ stored
encode_key-key_parts_example = encode_key-key_parts trunk stored 16 parts_run

prefix_decode_canonical-Agrees_example :
    Agrees trunk stored
      (refusal stored (prefix_decode_shared stored))
      (prefix_decode_canonical (some trunk) stored)
      (leaf_key_parts (some trunk) stored 16 none)
prefix_decode_canonical-Agrees_example =
    prefix_decode_canonical-Agrees trunk stored 16 (omega arith) (omega arith)

decode_key-le-decoded_length_example : 4 ≤ prefix_decoded_length 4 stored
decode_key-le-decoded_length_example =
    decode_key-le-decoded_length trunk stored 16 false (omega arith) decode_run

leaf_cmp_memn_encoded-decoded_example :
    leaf_cmp_memn_encoded stored (some trunk) (some acme) 2
    ≡ ok (lex acme (b'a' ∷ b'c' ∷ [] ++ b'm' ∷ b'e' ∷ []))
leaf_cmp_memn_encoded-decoded_example =
    leaf_cmp_memn_encoded-decoded stored trunk acme 2 16 refl (omega arith) parts_run

legacy_header : prefix_decode_shared legacy ≡ some (1, 1)
unfolding program
legacy_header = refl

leaf_cmp_memn_encoded-raw_example :
    (leaf_decode_key (some trunk) legacy 16 true none
      ≡ ok (record { bytes = legacy; aliased = true }))
    × (leaf_cmp_memn_encoded legacy (some trunk) (some legacy) 0 ≢ ok Ordering.eq)
leaf_cmp_memn_encoded-raw_example =
    leaf_cmp_memn_encoded-raw legacy trunk 0 16 1 1 refl (omega arith) legacy_header refl
      (omega arith) (omega arith) (omega arith) (λ e. cc)
