-- ===== src/LeafKey/Inverse.antt =====
-- The forms that `mdb_leaf_key_parts` accepts, and that the encoder writes each of them again.
use dlmdb.Base.{
  ℕ, zero, suc, ◌≤◌, ◌<◌, ◌≡◌, ◌≢◌, refl, sym, ap, ◌∙◌, List, [], ◌∷◌, ◌++◌, none, some, true, ◌&&◌,
  ltb, ◌==◌, length, drop, take, get_or, arith, ok, Bool-cases, Option-cases, inl, inr, get_or-drop,
  length-drop, take-append-drop,
}
use dlmdb.Varint.{varint_encode}
use dlmdb.Varint.RoundTrip.{varint_encode-byte}
use dlmdb.LeafKey.{
  leaf_encode_key, prefix_decode_shared, KeyParts, header_canonical, parts_of, leaf_key_parts,
}
use dlmdb.LeafKey.Shared.{IsShared-append}
use dlmdb.LeafKey.RoundTrip.{encode_key-bytes, same_bytes_eq}

-- What the guards have established where `mdb_leaf_key_parts` keeps a prefix form.
pub record IsPrefixForm (trunk encoded : List ℕ) (shared used : ℕ) : Type 0 where
  pub in_trunk : shared ≤ length trunk
  pub in_encoded : used ≤ length encoded
  pub stops :
      used < length encoded → shared < length trunk → get_or trunk shared 0 ≢ get_or encoded used 0
  pub canonical : header_canonical encoded shared used ≡ true

pub parts_of_prefix :
    (trunk encoded : List ℕ) (limit shared used : ℕ) {p suffix : List ℕ}
    → parts_of trunk encoded limit (shared, used) ≡ ok (record { prefix = some p; suffix = suffix })
    → IsPrefixForm trunk encoded shared used
      × (p ≡ take shared trunk)
      × (suffix ≡ drop used encoded)
unfolding parts_of
parts_of_prefix trunk encoded limit shared used e = (
  record {
    in_trunk = ground arith;
    in_encoded = ground arith;
    stops = λ h k d. ground arith;
    canonical = ground arith;
  },
  ground arith,
  ground arith,
)

short_header :
    (b : ℕ) (bs : List ℕ) (shared used : ℕ)
    → b < 128
    → prefix_decode_shared (b ∷ bs) ≡ some (shared, used)
    → b ≡ shared
unfolding prefix_decode_shared
short_header b bs shared used h e = ground arith

pub key_parts-header :
    (trunk encoded : List ℕ) (limit : ℕ) {parts : KeyParts}
    → leaf_key_parts (some trunk) encoded limit none ≡ ok parts
    → (h : ℕ × ℕ) × (prefix_decode_shared encoded ≡ some h)
      × (parts_of trunk encoded limit h ≡ ok parts)
unfolding leaf_key_parts
key_parts-header trunk encoded limit e = elim (Option-cases (prefix_decode_shared encoded)) [
  | inl bad ↦ absurd (ground arith)
  | inr (h, good) ↦ (h, good, ground arith)
]

drop_prefix : (n : ℕ) (a b : List ℕ) → n ≤ length a → drop n (take n a ++ b) ≡ b
drop_prefix zero a b h = refl
drop_prefix (suc n) [] b h = elim h [ ]
drop_prefix (suc n) (x ∷ a) b h = drop_prefix n a b (omega arith)

-- A canonical header is the one that the encoder writes for its value.
pub header_canonical-encode :
    (encoded : List ℕ) (shared used : ℕ)
    → prefix_decode_shared encoded ≡ some (shared, used)
    → used ≤ length encoded
    → header_canonical encoded shared used ≡ true
    → take used encoded ≡ varint_encode shared
unfolding header_canonical
header_canonical-encode [] shared used e in_encoded c = unfold prefix_decode_shared in cc
header_canonical-encode (b ∷ bs) shared used e in_encoded c =
    elim (Bool-cases (used == 1 && ltb b 0x80)) [
      | inl short ↦
          let one : used ≡ 1 = ground arith in
          let small : b < 128 = ground arith in
          let is_b : b ≡ shared = short_header b bs shared used small e in
          rw (one, ← is_b, varint_encode-byte b small) refl
      | inr long ↦ same_bytes_eq _ _ (ground arith)
    ]

-- Whatever `mdb_leaf_key_parts` takes for a prefix form is what the encoder stores for the decoded
-- key: each key has one prefix form under a trunk.
pub encode_key-key_parts :
    (trunk encoded : List ℕ) (limit : ℕ) {p suffix : List ℕ}
    → leaf_key_parts (some trunk) encoded limit none
      ≡ ok (record { prefix = some p; suffix = suffix })
    → (leaf_encode_key (some trunk) (p ++ suffix)).0 ≡ encoded
encode_key-key_parts trunk encoded limit e =
    let (h, d, f) = key_parts-header trunk encoded limit e in
    let (g, is_p, is_suffix) = parts_of_prefix trunk encoded limit h.0 h.1 f in
    rw (is_p, is_suffix)
      (encode_key-bytes trunk (take h.0 trunk ++ drop h.1 encoded) h.0 (
          IsShared-append trunk (drop h.1 encoded) h.0 g.in_trunk (λ q r.
            rw (get_or-drop h.1 encoded 0) (g.stops (omega (arith, length-drop h.1 encoded)) r)))
        ∙ ap (λ l. varint_encode h.0 ++ l) (drop_prefix h.0 trunk (drop h.1 encoded) g.in_trunk)
        ∙ ap (λ l. l ++ drop h.1 encoded)
            (sym (header_canonical-encode encoded h.0 h.1 d g.in_encoded g.canonical))
        ∙ take-append-drop h.1 encoded)
