-- ===== src/LeafKey/Legacy.antt =====
-- Stored keys in the raw form of older pages, whose first bytes may pass for a header.
use Prim.Native.Nat.{Ordering}
use mathlib.Core.Path.{subst}
use dlmdb.Base.{
  ℕ, ◌+◌, ◌-◌, ◌≤◌, ◌≡◌, ◌≢◌, refl, sym, List, ◌++◌, none, some, true, false, ◌||◌, not, ltb,
  length, drop, take, ok, err, corrupted, Result, ◌>>=◌, arith, Bool-cases, inl, inr,
}
use dlmdb.Compare.Order.{lex_eq}
use dlmdb.LeafKey.{
  prefix_decode_shared, raw, join_parts, repeats_trunk, header_canonical, parts_of, leaf_key_parts,
  leaf_decode_key,
}
use dlmdb.LeafKey.Encoded.{leaf_cmp_memn_encoded, leaf_cmp_memn_encoded-lex}

parts_of-raw :
    (encoded trunk : List ℕ) (limit shared used : ℕ)
    → repeats_trunk trunk encoded shared used || not (header_canonical encoded shared used) ≡ true
    → shared + (length encoded - used) ≤ limit
    → shared ≤ length trunk
    → used ≤ length encoded
    → parts_of trunk encoded limit (shared, used) ≡ ok (raw encoded)
unfolding parts_of
parts_of-raw encoded trunk limit shared used legacy fits h u =
    let inside : (ltb (length trunk) shared || ltb (length encoded) used) ≡ false = ground arith in
    let small : (ltb limit shared || ltb (limit - shared) (length encoded - used)) ≡ false =
      ground arith in
    rw (inside, small)
      (elim (Bool-cases (repeats_trunk trunk encoded shared used)) [
        | inl again ↦ rw again refl
        | inr new ↦
            let other : not (header_canonical encoded shared used) ≡ true = rw new at legacy in
            rw (new, other) refl
      ])

-- Let a stored key begin with a header in range of the trunk that is not canonical or is followed by the
-- byte that the trunk has there, let the limit allow for its expansion, and let that expansion be
-- another string than the stored key. Then the key decodes to itself, in the raw form, and yet does not compare
-- equal to itself, whatever common prefix with the trunk is skipped.
pub leaf_cmp_memn_encoded-raw :
    (encoded trunk : List ℕ) (key_trunk_prefix limit shared used : ℕ)
    → take key_trunk_prefix encoded ≡ take key_trunk_prefix trunk
    → key_trunk_prefix ≤ length encoded
    → prefix_decode_shared encoded ≡ some (shared, used)
    → repeats_trunk trunk encoded shared used || not (header_canonical encoded shared used) ≡ true
    → shared + (length encoded - used) ≤ limit
    → shared ≤ length trunk
    → used ≤ length encoded
    → take shared trunk ++ drop used encoded ≢ encoded
    → (leaf_decode_key (some trunk) encoded limit true none
        ≡ ok (record { bytes = encoded; aliased = true }))
      × (leaf_cmp_memn_encoded encoded (some trunk) (some encoded) key_trunk_prefix
          ≢ ok Ordering.eq)
unfolding leaf_decode_key leaf_key_parts
leaf_cmp_memn_encoded-raw encoded trunk k limit shared used agree in_key e legacy fits h u other = (
  subst
      (λ o.
        (((elim o as (λ _. Result (ℕ × ℕ)) [ none ↦ err corrupted | some h ↦ ok h ]) >>= λ h.
        parts_of trunk encoded limit h)
          >>= λ parts. join_parts parts limit true)
        ≡ ok (record { bytes = encoded; aliased = true }))
      (sym e) (rw (parts_of-raw encoded trunk limit shared used legacy fits h u) refl),
  λ same. other (
      sym (
        lex_eq encoded (take shared trunk ++ drop used encoded)
          (cc (leaf_cmp_memn_encoded-lex encoded trunk encoded k shared used agree in_key e h u)))),
)
