-- ===== src/LeafKey/Encoded.antt =====
-- mdb.c, `mdb_leaf_cmp_memn_encoded`: a search key against a stored key, without decoding it.
use Prim.Native.Nat.{compare, Ordering}
use dlmdb.Base.{
  ℕ, zero, suc, ◌+◌, ◌-◌, ◌≤◌, ◌<◌, ◌≡◌, refl, sym, ap, ap₂, ◌∙◌, List, [], ◌∷◌, ◌++◌, Option, none,
  some, ◌||◌, ltb, ◌==◌, if◌then◌else◌, length, min, drop, take, get_or, arith, Result, ok, err,
  corrupted, bad_valsize, length-append, length-drop, length-take,
}
use native.Mathlib.Numerals.{add-one}
use dlmdb.Compare.{or_else, memcmp}
use dlmdb.Compare.Order.{lex, memcmp_rest, memcmp_zero, memcmp-cons}
use dlmdb.LeafKey.{prefix_decode_shared, leaf_key_parts}
use dlmdb.LeafKey.Inverse.{key_parts-header, parts_of_prefix}

-- `pos < shared ? trunk_bytes[pos] : suffix[pos - shared]`
abbrev pub candidate_byte : List ℕ → List ℕ → ℕ → ℕ → ℕ
candidate_byte trunk suffix shared pos =
    if ltb pos shared then get_or trunk pos 0 else get_or suffix (pos - shared) 0

-- `while (pos < minlen)`; `rounds` is `minlen - pos`, and `eq` that no byte differed.
pub encoded_loop : ℕ → ℕ → List ℕ → List ℕ → List ℕ → ℕ → Ordering
encoded_loop zero pos key trunk suffix shared = Ordering.eq
encoded_loop (suc rounds) pos key trunk suffix shared =
    let a = get_or key pos 0 in
    let b = candidate_byte trunk suffix shared pos in
    let rest = encoded_loop rounds (pos + 1) key trunk suffix shared in
    if a == b then rest else if ltb a b then Ordering.lt else Ordering.gt

-- From the header on.
pub cmp_expanded : List ℕ → List ℕ → List ℕ → ℕ → ℕ → ℕ → Result Ordering
unfolding encoded_loop
cmp_expanded encoded trunk key key_trunk_prefix shared used =
    if ltb (length trunk) shared || ltb (length encoded) used
    then err bad_valsize
    else let suffix = drop used encoded in
      let candidate_len = shared + (length encoded - used) in
      let skip = if ltb key_trunk_prefix shared then key_trunk_prefix else shared in
      let minlen = if ltb (length key) candidate_len then length key else candidate_len in
      ok (
        or_else (encoded_loop (minlen - skip) skip key trunk suffix shared)
          (compare (length key) candidate_len))

-- `*cmp_res`, where the function succeeds.
pub leaf_cmp_memn_encoded : List ℕ → Option (List ℕ) → Option (List ℕ) → ℕ → Result Ordering
leaf_cmp_memn_encoded [] trunk search_key key_trunk_prefix = err bad_valsize
leaf_cmp_memn_encoded (b ∷ bs) none search_key key_trunk_prefix = err bad_valsize
leaf_cmp_memn_encoded (b ∷ bs) (some trunk) none key_trunk_prefix = err bad_valsize
leaf_cmp_memn_encoded (b ∷ bs) (some trunk) (some key) key_trunk_prefix =
    elim (prefix_decode_shared (b ∷ bs)) [
      | none ↦ err corrupted
      | some (shared, used) ↦ cmp_expanded (b ∷ bs) trunk key key_trunk_prefix shared used
    ]

candidate_byte-get_or :
    (trunk suffix : List ℕ) (shared pos : ℕ)
    → shared ≤ length trunk
    → candidate_byte trunk suffix shared pos ≡ get_or (take shared trunk ++ suffix) pos 0
candidate_byte-get_or trunk suffix zero pos h = ground arith
candidate_byte-get_or [] suffix (suc shared) pos h = absurd (omega arith)
candidate_byte-get_or (x ∷ trunk) suffix (suc shared) zero h = ground arith
candidate_byte-get_or (x ∷ trunk) suffix (suc shared) (suc pos) h =
    ground (arith, candidate_byte-get_or trunk suffix shared pos)

drop-get_or :
    (pos : ℕ) (xs : List ℕ) → pos < length xs → drop pos xs ≡ get_or xs pos 0 ∷ drop (suc pos) xs
drop-get_or pos [] h = absurd (omega arith)
drop-get_or zero (x ∷ xs) h = refl
drop-get_or (suc pos) (x ∷ xs) h = drop-get_or pos xs (omega arith)

differ_or_rest :
    (x y : ℕ) (rest : Ordering)
    → (if x == y then rest else if ltb x y then Ordering.lt else Ordering.gt)
      ≡ or_else (compare x y) rest
differ_or_rest x y rest = ground arith

encoded_loop-memcmp :
    (rounds pos : ℕ) (key trunk suffix : List ℕ) (shared : ℕ)
    → shared ≤ length trunk
    → pos + rounds ≤ length key
    → pos + rounds ≤ length (take shared trunk ++ suffix)
    → encoded_loop rounds pos key trunk suffix shared
      ≡ memcmp (drop pos key) (drop pos (take shared trunk ++ suffix)) rounds
unfolding encoded_loop
encoded_loop-memcmp zero pos key trunk suffix shared h k l =
    sym (memcmp_zero (drop pos key) (drop pos (take shared trunk ++ suffix)))
encoded_loop-memcmp (suc rounds) pos key trunk suffix shared h k l =
    let candidate = take shared trunk ++ suffix in
    rw
      (
        drop-get_or pos key (omega arith),
        drop-get_or pos candidate (omega arith),
        memcmp-cons (get_or key pos 0) (get_or candidate pos 0),
        candidate_byte-get_or trunk suffix shared pos h,
        add-one pos,
      )
      (differ_or_rest (get_or key pos 0) (get_or candidate pos 0)
          (encoded_loop rounds (suc pos) key trunk suffix shared)
        ∙ ap (or_else (compare (get_or key pos 0) (get_or candidate pos 0))) (
            encoded_loop-memcmp rounds (suc pos) key trunk suffix shared h (omega arith)
              (omega arith)))

take_shorter : (m n : ℕ) (a b : List ℕ) → m ≤ n → take n a ≡ take n b → take m a ≡ take m b
take_shorter zero n a b h e = refl
take_shorter (suc m) zero a b h e = elim h [ ]
take_shorter (suc m) (suc n) [] [] h e = refl
take_shorter (suc m) (suc n) [] (y ∷ b) h e = cc
take_shorter (suc m) (suc n) (x ∷ a) [] h e = cc
take_shorter (suc m) (suc n) (x ∷ a) (y ∷ b) h e = ground (arith, take_shorter m n a b)

take-take-append :
    (m n : ℕ) (a b : List ℕ) → m ≤ n → n ≤ length a → take m (take n a ++ b) ≡ take m a
take-take-append zero n a b h k = refl
take-take-append (suc m) zero a b h k = elim h [ ]
take-take-append (suc m) (suc n) [] b h k = elim k [ ]
take-take-append (suc m) (suc n) (x ∷ a) b h k =
    ap (λ l. x ∷ l) (take-take-append m n a b (omega arith) (omega arith))

-- The loop from any start up to which the strings agree, and then the lengths.
encoded_loop-lex :
    (skip n : ℕ) (key trunk suffix : List ℕ) (shared len : ℕ)
    → take skip key ≡ take skip trunk
    → skip ≤ shared
    → shared ≤ length trunk
    → len ≡ shared + length suffix
    → n ≡ min (length key) len
    → skip ≤ n
    → or_else (encoded_loop (n - skip) skip key trunk suffix shared) (compare (length key) len)
      ≡ lex key (take shared trunk ++ suffix)
encoded_loop-lex skip n key trunk suffix shared len agree short h e f g =
    let candidate = take shared trunk ++ suffix in
    let size : length candidate ≡ len =
      omega (arith, length-append (take shared trunk) suffix, length-take shared trunk) in
    ap (λ r. or_else r (compare (length key) len))
      (encoded_loop-memcmp (n - skip) skip key trunk suffix shared h (omega arith)
        (omega (arith, size)))
    ∙ ap
        (λ m.
          or_else (memcmp (drop skip key) (drop skip candidate) (n - skip))
            (compare (length key) m))
        (sym size)
    ∙ memcmp_rest skip n key candidate
        (agree ∙ sym (take-take-append skip shared trunk suffix short h)) (omega (arith, size)) g

cmp_expanded-lex :
    (encoded trunk key : List ℕ) (key_trunk_prefix shared used : ℕ)
    → take key_trunk_prefix key ≡ take key_trunk_prefix trunk
    → key_trunk_prefix ≤ length key
    → shared ≤ length trunk
    → used ≤ length encoded
    → cmp_expanded encoded trunk key key_trunk_prefix shared used
      ≡ ok (lex key (take shared trunk ++ drop used encoded))
unfolding cmp_expanded
cmp_expanded-lex encoded trunk key k shared used agree in_key h u =
    let suffix = drop used encoded in
    let len = shared + (length encoded - used) in
    let skip = if ltb k shared then k else shared in
    let n = if ltb (length key) len then length key else len in
    let below : skip ≤ k = ground arith in
    let found =
      encoded_loop-lex skip n key trunk suffix shared len
        (take_shorter skip k key trunk below agree) (ground arith) h
        (omega (arith, length-drop used encoded)) (ground arith) (ground arith) in
    ground (arith, found)

-- The comparison with a stored key whose header is in range, where the search key and the trunk agree
-- on `key_trunk_prefix` bytes: the order of the search key and the expansion of the stored key by its
-- header, whether or not the decoder takes the stored key for a prefix form.
pub leaf_cmp_memn_encoded-lex :
    (encoded trunk key : List ℕ) (key_trunk_prefix shared used : ℕ)
    → take key_trunk_prefix key ≡ take key_trunk_prefix trunk
    → key_trunk_prefix ≤ length key
    → prefix_decode_shared encoded ≡ some (shared, used)
    → shared ≤ length trunk
    → used ≤ length encoded
    → leaf_cmp_memn_encoded encoded (some trunk) (some key) key_trunk_prefix
      ≡ ok (lex key (take shared trunk ++ drop used encoded))
unfolding leaf_cmp_memn_encoded
leaf_cmp_memn_encoded-lex [] trunk key k shared used agree in_key e h u =
    unfold prefix_decode_shared in cc
leaf_cmp_memn_encoded-lex (b ∷ bs) trunk key k shared used agree in_key e h u =
    rw (e, leaf_cmp_memn_encoded)
      (cmp_expanded-lex (b ∷ bs) trunk key k shared used agree in_key h u)

-- On every stored key that decodes as a prefix form, comparing without decoding gives the order of the
-- search key and the decoded key.
pub leaf_cmp_memn_encoded-decoded :
    (encoded trunk key : List ℕ) (key_trunk_prefix limit : ℕ) {p suffix : List ℕ}
    → take key_trunk_prefix key ≡ take key_trunk_prefix trunk
    → key_trunk_prefix ≤ length key
    → leaf_key_parts (some trunk) encoded limit none
      ≡ ok (record { prefix = some p; suffix = suffix })
    → leaf_cmp_memn_encoded encoded (some trunk) (some key) key_trunk_prefix
      ≡ ok (lex key (p ++ suffix))
leaf_cmp_memn_encoded-decoded encoded trunk key k limit agree in_key e =
    let (h, d, f) = key_parts-header trunk encoded limit e in
    let (g, is_p, is_suffix) = parts_of_prefix trunk encoded limit h.0 h.1 f in
    leaf_cmp_memn_encoded-lex encoded trunk key k h.0 h.1 agree in_key d g.in_trunk g.in_encoded
    ∙ ap₂ (λ q r. ok (lex key (q ++ r))) (sym is_p) (sym is_suffix)
