-- ===== src/Stride/Longest.antt =====
-- The longest key of a page: the loops are maxima of the decoded lengths, and no key decodes to more.
use dlmdb.Base.{
  ℕ, zero, suc, ◌≤◌, ◌≡◌, refl, ◌∙◌, List, [], ◌∷◌, map, some, true, false, ◌&&◌, ◌||◌, not,
  if◌then◌else◌, ◌==◌, length, get_elem?, arith,
}
use dlmdb.LeafKey.Canonical.{prefix_decoded_length}
use dlmdb.Stride.{LeafPage, raise, maxdecoded_loop, leaf_maxdecoded, entry_max_loop}

abbrev pub maximum : List ℕ → ℕ
maximum [] = 0
maximum (x ∷ xs) = raise x (maximum xs)

-- The lengths of the keys of a page once they are decoded.
abbrev pub decoded_lengths : List (List ℕ) → List ℕ
decoded_lengths [] = []
decoded_lengths (trunk ∷ keys) = length trunk ∷ map (prefix_decoded_length (length trunk)) keys

prefix_decoded_length_nil :
    (trunk_len : ℕ) (encoded : List ℕ)
    → length encoded ≡ 0
    → prefix_decoded_length trunk_len encoded ≡ 0
prefix_decoded_length_nil trunk_len [] e = unfold prefix_decoded_length in refl
prefix_decoded_length_nil trunk_len (x ∷ xs) e = absurd (omega arith)

maxdecoded_loop-maximum :
    (trunk_len : ℕ) (keys : List (List ℕ)) (max_len : ℕ)
    → maxdecoded_loop trunk_len keys max_len
      ≡ raise max_len (maximum (map (prefix_decoded_length trunk_len) keys))
unfolding maxdecoded_loop
maxdecoded_loop-maximum trunk_len [] max_len = ground arith
maxdecoded_loop-maximum trunk_len (encoded ∷ keys) max_len =
    maxdecoded_loop-maximum trunk_len keys _
    ∙ ground (arith, prefix_decoded_length_nil trunk_len encoded)

keys_maximum :
    (keys : List (List ℕ))
    → (elim keys as (λ _. ℕ) [
      | [] ↦ 0
      | trunk ∷ keys ↦
          let max_len = maxdecoded_loop (length trunk) keys (length trunk) in
          if max_len == 0 then length trunk else max_len
    ])
      ≡ maximum (decoded_lengths keys)
keys_maximum [] = refl
keys_maximum (trunk ∷ keys) =
    ground (arith, maxdecoded_loop-maximum (length trunk) keys (length trunk))

-- On a leaf page of variable-size keys the loop's result is the maximum of the decoded lengths.
pub leaf_maxdecoded-maximum :
    (mp : LeafPage)
    → mp.leaf && not mp.leaf2 ≡ true
    → leaf_maxdecoded mp ≡ maximum (decoded_lengths mp.keys)
unfolding leaf_maxdecoded
leaf_maxdecoded-maximum mp e =
    let on : (not mp.leaf || mp.leaf2) ≡ false = ground arith in simp on (keys_maximum mp.keys)

pub entry_max_loop-maximum :
    (lengths : List ℕ) (max_len : ℕ)
    → entry_max_loop lengths max_len ≡ raise max_len (maximum lengths)
unfolding entry_max_loop
entry_max_loop-maximum [] max_len = ground arith
entry_max_loop-maximum (x ∷ xs) max_len = entry_max_loop-maximum xs _ ∙ ground arith

pub elem-le-maximum : (xs : List ℕ) (i x : ℕ) → get_elem? xs i ≡ some x → x ≤ maximum xs
elem-le-maximum [] i x e = cc
elem-le-maximum (y ∷ xs) zero x e = let same : y ≡ x = cc in ground arith
elem-le-maximum (y ∷ xs) (suc i) x e = ground (arith, elem-le-maximum xs i x e)
