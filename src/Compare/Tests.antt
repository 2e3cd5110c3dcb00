-- ===== src/Compare/Tests.antt =====
-- Runs of the comparison functions, and the theorems at concrete inputs.
use Prim.Native.Nat.{Ordering}
use mathlib.Core.List.{reverse}
use dlmdb.Base.{ℕ, List, ◌≡◌, refl, [], ◌∷◌, arith}
use dlmdb.Compare.{cmp_memn, cmp_memn_with_skip, cmp_memnr}
use dlmdb.Compare.Order.{lex, cmp_memn-lex, cmp_memn_with_skip-cmp_memn}
use dlmdb.Compare.Reverse.{cmp_memnr-lex}

shorter_first : cmp_memn (1 ∷ 2 ∷ []) (1 ∷ 2 ∷ 0 ∷ []) ≡ Ordering.lt
unfolding cmp_memn
shorter_first = refl

last_byte_decides : cmp_memnr (9 ∷ 1 ∷ []) (1 ∷ 2 ∷ []) ≡ Ordering.lt
unfolding cmp_memnr
last_byte_decides = refl

cmp_memn-lex_example : cmp_memn (3 ∷ 7 ∷ []) (3 ∷ []) ≡ lex (3 ∷ 7 ∷ []) (3 ∷ [])
cmp_memn-lex_example = cmp_memn-lex (3 ∷ 7 ∷ []) (3 ∷ []) (omega arith) (omega arith)

cmp_memn_with_skip-cmp_memn_example :
    cmp_memn_with_skip (3 ∷ 7 ∷ []) (3 ∷ 5 ∷ 1 ∷ []) 1 ≡ cmp_memn (3 ∷ 7 ∷ []) (3 ∷ 5 ∷ 1 ∷ [])
cmp_memn_with_skip-cmp_memn_example =
    cmp_memn_with_skip-cmp_memn (3 ∷ 7 ∷ []) (3 ∷ 5 ∷ 1 ∷ []) 1 refl (omega arith) (omega arith)

cmp_memnr-lex_example :
    cmp_memnr (9 ∷ 1 ∷ []) (1 ∷ 2 ∷ []) ≡ lex (reverse (9 ∷ 1 ∷ [])) (reverse (1 ∷ 2 ∷ []))
cmp_memnr-lex_example = cmp_memnr-lex (9 ∷ 1 ∷ []) (1 ∷ 2 ∷ [])

abbrev number : List ℕ
number = 1 ∷ 2 ∷ 0 ∷ 3 ∷ []

abbrev larger : List ℕ
larger = 0 ∷ 2 ∷ 1 ∷ 3 ∷ []
