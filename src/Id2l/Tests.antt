-- ===== src/Id2l/Tests.antt =====
-- ID2 lists on a full array with two pairs.
use dlmdb.Base.{ℕ, ◌<◌, ◌≤◌, ◌≡◌, List, ◌∷◌, length, replicate, length-replicate, arith, dec_lt}
use dlmdb.Search.Split.{Returns}
use dlmdb.Idl.{um_max}
use dlmdb.Id2l.{Id2, mid2l_search, mid2l_insert, mid2l_append}
use dlmdb.Id2l.Sorted.{mid_of, IsList, Ascends, Finds, mid2l_search-Finds}
use dlmdb.Id2l.Outcome.{Outcome, mid2l_insert-Outcome}
use dlmdb.Id2l.Append.{mid2l_append-insert}

abbrev pair : ℕ → Id2 ℕ
pair n = record { mid = n; mptr = n }

spare : List (Id2 ℕ)
spare = replicate um_max (pair 0)

length-spare : length spare ≡ um_max
unfolding spare
length-spare = length-replicate um_max (pair 0)

abbrev two_pairs : List (Id2 ℕ)
two_pairs = pair 2 ∷ pair 10 ∷ pair 20 ∷ spare

two_pairs-IsList : IsList two_pairs
two_pairs-IsList = record { sized = omega (arith, length-spare); fits = omega arith }

two_pairs-Ascends : Ascends two_pairs
two_pairs-Ascends i j one less le =
    let first : i ≡ 1 = omega arith in
    let second : j ≡ 2 = omega arith in rw (first, second) (omega arith)

below_30 : (i : ℕ) → 1 ≤ i → i ≤ 2 → mid_of two_pairs i < 30
below_30 i one le = elim (dec_lt i 2) [
  | yes low ↦ let first : i ≡ 1 = omega arith in rw first (omega arith)
  | no high ↦ let second : i ≡ 2 = omega arith in rw second (omega arith)
]

mid2l_search-Finds_example : Returns (mid2l_search two_pairs 15) (Finds two_pairs 15)
mid2l_search-Finds_example = mid2l_search-Finds two_pairs 15 two_pairs-IsList two_pairs-Ascends

mid2l_insert-Outcome_example : Outcome two_pairs (pair 15) (mid2l_insert two_pairs (pair 15))
mid2l_insert-Outcome_example =
    mid2l_insert-Outcome two_pairs (pair 15) two_pairs-IsList two_pairs-Ascends

mid2l_append-insert_example : mid2l_append two_pairs (pair 30) ≡ mid2l_insert two_pairs (pair 30)
mid2l_append-insert_example =
    mid2l_append-insert two_pairs (pair 30) two_pairs-IsList two_pairs-Ascends below_30
