-- ===== src/Idl/Tests.antt =====
-- Runs on small ID lists, and the theorems at concrete inputs.
use dlmdb.Base.{zero, suc, ◌≤◌, ◌≡◌, refl, [], ◌∷◌, some, true, arith, Allocator, ok}
use dlmdb.Search.{search}
use dlmdb.Search.Split.{Returns}
use dlmdb.Idl.{
  Idl, entries, midl_need, midl_shrink, midl_append, midl_append_list, midl_append_range,
  midl_search,
}
use dlmdb.Idl.Valid.{IsValid, Keeps}
use dlmdb.Idl.Append.{Appended, midl_append-Appended}
use dlmdb.Idl.Bulk.{descending, midl_append_list-Appended, midl_append_range-Appended}
use dlmdb.Idl.Grow.{HasRoom, midl_need-HasRoom, midl_shrink-Keeps}
use dlmdb.Idl.Find.{Finds, Descends, midl_search-Finds}

-- Every request is granted, and fresh cells hold 77.
abbrev os : Allocator
os = record { grant = λ n. true; junk = λ i. 77 }

-- A block for five IDs that holds 9, 6 and 2.
abbrev three : Idl
three = record { alloc = 5; cells = 3 ∷ 9 ∷ 6 ∷ 2 ∷ 77 ∷ 77 ∷ [] }

three-IsValid : IsValid three
three-IsValid = record { sized = refl; fits = omega arith }

append_run : midl_append os three 1 ≡ ok (record { alloc = 5; cells = 4 ∷ 9 ∷ 6 ∷ 2 ∷ 1 ∷ 77 ∷ [] })
unfolding midl_append
append_run = refl

range_run :
    midl_append_range os three 4 2 ≡ ok (record { alloc = 5; cells = 5 ∷ 9 ∷ 6 ∷ 2 ∷ 5 ∷ 4 ∷ [] })
unfolding midl_append_range
range_run = refl

search_run : midl_search three 6 ≡ some 2
unfolding midl_search search
search_run = refl

search_miss : midl_search three 4 ≡ some 3
unfolding midl_search search
search_miss = refl

three-Descends : Descends three
three-Descends zero j h k l = absurd (omega arith)
three-Descends (suc zero) zero h k l = absurd (omega arith)
three-Descends (suc zero) (suc zero) h k l = absurd (omega arith)
three-Descends (suc zero) (suc (suc zero)) h k l = omega arith
three-Descends (suc zero) (suc (suc (suc zero))) h k l = omega arith
three-Descends (suc zero) (suc (suc (suc (suc j)))) h k l = absurd (omega arith)
three-Descends (suc (suc zero)) zero h k l = absurd (omega arith)
three-Descends (suc (suc zero)) (suc zero) h k l = absurd (omega arith)
three-Descends (suc (suc zero)) (suc (suc zero)) h k l = absurd (omega arith)
three-Descends (suc (suc zero)) (suc (suc (suc zero))) h k l = omega arith
three-Descends (suc (suc zero)) (suc (suc (suc (suc j)))) h k l = absurd (omega arith)
three-Descends (suc (suc (suc i))) j h k l = absurd (omega arith)

midl_append-Appended_example : Appended three (1 ∷ []) 3 (midl_append os three 1)
midl_append-Appended_example = midl_append-Appended os three 1 three-IsValid (omega arith)

midl_append_list-Appended_example :
    Appended three (entries three) 6 (midl_append_list os three three)
midl_append_list-Appended_example =
    midl_append_list-Appended os three three three-IsValid three-IsValid (omega arith) (omega arith)

midl_append_range-Appended_example :
    Appended three (descending 2 4) 5 (midl_append_range os three 4 2)
midl_append_range-Appended_example =
    midl_append_range-Appended os three 4 2 three-IsValid (omega arith) (omega arith) (omega arith)

midl_need-HasRoom_example : HasRoom three 400 (midl_need os three 400)
midl_need-HasRoom_example = midl_need-HasRoom os three 400 three-IsValid (omega arith)

midl_shrink-Keeps_example :
    IsValid (midl_shrink os three)
    × Keeps three (midl_shrink os three)
    × ((midl_shrink os three).alloc ≤ 5)
midl_shrink-Keeps_example = midl_shrink-Keeps os three three-IsValid (omega arith)

midl_search-Finds_example : Returns (midl_search three 6) (Finds three 6)
midl_search-Finds_example = midl_search-Finds three 6 three-IsValid three-Descends (omega arith)
