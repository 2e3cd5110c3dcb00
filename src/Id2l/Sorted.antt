-- ===== src/Id2l/Sorted.antt =====
-- `mdb_mid2l_search` on a list in ascending order.
use Prim.Native.Nat.{compare}
use mathlib.Core.Option
use dlmdb.Base.{
  ℕ, ◌+◌, ◌%◌, ◌≤◌, ◌<◌, ◌≡◌, ap, List, [], ◌∷◌, none, some, word32, length, get_elem?, arith, suc,
  zero, refl,
}
use dlmdb.Search.{search}
use dlmdb.Search.Split.{IsOrdered, IsSplit, Returns, Returns_map, search-IsSplit}
use dlmdb.Idl.{um_max}
use dlmdb.Id2l.{Id2, mid_at, count2, probe_id2l, mid2l_search}

module _ {P : Type 0} where
  -- The ID at a position of the array, 0 outside it.
  abbrev pub mid_of : List (Id2 P) → ℕ → ℕ
  mid_of ids i = elim (get_elem? ids i) [ none ↦ 0 | some e ↦ e.mid ]

  -- An array of `MDB_IDL_UM_SIZE` elements, with a count that it has room for.
  pub record IsList (ids : List (Id2 P)) : Type 0 where
    pub sized : um_max < length ids
    pub fits : count2 ids ≤ um_max

  -- The IDs stand in strictly ascending order.
  abbrev pub Ascends : List (Id2 P) → Type 0
  Ascends ids = (i j : ℕ) → 1 ≤ i → i < j → j ≤ count2 ids → mid_of ids i < mid_of ids j

  -- The position of the first ID that is not below `id`.
  pub record Finds (ids : List (Id2 P)) (id r : ℕ) : Type 0 where
    pub at_least : 1 ≤ r
    pub at_most : r ≤ count2 ids + 1
    pub below : (i : ℕ) → 1 ≤ i → i < r → mid_of ids i < id
    pub not_below : (i : ℕ) → r ≤ i → i ≤ count2 ids → id ≤ mid_of ids i

  pub mid_at-mid_of :
      (ids : List (Id2 P)) (i : ℕ) → i < length ids → mid_at ids i ≡ some (mid_of ids i)
  mid_at-mid_of [] i h = elim h [ ]
  mid_at-mid_of (e ∷ ids) zero h = refl
  mid_at-mid_of (e ∷ ids) (suc i) h = mid_at-mid_of ids i (omega arith)

  module _ (ids : List (Id2 P)) (id : ℕ) (v : IsList ids) where
    probe_cell : (i : ℕ) → i ≤ count2 ids → probe_id2l ids id i ≡ some (compare id (mid_of ids i))
    probe_cell i h =
        ap (Option.map (compare id)) (mid_at-mid_of ids i (omega (arith, v.sized, v.fits)))

    probe-IsOrdered : Ascends ids → IsOrdered (probe_id2l ids id) (count2 ids)
    probe-IsOrdered d = record {
      readable = λ i h k. ground (arith, probe_cell i k);
      left_of = λ i j h k l e. ground (arith, probe_cell i, probe_cell j l, d i j h k l);
      right_of = λ i j h k l e. ground (arith, probe_cell i, probe_cell j l, d i j h k l);
    }

    IsSplit-Finds : (r : ℕ) → IsSplit (probe_id2l ids id) (count2 ids) r → Finds ids id r
    IsSplit-Finds r s = record {
      at_least = s.at_least;
      at_most = s.at_most;
      below = λ i h k. ground (arith, s.before i h k, probe_cell i);
      not_below = λ i h k. ground (arith, s.from i h k, probe_cell i k);
    }

    -- On a list in strictly ascending order the search reads inside the array only, and returns the
    -- position of the first ID that is not below the one searched for.
    pub mid2l_search-Finds : Ascends ids → Returns (mid2l_search ids id) (Finds ids id)
    unfolding mid2l_search
    mid2l_search-Finds d =
        let whole : count2 ids % word32 ≡ count2 ids = omega (arith, v.fits) in
        rw whole (
          Returns_map (search (probe_id2l ids id) (count2 ids)) IsSplit-Finds (
            search-IsSplit (probe_id2l ids id) (count2 ids) (probe-IsOrdered d)
              (omega (arith, v.fits))))
