-- ===== src/Idl/Find.antt =====
-- `mdb_midl_search` on a list in descending order.
use Prim.Native.Nat.{compare}
use mathlib.Core.Option
use dlmdb.Base.{ℕ, ◌+◌, ◌%◌, ◌≤◌, ◌<◌, ◌≡◌, ap, some, word32, get_or, arith, get_elem?-eq-get_or}
use dlmdb.Search.{search}
use dlmdb.Search.Split.{IsOrdered, IsSplit, Returns, Returns_map, search-IsSplit}
use dlmdb.Idl.{Idl, count, probe_idl, midl_search}
use dlmdb.Idl.Valid.{IsValid}

-- The IDs stand in strictly descending order.
abbrev pub Descends : Idl → Type 0
Descends ids =
    (i j : ℕ) → 1 ≤ i → i < j → j ≤ count ids → get_or ids.cells j 0 < get_or ids.cells i 0

-- The position of the first ID that is not above `id`; if `id` is in the list it is there and nowhere
-- else.
pub record Finds (ids : Idl) (id r : ℕ) : Type 0 where
  pub at_least : 1 ≤ r
  pub at_most : r ≤ count ids + 1
  pub above : (i : ℕ) → 1 ≤ i → i < r → id < get_or ids.cells i 0
  pub not_above : (i : ℕ) → r ≤ i → i ≤ count ids → get_or ids.cells i 0 ≤ id
  pub only_here : (i : ℕ) → 1 ≤ i → i ≤ count ids → get_or ids.cells i 0 ≡ id → i ≡ r

module _ (ids : Idl) (id : ℕ) (v : IsValid ids) where
  probe_cell :
      (i : ℕ) → i ≤ count ids → probe_idl ids id i ≡ some (compare (get_or ids.cells i 0) id)
  probe_cell i h =
      ap (Option.map (λ x. compare x id))
        (get_elem?-eq-get_or ids.cells i 0 (omega (arith, v.sized, v.fits)))

  probe-IsOrdered : Descends ids → IsOrdered (probe_idl ids id) (count ids)
  probe-IsOrdered d = record {
    readable = λ i h k. ground (arith, probe_cell i k);
    left_of = λ i j h k l e. ground (arith, probe_cell i, probe_cell j l, d i j h k l);
    right_of = λ i j h k l e. ground (arith, probe_cell i, probe_cell j l, d i j h k l);
  }

  IsSplit-Finds : Descends ids → (r : ℕ) → IsSplit (probe_idl ids id) (count ids) r → Finds ids id r
  IsSplit-Finds d r s = record {
    at_least = s.at_least;
    at_most = s.at_most;
    above = λ i h k. ground (arith, s.before i h k, probe_cell i);
    not_above = λ i h k. ground (arith, s.from i h k, probe_cell i k);
    only_here =
        λ i h k e. ground (arith, s.before i h, s.from r, probe_cell i k, probe_cell r, d r i);
  }

  -- On a list in strictly descending order the search reads inside the block only, and returns the
  -- position of the first ID that is not above the one searched for, which is its own position if it
  -- is in the list.
  pub midl_search-Finds :
      Descends ids → count ids + 1 < word32 → Returns (midl_search ids id) (Finds ids id)
  unfolding midl_search
  midl_search-Finds d small =
      let whole : count ids % word32 ≡ count ids = omega arith in
      rw whole (
        Returns_map (search (probe_idl ids id) (count ids)) (IsSplit-Finds d)
          (search-IsSplit (probe_idl ids id) (count ids) (probe-IsOrdered d) small))
