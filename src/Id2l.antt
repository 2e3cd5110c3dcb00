-- ===== src/Id2l.antt =====
-- midl.c, ID2 lists: an array of (ID, pointer) pairs in ascending order of ID, whose first element's
-- `mid` is the count. The ID3 lists of the `MDB_VL32` build are searched and filled alike.
pub mod Sorted
pub mod Shift
pub mod Insert
pub mod Outcome
pub mod Append
mod Tests
use Prim.Native.Nat.{Ordering, compare}
use mathlib.Core.Option
use dlmdb.Base.{
  ℕ, zero, suc, ◌+◌, ◌-◌, ◌%◌, ◌^◌, List, [], ◌∷◌, Option, none, some, if◌then◌else◌, ltb, leb,
  ◌==◌, ◌&&◌, word32, word64, length, get_elem?, set, Bool,
}
use dlmdb.Idl.{um_max}
use dlmdb.Search.{search}

-- `MDB_ID2`; `P` is the type of what `mptr` points to, which no function here looks at.
pub record Id2 (P : Type 0) : Type 0 where
  pub mid : ℕ
  pub mptr : P

-- What the functions return, `too_big` also for the internal error of position 0, and `fault` for an access outside the array.
pub data Status : Type 0 where
  done duplicate too_big fault : Status

module _ {P : Type 0} where
  -- `ids[i].mid`
  abbrev pub mid_at : List (Id2 P) → ℕ → Option ℕ
  mid_at ids i = Option.map (λ (e : Id2 P). e.mid) (get_elem? ids i)

  abbrev pub count2 : List (Id2 P) → ℕ
  count2 [] = 0
  count2 (head ∷ ids) = head.mid

  -- `CMP(id, ids[cursor].mid)`
  abbrev pub probe_id2l : List (Id2 P) → ℕ → ℕ → Option Ordering
  probe_id2l ids id cursor = Option.map (compare id) (mid_at ids cursor)

  pub mid2l_search : List (Id2 P) → ℕ → Option ℕ
  mid2l_search ids id = search (probe_id2l ids id) (count2 ids % word32)

  -- `ids[0].mid++`
  abbrev pub bump_count : List (Id2 P) → List (Id2 P)
  bump_count [] = []
  bump_count (head ∷ ids) = record head { mid = (head.mid + 1) % word64 } ∷ ids

  -- `for (i = ids[0].mid; i > x; i--) ids[i] = ids[i-1];`, over the `rounds` left and the `i` of this
  -- round; `none` for an access outside the array.
  pub shift_loop : ℕ → ℕ → List (Id2 P) → Option (List (Id2 P))
  shift_loop zero i ids = some ids
  shift_loop (suc rounds) i ids = elim (get_elem? ids (i - 1)) [
    | none ↦ none
    | some e ↦ if ltb i (length ids) then shift_loop rounds (i - 1) (set ids i e) else none
  ]

  abbrev pub insert_at : List (Id2 P) → ℕ → Id2 P → Status × List (Id2 P)
  insert_at ids x id =
      let counted = bump_count ids in
      elim (shift_loop (count2 counted % word32 - x) (count2 counted % word32) counted) [
        | none ↦ (fault, ids)
        | some moved ↦ if ltb x (length moved) then (done, set moved x id) else (fault, ids)
      ]

  -- `x <= ids[0].mid && ids[x].mid == id->mid`
  abbrev pub holds_at : List (Id2 P) → ℕ → ℕ → Bool
  holds_at ids x id =
      leb x (count2 ids) && elim (mid_at ids x) [ none ↦ Bool.false | some m ↦ m == id ]

  pub mid2l_insert : List (Id2 P) → Id2 P → Status × List (Id2 P)
  mid2l_insert ids id = elim (mid2l_search ids id.mid) [
    | none ↦ (fault, ids)
    | some x ↦
        if ltb x 1
        then (too_big, ids)
        else if holds_at ids x id.mid
        then (duplicate, ids)
        else if leb um_max (count2 ids)
        then (too_big, ids)
        else insert_at ids x id
  ]

  pub mid2l_append : List (Id2 P) → Id2 P → Status × List (Id2 P)
  mid2l_append ids id =
      if leb um_max (count2 ids)
      then (too_big, ids)
      else let counted = bump_count ids in
        if ltb (count2 counted) (length counted)
        then (done, set counted (count2 counted) id)
        else (fault, ids)
