-- ===== src/Idl.antt =====
-- midl.c, ID lists: a block of cells whose first one, `ids[-1]`, holds how many cells follow `ids[0]`,
-- whose second one, `ids[0]`, holds how many IDs are in the list, and which go on with these IDs, in
-- descending order where the list is sorted.
pub mod Valid
pub mod Append
pub mod Bulk
pub mod Grow
pub mod Find
mod Tests
use Prim.Native.Nat.{Ordering, compare}
use mathlib.Core.Option
use dlmdb.Base.{
  ℕ, zero, suc, ◌+◌, ◌-◌, ◌*◌, ◌/◌, ◌%◌, ◌^◌, List, Option, none, some, if◌then◌else◌, ltb, leb,
  ◌&&◌, word32, word64, int_arg, length, get_or, get_elem?, take, drop, set, Result, ok, err,
  enomem, ◌>>=◌, Allocator, fresh, resize, store, copy_in, overwrite,
}
use dlmdb.Search.{search}

-- `alloc` is `ids[-1]`, and `cells` are `ids[0]` and all that follows it.
pub record Idl : Type 0 where
  pub alloc : ℕ
  pub cells : List ℕ

-- `ids[0]`
abbrev pub count : Idl → ℕ
count ids = get_or ids.cells 0 0

-- `MDB_IDL_UM_MAX`
abbrev pub um_max : ℕ
um_max = 2 ^ 17 - 1

abbrev pub id_size : ℕ
id_size = 8

-- `malloc((num + 2) * sizeof(MDB_ID))`; `none` is NULL.
pub midl_alloc : Allocator → ℕ → Option Idl
midl_alloc os num =
    let bytes = (num + 2) * id_size % word64 in
    if os.grant bytes
    then some (record { alloc = num; cells = set (fresh os 0 (bytes / id_size - 1)) 0 0 })
    else none

pub midl_shrink : Allocator → Idl → Idl
unfolding resize
midl_shrink os ids =
    if ltb um_max ids.alloc && os.grant ((um_max + 2) * id_size)
    then record { alloc = um_max; cells = resize os ids.cells (um_max + 1) }
    else ids

-- `num` is the argument as it is added to a `size_t`. On failure `*idp` stays as it was.
pub midl_grow : Allocator → Idl → ℕ → Result Idl
unfolding resize
midl_grow os ids num =
    let bytes = (ids.alloc + num + 2) % word64 * id_size % word64 in
    if os.grant bytes
    then ok (record {
      alloc = (ids.alloc + num) % word64;
      cells = resize os ids.cells (bytes / id_size - 1);
    })
    else err enomem

-- `num += ids[0]` and `(num + num/4 + (256 + 2)) & -256`, in `unsigned`.
pub midl_need : Allocator → Idl → ℕ → Result Idl
unfolding resize
midl_need os ids num =
    let wanted = (num + count ids) % word32 in
    let rounded = (wanted + wanted / 4 + 258) % word32 / 256 * 256 in
    if ltb ids.alloc wanted
    then if os.grant (rounded * id_size)
      then ok (record {
        alloc = (rounded + word32 - 2) % word32;
        cells = resize os ids.cells (rounded - 1);
      })
      else err enomem
    else ok ids

pub midl_append : Allocator → Idl → ℕ → Result Idl
unfolding midl_grow
midl_append os ids id = do
  room ← if leb ids.alloc (count ids) then midl_grow os ids um_max else ok ids
  counted ← store room.cells 0 ((count room + 1) % word64)
  cells ← store counted (get_or counted 0 0) id
  ok (record room { cells = cells })

-- The IDs of a list, as `memcpy` reads them from `&app[1]`.
abbrev pub entries : Idl → List ℕ
entries ids = take (count ids) (drop 1 ids.cells)

pub midl_append_list : Allocator → Idl → Idl → Result Idl
unfolding midl_grow overwrite
midl_append_list os ids app = do
  room ←
      if leb ids.alloc ((count ids + count app) % word64)
      then midl_grow os ids (int_arg (count app))
      else ok ids
  copied ← copy_in room.cells (count room + 1) (entries app)
  cells ← store copied 0 ((count room + count app) % word64)
  ok (record room { cells = cells })

-- `while (n) ids[n--] = id++`, with `ids` moved up by `base`.
pub range_loop : ℕ → ℕ → ℕ → List ℕ → Result (List ℕ)
range_loop zero base id cells = ok cells
range_loop (suc n) base id cells = do
  cells' ← store cells (base + suc n) id
  range_loop n base ((id + 1) % word64) cells'

-- `n | MDB_IDL_UM_MAX` sets the low 17 bits of `n`.
pub midl_append_range : Allocator → Idl → ℕ → ℕ → Result Idl
unfolding midl_grow range_loop
midl_append_range os ids id n = do
  let len = count ids
  room ←
      if ltb ids.alloc ((len + n) % word64)
      then midl_grow os ids (int_arg (n / 2 ^ 17 * 2 ^ 17 + um_max))
      else ok ids
  counted ← store room.cells 0 ((len + n) % word64)
  cells ← range_loop n len id counted
  ok (record room { cells = cells })

-- `CMP(ids[cursor], id)`
abbrev pub probe_idl : Idl → ℕ → ℕ → Option Ordering
probe_idl ids id cursor = Option.map (λ x. compare x id) (get_elem? ids.cells cursor)

pub midl_search : Idl → ℕ → Option ℕ
midl_search ids id = search (probe_idl ids id) (count ids % word32)
