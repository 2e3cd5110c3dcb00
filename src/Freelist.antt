-- ===== src/Freelist.antt =====
-- mdb.c, the end of mdb_page_alloc: contiguous pages from the list of reclaimed pages, or new ones from the
-- end of the map. `mop[i]` of the program is the entry `i - 1` of the list, whose length is `mop[0]`.
pub mod Ranges
pub mod Fresh
mod Tests
use dlmdb.Base.{
  ℕ, zero, suc, ◌+◌, ◌-◌, ◌*◌, List, Bool, true, false, not, ◌||◌, if◌then◌else◌, ltb, leb, ◌==◌,
  length, get_or, set, take, Option, none, some, Result, ok, err, enomem, map_full, Allocator,
}

-- `mop` is `me_pghead`, `next_pgno` that of the transaction and `maxpg` and `psize` those of the
-- environment.
pub record Pool : Type 0 where
  pub mop : List ℕ
  pub next_pgno : ℕ
  pub maxpg : ℕ
  pub psize : ℕ

-- `do { if (mop[i - n2] == mop[i] + n2) ... } while (--i > n2);`: the place of the first page of a range.
pub seek_range : List ℕ → ℕ → ℕ → Option ℕ
seek_range mop n2 zero = none
seek_range mop n2 (suc i) = elim (ltb n2 (suc i)) [
  | false ↦ none
  | true ↦ elim (get_or mop (i - n2) 0 == get_or mop i 0 + n2) [
    | true ↦ some i
    | false ↦ seek_range mop n2 i
  ]
]

-- `mop[++j] = mop[++i]` with `i = j + num`, for the rounds that are left.
pub straggle : List ℕ → ℕ → ℕ → ℕ → List ℕ
straggle mop num j zero = mop
straggle mop num j (suc rounds) = straggle (set mop j (get_or mop (j + num) 0)) num (suc j) rounds

-- The list without the range of `num` pages that ends at the entry `i`.
pub take_range : List ℕ → ℕ → ℕ → List ℕ
unfolding straggle
take_range mop num i =
    let mop_len = length mop - num in
    let j = suc i - num in take mop_len (straggle mop num j (mop_len - j))

-- Memory for the pages, or none for a writable map: `mdb_page_malloc` may fail.
abbrev pub with_memory : Allocator → Bool → Pool → ℕ → Pool × ℕ → Result (Pool × ℕ)
with_memory os writemap pool num out =
    if writemap || os.grant (pool.psize * num) then ok out else err enomem

-- With the place that the search gave.
pub alloc_at : Allocator → Bool → Pool → ℕ → Option ℕ → Result (Pool × ℕ)
unfolding take_range
alloc_at os writemap pool num (some i) =
    with_memory os writemap pool num
      (record pool { mop = take_range pool.mop num i }, get_or pool.mop i 0)
alloc_at os writemap pool num none =
    if leb pool.maxpg (pool.next_pgno + num)
    then err map_full
    else with_memory os writemap pool num
        (record pool { next_pgno = pool.next_pgno + num }, pool.next_pgno)

-- The first of `num` pages.
pub alloc_pages : Allocator → Bool → Pool → ℕ → Result (Pool × ℕ)
unfolding seek_range alloc_at
alloc_pages os writemap pool num =
    alloc_at os writemap pool num (seek_range pool.mop (num - 1) (length pool.mop))
