-- ===== src/NodeSearch.antt =====
-- mdb.c, mdb_node_search: the binary search of a page for the first node that is not below a key. The
-- comparison of the key with the key of a node is a parameter.
pub mod Split
mod Tests
use Prim.Native.Nat.{Ordering}
use dlmdb.Base.{
  ℕ, zero, suc, ◌+◌, ◌-◌, ◌/◌, Bool, true, false, ◌&&◌, if◌then◌else◌, ltb, Result, ok, err, ◌>>=◌,
}

abbrev is_equal : Ordering → Bool
is_equal Ordering.eq = true
is_equal Ordering.lt = false
is_equal Ordering.gt = false

-- `if (cmp_res > 0) i++;`
abbrev pub skip_smaller : ℕ × Ordering → ℕ
skip_smaller (i, Ordering.gt) = i + 1
skip_smaller (i, Ordering.lt) = i
skip_smaller (i, Ordering.eq) = i

-- `probe i` is `cmp(key, nodekey)` for the node `i`, or the failure to read its key.
module _ (probe : ℕ → Result Ordering) where
  -- `while (low <= high)`, with `high + 1` for `high`, and the rounds that are left. The result is `i` and
  -- `cmp_res`.
  pub node_loop : ℕ → ℕ → ℕ → ℕ → Ordering → Result (ℕ × Ordering)
  node_loop zero low past i cmp_res = ok (i, cmp_res)
  node_loop (suc rounds) low past i cmp_res = elim (ltb low past) [
    | false ↦ ok (i, cmp_res)
    | true ↦
        let mid = (low + past - 1) / 2 in
        elim (probe mid) [
          | err e ↦ err e
          | ok Ordering.eq ↦ ok (mid, Ordering.eq)
          | ok Ordering.gt ↦ node_loop rounds (mid + 1) past mid Ordering.gt
          | ok Ordering.lt ↦ node_loop rounds low mid mid Ordering.lt
        ]
  ]

  -- The key index and `*exactp`; the node is NULL when the index is not below `nkeys`. A branch page has no
  -- key in its first node.
  pub node_search : Bool → ℕ → Result (ℕ × Bool)
  unfolding node_loop
  node_search leaf nkeys = do
    found ← node_loop nkeys (if leaf then 0 else 1) nkeys 0 Ordering.eq
    ok (skip_smaller found, is_equal found.1 && ltb 0 nkeys)
