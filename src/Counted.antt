-- ===== src/Counted.antt =====
-- mdb.c, pages of databases with `MDB_COUNTED`: each node of a branch page carries the number of items
-- under its child. A page is its flags and its nodes; a node has the fields that the counting functions
-- read. Counts are `uint64_t`.
pub mod Sums
pub mod Rank
pub mod Blocks
pub mod Tree
pub mod Path
pub mod Leaf
pub mod Select
pub mod Search
pub mod Resume
pub mod GetRank
pub mod Update
mod Tests
use dlmdb.Base.{
  ℕ, zero, suc, ◌+◌, ◌%◌, List, [], ◌∷◌, Bool, true, false, ◌&&◌, ◌||◌, not, if◌then◌else◌, ltb,
  ◌==◌, word64, length, take,
}

-- `MDB_node`: `pgno` and `tally` of a branch node; of a leaf node the flags `F_DUPDATA`, `F_SUBDATA`, the
-- `md_entries` of the sub-database that it holds, and the number of keys of the sub-page that it holds.
pub record Node : Type 0 where
  pub pgno : ℕ
  pub tally : ℕ
  pub dupdata : Bool
  pub subdata : Bool
  pub sub_entries : ℕ
  pub sub_keys : ℕ

-- `MDB_page` with the flags `P_BRANCH`, `P_LEAF`, `P_LEAF2`, `P_SUBP` and `P_COUNTED`.
pub record Page : Type 0 where
  pub pgno : ℕ
  pub branch : Bool
  pub leaf : Bool
  pub leaf2 : Bool
  pub subp : Bool
  pub counted : Bool
  pub nodes : List Node

-- `NUMKEYS`
abbrev pub num_keys : Page → ℕ
num_keys mp = length mp.nodes

abbrev pub node_get_count : Page → Node → ℕ
node_get_count mp node = if mp.branch && mp.counted then node.tally else 0

abbrev pub node_set_count : Page → Node → ℕ → Node
node_set_count mp node value =
    if mp.branch && mp.counted then record node { tally = value } else node

-- `for (…) total += weight(node)`
unfoldable pub sum_loop : (Node → ℕ) → List Node → ℕ → ℕ
sum_loop weight [] total = total
sum_loop weight (node ∷ nodes) total = sum_loop weight nodes ((total + weight node) % word64)

abbrev pub leaf_count : Page → ℕ
leaf_count mp = num_keys mp

pub branch_sum : Page → ℕ
unfolding sum_loop
branch_sum mp =
    if not mp.branch || not mp.counted then 0 else sum_loop (node_get_count mp) mp.nodes 0

unfoldable pub leaf_entry_contribution : Page → Node → ℕ
leaf_entry_contribution mp node =
    if mp.leaf2
    then 1
    else if not mp.leaf
    then 0
    else if not node.dupdata
    then 1
    else if node.subdata
    then node.sub_entries
    else node.sub_keys

-- The count of the first `limit` entries, without the cursor's cache of running sums.
pub leaf_prefix_contribution : Page → ℕ → ℕ
unfolding sum_loop leaf_entry_contribution
leaf_prefix_contribution mp limit =
    let bounded = if ltb (num_keys mp) limit then num_keys mp else limit in
    if not mp.leaf && not mp.leaf2
    then 0
    else if mp.leaf2
    then bounded
    else sum_loop (leaf_entry_contribution mp) (take bounded mp.nodes) 0

unfoldable pub leaf_contribution : Page → ℕ
unfolding sum_loop leaf_entry_contribution
leaf_contribution mp =
    if mp.leaf2
    then leaf_count mp
    else if not mp.leaf
    then 0
    else sum_loop (leaf_entry_contribution mp) mp.nodes 0

unfoldable pub page_subtree_count : Page → ℕ
page_subtree_count mp =
    if mp.leaf || mp.leaf2
    then leaf_contribution mp
    else if mp.branch && mp.counted
    then branch_sum mp
    else 0
