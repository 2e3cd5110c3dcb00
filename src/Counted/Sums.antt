-- ===== src/Counted/Sums.antt =====
-- The sums of the counting functions, without the wrap of `uint64_t` where they fit.
use dlmdb.Base.{
  ℕ, zero, suc, ◌+◌, ◌%◌, ◌<◌, ◌≤◌, ◌≡◌, refl, List, [], ◌∷◌, Bool, true, false, ◌&&◌, ◌||◌, word64,
  length, take, arith,
}
use dlmdb.Counted.{
  Node, Page, node_get_count, sum_loop, leaf_entry_contribution, leaf_contribution, branch_sum,
  page_subtree_count,
}

-- The sum of a weight over nodes.
abbrev pub sum : (Node → ℕ) → List Node → ℕ
sum weight [] = 0
sum weight (node ∷ nodes) = weight node + sum weight nodes

pub sum_loop_lem :
    (weight : Node → ℕ) (nodes : List Node) (total : ℕ)
    → total + sum weight nodes < word64
    → sum_loop weight nodes total ≡ total + sum weight nodes
unfolding sum_loop
sum_loop_lem weight [] total small = omega arith
sum_loop_lem weight (node ∷ nodes) total small =
    let wrap : (total + weight node) % word64 ≡ total + weight node = omega arith in
    rw wrap (omega (arith, sum_loop_lem weight nodes (total + weight node) (omega (arith, small))))

pub sum-take_le :
    (weight : Node → ℕ) (n : ℕ) (nodes : List Node) → sum weight (take n nodes) ≤ sum weight nodes
sum-take_le weight zero nodes = omega arith
sum-take_le weight (suc n) [] = omega arith
sum-take_le weight (suc n) (node ∷ nodes) = omega (arith, sum-take_le weight n nodes)

pub sum_ones :
    (weight : Node → ℕ) (nodes : List Node)
    → ((node : Node) → weight node ≡ 1)
    → sum weight nodes ≡ length nodes
sum_ones weight [] one = refl
sum_ones weight (node ∷ nodes) one = omega (arith, one node, sum_ones weight nodes one)

-- The pages that hold entries, and those that hold counts.
abbrev pub holds_entries : Page → Bool
holds_entries mp = mp.leaf || mp.leaf2

pub page_subtree_count-leaf :
    (mp : Page)
    → holds_entries mp ≡ true
    → sum (leaf_entry_contribution mp) mp.nodes < word64
    → page_subtree_count mp ≡ sum (leaf_entry_contribution mp) mp.nodes
unfolding page_subtree_count leaf_contribution
page_subtree_count-leaf mp holds small = ground (
  arith,
  sum_loop_lem (leaf_entry_contribution mp) mp.nodes 0,
  (λ (e : mp.leaf2 ≡ true).
      sum_ones (leaf_entry_contribution mp) mp.nodes
        (λ node. unfold leaf_entry_contribution in rw e refl)),
)

pub page_subtree_count-branch :
    (mp : Page)
    → holds_entries mp ≡ false
    → mp.branch && mp.counted ≡ true
    → sum (node_get_count mp) mp.nodes < word64
    → page_subtree_count mp ≡ sum (node_get_count mp) mp.nodes
unfolding page_subtree_count branch_sum
page_subtree_count-branch mp holds counts small =
    ground (arith, sum_loop_lem (node_get_count mp) mp.nodes 0)
