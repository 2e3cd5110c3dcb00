-- ===== src/Counted/Update.antt =====
-- mdb.c, what a change of a leaf page does to the counts on the cursor's path. The frames here are those
-- below the leaf's, the nearest one first; `int64_t` sums that overflow are undefined in C and are plain
-- integers here.
pub mod Shifts
pub mod Tallied
pub mod Adjust
use dlmdb.Base.{
  ℕ, zero, suc, List, [], ◌∷◌, map, Option, none, some, Bool, true, false, ◌&&◌, ◌||◌, not,
  if◌then◌else◌, ◌==◌, get_elem?, set, ℤ, pos, negsuc, ◌+ℤ◌, ◌-ℤ◌, is_zero, int64, clamp,
}
use dlmdb.Counted.{Node, Page, node_get_count, node_set_count, page_subtree_count}
use dlmdb.Counted.Rank.{Frame}

-- `(int64_t)after - (int64_t)before`
abbrev pub count_diff : ℕ → ℕ → ℤ
count_diff after before = int64 after -ℤ int64 before

-- The first node with that page number, and the change of its count.
pub update_loop : Page → List Node → ℕ → ℕ → List Node × ℤ
update_loop parent [] child_pgno total = ([], pos 0)
update_loop parent (node ∷ nodes) child_pgno total =
    let rest = update_loop parent nodes child_pgno total in
    let before = node_get_count parent node in
    if node.pgno == child_pgno
    then (
      (if before == total then node else node_set_count parent node total) ∷ nodes,
      count_diff total before,
    )
    else (node ∷ rest.0, rest.1)

pub update_parent_count : Page → ℕ → ℕ → Page × ℤ
unfolding update_loop
update_parent_count parent child_pgno total =
    if not parent.branch || not parent.counted
    then (parent, pos 0)
    else let out = update_loop parent parent.nodes child_pgno total in
      (record parent { nodes = out.0 }, out.1)

-- The count of node `index` of a page set to `value`.
abbrev pub set_count : Page → ℕ → Node → ℕ → Page
set_count page index node value = record page {
  nodes = set page.nodes index (node_set_count page node value);
}

-- A round of the loop of `mdb_propagate_count_delta_path`.
abbrev pub propagate_frame : ℤ → Frame → Frame
propagate_frame delta f =
    if not f.page.branch || not f.page.counted then f else elim (get_elem? f.page.nodes f.ki) [
      | none ↦ f
      | some node ↦ record f {
        page = set_count f.page f.ki node (clamp (int64 (node_get_count f.page node) +ℤ delta));
      }
    ]

pub propagate_count_delta : ℤ → List Frame → List Frame
propagate_count_delta delta frames =
    if is_zero delta then frames else map (propagate_frame delta) frames

-- The node of the parent at the cursor's index, if it is the leaf's.
abbrev pub slot : Frame → Page → Option Node
slot parent leaf =
    if parent.page.branch && parent.page.counted
    then elim (get_elem? parent.page.nodes parent.ki) [
      | none ↦ none
      | some node ↦ if node.pgno == leaf.pgno then some node else none
    ]
    else none

-- With the slot matched.
pub adjust_slot : Page → Bool → ℤ → Frame → List Frame → Node → List Frame
unfolding propagate_count_delta
adjust_slot leaf split_performed value_delta parent below node =
    let before = node_get_count parent.page node in
    let after =
      if split_performed then page_subtree_count leaf else clamp (int64 before +ℤ value_delta) in
    if not split_performed && is_zero value_delta
    then parent ∷ below
    else (if after == before
        then parent
        else record parent { page = set_count parent.page parent.ki node after })
      ∷ propagate_count_delta (count_diff after before) below

-- Without: the parent's node for the leaf, wherever it is.
abbrev pub unmatched : Page → ℤ → Frame → List Frame → List Frame
unmatched leaf value_delta parent below =
    let out = update_parent_count parent.page leaf.pgno (page_subtree_count leaf) in
    let diff = if is_zero out.1 && not (is_zero value_delta) then value_delta else out.1 in
    record parent { page = out.0 } ∷ propagate_count_delta diff below

-- `counted` is `MDB_COUNTED` of the database; without a frame `mc_top` is 0.
pub adjust_counted_parents : Bool → Page → Bool → ℤ → List Frame → List Frame
adjust_counted_parents counted leaf split_performed value_delta [] = []
adjust_counted_parents counted leaf split_performed value_delta (parent ∷ below) =
    if not counted then parent ∷ below else elim (slot parent leaf) [
      | some node ↦ adjust_slot leaf split_performed value_delta parent below node
      | none ↦ unmatched leaf value_delta parent below
    ]
