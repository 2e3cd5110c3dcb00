-- ===== src/Counted/Leaf.antt =====
-- The end of the descent, on a leaf page.
use dlmdb.Base.{
  get_elem?-lt, ℕ, ◌+◌, ◌<◌, ◌≤◌, ◌≡◌, refl, sym, ap, ap₂, ◌∙◌, List, ◌∷◌, some, true, false,
  word64, length, take, length-take, Bool-cases, inl, inr, leb, get_elem?, Result, ok, arith,
}
use dlmdb.Counted.{Node, Page, leaf_entry_contribution, leaf_prefix_contribution}
use dlmdb.Counted.Sums.{sum, sum_loop_lem, sum_ones, sum-take_le, holds_entries}
use dlmdb.Counted.Rank.{Frame, Cursor, settle, leaf_position, entries_before}
use dlmdb.Counted.Blocks.{
  Entry, leaf_block, leaf_block-Fills, Found, scan-Found, get_elem?-entries_from, length-flat,
}
use dlmdb.Counted.Tree.{walk}
use dlmdb.Counted.Path.{IsPath, Selects, set_ki-IsPath, IsPath-Covers, IsPath-base}

leaf2_weight : (mp : Page) (node : Node) → mp.leaf2 ≡ true → leaf_entry_contribution mp node ≡ 1
unfolding leaf_entry_contribution
leaf2_weight mp node e = rw e refl

leaf2_sum :
    (mp : Page) (nodes : List Node)
    → mp.leaf2 ≡ true
    → sum (leaf_entry_contribution mp) nodes ≡ length nodes
leaf2_sum mp nodes e = sum_ones (leaf_entry_contribution mp) nodes (λ node. leaf2_weight mp node e)

leaf_prefix_contribution-sum :
    (mp : Page) (k : ℕ)
    → holds_entries mp ≡ true
    → k ≤ length mp.nodes
    → sum (leaf_entry_contribution mp) mp.nodes < word64
    → leaf_prefix_contribution mp k ≡ sum (leaf_entry_contribution mp) (take k mp.nodes)
unfolding leaf_prefix_contribution
leaf_prefix_contribution-sum mp k holds le small = ground (
  arith,
  sum_loop_lem (leaf_entry_contribution mp) (take k mp.nodes) 0,
  sum-take_le (leaf_entry_contribution mp) k mp.nodes,
  length-take k mp.nodes,
  leaf2_sum mp (take k mp.nodes),
)

-- On a page of fixed-size keys the index is what remains.
leaf2_index :
    (mp : Page) (remaining : ℕ)
    → mp.leaf2 ≡ true
    → (fo : Found (leaf_block mp) (leaf_entry_contribution mp) 0 mp.nodes remaining)
    → (fo.k ≡ remaining) × (fo.rest ≡ 0)
leaf2_index mp remaining e fo =
    let w = leaf2_weight mp fo.node e in
    let s = leaf2_sum mp (take fo.k mp.nodes) e in
    let l = get_elem?-lt mp.nodes fo.k fo.node fo.nth in
    (
      omega (arith, w, s, l, fo.before, fo.splits, fo.within, length-take fo.k mp.nodes),
      omega (arith, w, fo.within),
    )

leaf_position-Found :
    (mc : Cursor) (mp : Page) (rank remaining : ℕ)
    → holds_entries mp ≡ true
    → (fo : Found (leaf_block mp) (leaf_entry_contribution mp) 0 mp.nodes remaining)
    → leaf_position mc mp rank remaining ≡ (settle mc rank fo.k fo.rest, ok fo.rest)
unfolding leaf_position
leaf_position-Found mc mp rank remaining holds fo = elim (Bool-cases mp.leaf2) [
  | inl is ↦
      let at = leaf2_index mp remaining is fo in
      let short : leb (length mp.nodes) remaining ≡ false =
        ground (arith, get_elem?-lt mp.nodes fo.k fo.node fo.nth) in
      rw (is, short) (ap₂ (λ k r. (settle mc rank k r, ok r)) (sym at.0) (sym at.1))
  | inr isnt ↦
      let is_leaf : mp.leaf ≡ true = ground arith in
      rw (isnt, is_leaf, fo.finds) (ap (λ k. (settle mc rank k fo.rest, ok fo.rest)) (omega arith))
]

module _ (page_get : ℕ → Result Page) (root : Page) (height : ℕ) where
  abbrev entries : List Entry
  entries = walk page_get height root

  pub leaf-Selects :
      (mc : Cursor) (f : Frame) (fs : List Frame) (rank remaining : ℕ)
      → IsPath page_get root height 0 f fs
      → f.rank_base + remaining ≡ rank
      → remaining < length (walk page_get 0 f.page)
      → length entries < word64
      → Selects page_get root height rank mc
          (leaf_position (record mc { frames = f ∷ fs }) f.page rank remaining)
  leaf-Selects mc f fs rank remaining path e less small =
      let mp = f.page in
      let weight = leaf_entry_contribution mp in
      let c = IsPath-Covers page_get root height 0 f fs path in
      let fills = leaf_block-Fills mp mp.nodes in
      let fo = scan-Found (leaf_block mp) weight 0 mp.nodes remaining fills less in
      record {
        leaf = record f { ki = fo.k };
        below = fs;
        offset = fo.rest;
        returns =
            leaf_position-Found (record mc { frames = f ∷ fs }) mp rank remaining c.counts.1 fo;
        at = record {
          path = set_ki-IsPath page_get root height 0 fo.k f fs path;
          entry =
              ap (get_elem? entries) (sym e)
              ∙ c.agrees remaining less
              ∙ ap (get_elem? (walk page_get 0 mp)) fo.splits
              ∙ fo.agrees fo.rest fo.within
              ∙ get_elem?-entries_from mp.pgno (0 + fo.k) 0 (weight fo.node) fo.rest fo.within
              ∙ ap₂ (λ k o. some (record { pgno = mp.pgno; index = k; offset = o })) (omega arith)
                  (omega arith);
          ranked =
              unfold entries_before in
              let total = length-flat (leaf_block mp) weight 0 mp.nodes fills in
              let prefix =
                leaf_prefix_contribution-sum mp fo.k c.counts.1
                  (omega (arith, get_elem?-lt mp.nodes fo.k fo.node fo.nth))
                  (omega (arith, total, c.fits, small)) in
              omega (
                arith,
                prefix,
                fo.before,
                fo.splits,
                e,
                IsPath-base page_get root height 0 f fs path,
                c.fits,
                less,
                small,
              );
        };
      }
