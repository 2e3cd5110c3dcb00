-- ===== src/Counted/Tree.antt =====
-- Counted trees as the sequence of the entries that they hold. A tree of height 0 is one leaf page; the
-- counts of a branch page are right if each is the number of entries of the tree under it.
use dlmdb.Base.{
  ℕ, zero, suc, ◌<◌, ◌≡◌, refl, sym, ap, ◌∙◌, List, [], ◌∷◌, some, true, false, word64, length,
  get_elem?, All, Result, ok, err, arith,
}
use mathlib.Core.Option.{some-injective}
use mathlib.Core.Path.{subst}
use dlmdb.Counted.{Node, Page, node_get_count, leaf_entry_contribution, page_subtree_count}
use dlmdb.Counted.Sums.{holds_entries, page_subtree_count-leaf, page_subtree_count-branch}
use dlmdb.Counted.Blocks.{Entry, flat, leaf_block, Fills, leaf_block-Fills, length-flat}

pub All-get_elem? :
    (P : Node → Type 0) (nodes : List Node) (k : ℕ) (node : Node)
    → All P nodes
    → get_elem? nodes k ≡ some node
    → P node
All-get_elem? P [] k node all e = cc
All-get_elem? P (n ∷ nodes) zero node (p, all) e = subst P (some-injective n node e) p
All-get_elem? P (n ∷ nodes) (suc k) node (p, all) e = All-get_elem? P nodes k node all e

module _ (page_get : ℕ → Result Page) where
  -- The entries under a page, in the order of the keys.
  abbrev pub walk : ℕ → Page → List Entry
  walk zero mp = flat (leaf_block mp) 0 mp.nodes
  walk (suc h) mp =
      flat (λ i node. elim (page_get node.pgno) [ err e ↦ [] | ok child ↦ walk h child ]) 0 mp.nodes

  abbrev pub IsCounted : ℕ → Page → Type 0
  IsCounted zero mp = (mp.branch ≡ false) × (holds_entries mp ≡ true)
  IsCounted (suc h) mp =
      (mp.branch ≡ true)
      × (mp.counted ≡ true)
      × (holds_entries mp ≡ false)
      × All
          (λ node.
            (child : Page) × (page_get node.pgno ≡ ok child)
            × (node.tally ≡ length (walk h child))
            × IsCounted h child)
          mp.nodes

  -- The entries under a node of a branch page.
  abbrev pub child_block : ℕ → ℕ → Node → List Entry
  child_block h i node = elim (page_get node.pgno) [ err e ↦ [] | ok child ↦ walk h child ]

All-map :
    {P Q : Node → Type 0} (nodes : List Node)
    → ((node : Node) → P node → Q node)
    → All P nodes
    → All Q nodes
All-map [] f all = tt
All-map (node ∷ nodes) f (p, all) = (f node p, All-map nodes f all)

module _ (page_get : ℕ → Result Page) where
  pub child_block-walk :
      (h i : ℕ) (node : Node) (child : Page)
      → page_get node.pgno ≡ ok child
      → child_block page_get h i node ≡ walk page_get h child
  child_block-walk h i node child e =
      ap (λ r. elim r [ err e ↦ [] | ok child ↦ walk page_get h child ]) e

  child_block-Fills :
      (h i : ℕ) (mp : Page) (node : Node) (child : Page)
      → mp.branch ≡ true
      → mp.counted ≡ true
      → page_get node.pgno ≡ ok child
      → node.tally ≡ length (walk page_get h child)
      → length (child_block page_get h i node) ≡ node_get_count mp node
  child_block-Fills h i mp node child b c e t =
      ap length (child_block-walk h i node child e) ∙ sym t ∙ rw (b, c) refl

  pub children-Fills :
      (h : ℕ) (mp : Page)
      → IsCounted page_get (suc h) mp
      → All (Fills (child_block page_get h) (node_get_count mp)) mp.nodes
  children-Fills h mp (b, c, _, all) =
      All-map mp.nodes (λ node p. λ i. child_block-Fills h i mp node p.0 b c p.1 p.2) all

  -- `mdb_page_subtree_count` of a page whose counts are right is the number of entries under it, where they
  -- are fewer than 2^64.
  pub page_subtree_count-walk :
      (h : ℕ) (mp : Page)
      → IsCounted page_get h mp
      → length (walk page_get h mp) < word64
      → page_subtree_count mp ≡ length (walk page_get h mp)
  page_subtree_count-walk zero mp (_, holds) small =
      let total =
        length-flat (leaf_block mp) (leaf_entry_contribution mp) 0 mp.nodes
          (leaf_block-Fills mp mp.nodes) in
      page_subtree_count-leaf mp holds (omega (arith, total, small)) ∙ sym total
  page_subtree_count-walk (suc h) mp c small =
      let total =
        length-flat (child_block page_get h) (node_get_count mp) 0 mp.nodes
          (children-Fills h mp c) in
      page_subtree_count-branch mp c.2 (rw (c.0, c.1) refl) (omega (arith, total, small))
      ∙ sym total
