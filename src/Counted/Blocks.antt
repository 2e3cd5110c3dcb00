-- ===== src/Counted/Blocks.antt =====
-- The entries that the nodes of a page stand for, and where a scan of the counts of the nodes stops.
use dlmdb.Base.{
  ℕ, zero, suc, ◌+◌, ◌-◌, ◌<◌, ◌≤◌, ◌≡◌, refl, ap, ◌∙◌, List, [], ◌∷◌, ◌++◌, some, length, take,
  get_elem?, All, dec_lt, length-append, arith,
}
use dlmdb.Counted.{Node, Page, leaf_entry_contribution}
use dlmdb.Counted.Sums.{sum}
use dlmdb.Counted.Rank.{scan}

-- The `offset`th duplicate of node `index` of the leaf page `pgno`.
pub record Entry : Type 0 where
  pub pgno : ℕ
  pub index : ℕ
  pub offset : ℕ

abbrev pub entries_from : ℕ → ℕ → ℕ → ℕ → List Entry
entries_from pgno index offset zero = []
entries_from pgno index offset (suc n) =
    record { pgno = pgno; index = index; offset = offset } ∷ entries_from pgno index (suc offset) n

-- The entries of each node, in order.
abbrev pub flat : (ℕ → Node → List Entry) → ℕ → List Node → List Entry
flat block i [] = []
flat block i (node ∷ nodes) = block i node ++ flat block (suc i) nodes

abbrev pub leaf_block : Page → ℕ → Node → List Entry
leaf_block mp i node = entries_from mp.pgno i 0 (leaf_entry_contribution mp node)

length-entries_from : (pgno index offset n : ℕ) → length (entries_from pgno index offset n) ≡ n
length-entries_from pgno index offset zero = refl
length-entries_from pgno index offset (suc n) =
    ap suc (length-entries_from pgno index (suc offset) n)

pub get_elem?-entries_from :
    (pgno index offset n x : ℕ)
    → x < n
    → get_elem? (entries_from pgno index offset n) x
      ≡ some (record { pgno = pgno; index = index; offset = offset + x })
get_elem?-entries_from pgno index offset zero x h = elim h [ ]
get_elem?-entries_from pgno index offset (suc n) zero h =
    ap (λ o. some (record { pgno = pgno; index = index; offset = o })) (omega arith)
get_elem?-entries_from pgno index offset (suc n) (suc x) h =
    get_elem?-entries_from pgno index (suc offset) n x (omega arith)
    ∙ ap (λ o. some (record { pgno = pgno; index = index; offset = o })) (omega arith)

-- Blocks as long as the weights of their nodes.
abbrev pub Fills : (ℕ → Node → List Entry) → (Node → ℕ) → Node → Type 0
Fills block weight node = (i : ℕ) → length (block i node) ≡ weight node

pub leaf_block-Fills :
    (mp : Page) (nodes : List Node) → All (Fills (leaf_block mp) (leaf_entry_contribution mp)) nodes
leaf_block-Fills mp [] = tt
leaf_block-Fills mp (node ∷ nodes) = (
  (λ i. length-entries_from mp.pgno i 0 (leaf_entry_contribution mp node)),
  leaf_block-Fills mp nodes,
)

pub length-flat :
    (block : ℕ → Node → List Entry) (weight : Node → ℕ) (i : ℕ) (nodes : List Node)
    → All (Fills block weight) nodes
    → length (flat block i nodes) ≡ sum weight nodes
length-flat block weight i [] fills = refl
length-flat block weight i (node ∷ nodes) (fills, more) = omega (
  arith,
  length-append (block i node) (flat block (suc i) nodes),
  fills i,
  length-flat block weight (suc i) nodes more,
)

get_elem?-append_left :
    {A : Type 0} (xs ys : List A) (n x : ℕ)
    → n ≡ x
    → x < length xs
    → get_elem? (xs ++ ys) n ≡ get_elem? xs x
get_elem?-append_left [] ys n x e h = elim h [ ]
get_elem?-append_left (a ∷ xs) ys zero zero e h = refl
get_elem?-append_left (a ∷ xs) ys zero (suc x) e h = absurd (omega arith)
get_elem?-append_left (a ∷ xs) ys (suc n) zero e h = absurd (omega arith)
get_elem?-append_left (a ∷ xs) ys (suc n) (suc x) e h =
    get_elem?-append_left xs ys n x (omega arith) (omega arith)

get_elem?-append_right :
    {A : Type 0} (xs ys : List A) (n x : ℕ)
    → n ≡ length xs + x
    → get_elem? (xs ++ ys) n ≡ get_elem? ys x
get_elem?-append_right [] ys n x e = ap (get_elem? ys) (omega (arith, e))
get_elem?-append_right (a ∷ xs) ys zero x e = absurd (omega arith)
get_elem?-append_right (a ∷ xs) ys (suc n) x e = get_elem?-append_right xs ys n x (omega arith)

-- What `scan` finds: node `k` of the list, with its block at `start` in the sequence.
pub record Found (block : ℕ → Node → List Entry) (weight : Node → ℕ) (i : ℕ) (nodes : List Node)
    (remaining : ℕ) : Type 0 where
  pub k : ℕ
  pub node : Node
  pub start : ℕ
  pub rest : ℕ
  pub finds : scan weight nodes i remaining ≡ some (i + k, node, rest)
  pub nth : get_elem? nodes k ≡ some node
  pub splits : remaining ≡ start + rest
  pub within : rest < weight node
  pub before : sum weight (take k nodes) ≡ start
  pub fits : start + weight node ≤ length (flat block i nodes)
  pub agrees :
      (x : ℕ)
      → x < weight node
      → get_elem? (flat block i nodes) (start + x) ≡ get_elem? (block (i + k) node) x

pub scan-Found :
    (block : ℕ → Node → List Entry) (weight : Node → ℕ) (i : ℕ) (nodes : List Node) (remaining : ℕ)
    → All (Fills block weight) nodes
    → remaining < length (flat block i nodes)
    → Found block weight i nodes remaining
unfolding scan
scan-Found block weight i [] remaining fills less = elim less [ ]
scan-Found block weight i (node ∷ nodes) remaining (fills, more) less =
    let joined = length-append (block i node) (flat block (suc i) nodes) in
    elim (dec_lt remaining (weight node)) [
      | yes here ↦ record {
        k = 0;
        node = node;
        start = 0;
        rest = remaining;
        finds = ground arith;
        nth = refl;
        splits = omega arith;
        within = here;
        before = refl;
        fits = omega (arith, joined, fills i);
        agrees = λ x h.
            get_elem?-append_left (block i node) (flat block (suc i) nodes) (0 + x) x (omega arith)
              (omega (arith, fills i))
            ∙ ap (λ j. get_elem? (block j node) x) (omega arith);
      }
      | no there ↦
          let f =
            scan-Found block weight (suc i) nodes (remaining - weight node) more
              (omega (arith, joined, fills i)) in
          record {
            k = suc f.k;
            node = f.node;
            start = weight node + f.start;
            rest = f.rest;
            finds = ground (arith, f.finds);
            nth = f.nth;
            splits = omega (arith, f.splits);
            within = f.within;
            before = omega (arith, f.before);
            fits = omega (arith, joined, fills i, f.fits);
            agrees = λ x h.
                get_elem?-append_right (block i node) (flat block (suc i) nodes)
                  (weight node + f.start + x) (f.start + x) (omega (arith, fills i))
                ∙ f.agrees x h
                ∙ ap (λ j. get_elem? (block j f.node) x) (omega arith);
          }
    ]
