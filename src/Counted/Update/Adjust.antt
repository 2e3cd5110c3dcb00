-- ===== src/Counted/Update/Adjust.antt =====
-- `mdb_adjust_counted_parents` keeps the counts on the cursor's path right.
use mathlib.Core.Path.{subst}
use dlmdb.Base.{
  ℕ, ◌≡◌, refl, sym, ap, ap₂, ◌∙◌, ◌⊎◌, inl, inr, List, [], ◌∷◌, some, none, Bool, true, false,
  ◌&&◌, not, if◌then◌else◌, ◌==◌, ==_iff, eq→==, All, arith, ℤ, ◌+ℤ◌, is_zero, int64, clamp,
  Bool-cases,
}
use dlmdb.Counted.{Node, Page, node_get_count, page_subtree_count}
use dlmdb.Counted.Rank.{Frame}
use dlmdb.Counted.Update.{
  count_diff, set_count, propagate_count_delta, slot, adjust_slot, unmatched,
  adjust_counted_parents,
}
use dlmdb.Counted.Update.Shifts.{
  Shifts, clamp-Shifts, count_diff-Shifts, Shifts-grow, Shifts-zero, Shifts-same,
}
use dlmdb.Counted.Update.Tallied.{
  Links, IsTallied, HasRoom, Links-counts, Links-count, Links-lt, relink, set_count-Shifts,
  IsTallied-cong, propagate_count_delta-IsTallied,
}

slot-Links :
    (leaf leaf' : Page) (f : Frame) (l : Links leaf f)
    → leaf'.pgno ≡ leaf.pgno
    → slot f leaf' ≡ some l.node
slot-Links leaf leaf' f l e =
    let same : (l.node.pgno == leaf'.pgno) ≡ true =
      eq→== l.node.pgno leaf'.pgno (l.same_page ∙ sym e) in
    simp (Links-counts leaf f l, l.nth, same) refl

-- What `mdb_adjust_counted_parents` makes of the parent and the rest, where it does not return early.
abbrev moved : ℕ → ℕ → Frame → List Frame → Node → List Frame
moved after before parent below node =
    (if after == before
      then parent
      else record parent { page = set_count parent.page parent.ki node after })
    ∷ propagate_count_delta (count_diff after before) below

adjust_slot-moved :
    (leaf : Page) (split_performed : Bool) (delta : ℤ) (parent : Frame) (below : List Frame)
    (node : Node)
    → (not split_performed && is_zero delta) ≡ false
    → adjust_slot leaf split_performed delta parent below node
      ≡ moved
          (if split_performed
            then page_subtree_count leaf
            else clamp (int64 (node_get_count parent.page node) +ℤ delta))
          (node_get_count parent.page node)
          parent
          below
          node
unfolding adjust_slot
adjust_slot-moved leaf split_performed delta parent below node e = rw e refl

adjust_slot-early :
    (leaf : Page) (split_performed : Bool) (delta : ℤ) (parent : Frame) (below : List Frame)
    (node : Node)
    → (not split_performed && is_zero delta) ≡ true
    → adjust_slot leaf split_performed delta parent below node ≡ parent ∷ below
unfolding adjust_slot
adjust_slot-early leaf split_performed delta parent below node e = rw e refl

moved-IsTallied :
    (leaf leaf' : Page) (parent : Frame) (below : List Frame) (l : Links leaf parent)
    → leaf'.pgno ≡ leaf.pgno
    → IsTallied parent.page below
    → HasRoom (page_subtree_count leaf') parent
    → All (HasRoom (page_subtree_count leaf')) below
    → IsTallied leaf'
        (moved (page_subtree_count leaf') (page_subtree_count leaf) parent below l.node)
moved-IsTallied leaf leaf' parent below l e t room rooms =
    let after = page_subtree_count leaf' in
    let before = page_subtree_count leaf in
    let fits = Links-lt leaf parent after l room in
    let shift = count_diff-Shifts before after (omega (arith, fits)) (omega (arith, fits)) in
    let grows = Shifts-grow (count_diff after before) before after shift in
    elim (Bool-cases (after == before)) [
      | inl same ↦
          let eq : after ≡ before = (==_iff after before).0 same in
          let stay =
            Shifts-same (count_diff after before) before (page_subtree_count parent.page)
              (subst (Shifts (count_diff after before) before) eq shift) in
          rw same (
            IsTallied-cong leaf leaf'
              (parent ∷ propagate_count_delta (count_diff after before) below) e eq
              (
                l,
                propagate_count_delta-IsTallied (count_diff after before) after parent.page
                    parent.page below refl t stay grows rooms,
              ))
      | inr other ↦ rw other (
        relink leaf leaf' parent after l e refl,
        propagate_count_delta-IsTallied (count_diff after before) after parent.page
            (set_count parent.page parent.ki l.node after) below refl t
            (set_count-Shifts leaf parent (count_diff after before) after after l shift grows room)
            grows rooms,
      )
    ]

after_is :
    (leaf leaf' : Page) (split_performed : Bool) (delta : ℤ) (parent : Frame)
    (l : Links leaf parent)
    → (split_performed ≡ true) ⊎ Shifts delta (page_subtree_count leaf) (page_subtree_count leaf')
    → HasRoom (page_subtree_count leaf') parent
    → (if split_performed
        then page_subtree_count leaf'
        else clamp (int64 (node_get_count parent.page l.node) +ℤ delta))
      ≡ page_subtree_count leaf'
after_is leaf leaf' true delta parent l change room = refl
after_is leaf leaf' false delta parent l (inl e) room = cc
after_is leaf leaf' false delta parent l (inr s) room =
    let fits = Links-lt leaf parent (page_subtree_count leaf') l room in
    ap (λ c. clamp (int64 c +ℤ delta)) (Links-count leaf parent l)
    ∙ clamp-Shifts delta (page_subtree_count leaf) (page_subtree_count leaf') s
        (omega (arith, fits)) (omega (arith, fits))

early_count :
    (leaf leaf' : Page) (split_performed : Bool) (delta : ℤ)
    → (split_performed ≡ true) ⊎ Shifts delta (page_subtree_count leaf) (page_subtree_count leaf')
    → (not split_performed && is_zero delta) ≡ true
    → page_subtree_count leaf' ≡ page_subtree_count leaf
early_count leaf leaf' true delta change e = cc
early_count leaf leaf' false delta (inl split) e = cc
early_count leaf leaf' false delta (inr s) e =
    Shifts-zero delta (page_subtree_count leaf) (page_subtree_count leaf') s e

adjust_slot-IsTallied :
    (leaf leaf' : Page) (split_performed : Bool) (delta : ℤ) (parent : Frame) (below : List Frame)
    (l : Links leaf parent)
    → leaf'.pgno ≡ leaf.pgno
    → IsTallied parent.page below
    → (split_performed ≡ true) ⊎ Shifts delta (page_subtree_count leaf) (page_subtree_count leaf')
    → HasRoom (page_subtree_count leaf') parent
    → All (HasRoom (page_subtree_count leaf')) below
    → IsTallied leaf' (adjust_slot leaf' split_performed delta parent below l.node)
adjust_slot-IsTallied leaf leaf' split_performed delta parent below l e t change room rooms =
    elim (Bool-cases (not split_performed && is_zero delta)) [
      | inl early ↦
          subst (IsTallied leaf')
            (sym (adjust_slot-early leaf' split_performed delta parent below l.node early))
            (IsTallied-cong leaf leaf' (parent ∷ below) e
              (early_count leaf leaf' split_performed delta change early) (l, t))
      | inr late ↦
          let after = after_is leaf leaf' split_performed delta parent l change room in
          subst (IsTallied leaf')
            (sym (
              adjust_slot-moved leaf' split_performed delta parent below l.node late
              ∙ ap₂ (λ a b. moved a b parent below l.node) after (Links-count leaf parent l)))
            (moved-IsTallied leaf leaf' parent below l e t room rooms)
    ]

-- Where the counts of a path are right for a leaf page, and the page is replaced by one with its number
-- whose count differs by `value_delta`, or by any amount where a split is flagged, the call makes the counts
-- right for the new page, if the counts of each page of the path have room for its count below 2^63.
pub adjust_counted_parents-IsTallied :
    (leaf leaf' : Page) (split_performed : Bool) (value_delta : ℤ) (frames : List Frame)
    → leaf'.pgno ≡ leaf.pgno
    → IsTallied leaf frames
    → (split_performed ≡ true)
      ⊎ Shifts value_delta (page_subtree_count leaf) (page_subtree_count leaf')
    → All (HasRoom (page_subtree_count leaf')) frames
    → IsTallied leaf' (adjust_counted_parents true leaf' split_performed value_delta frames)
unfolding adjust_counted_parents
adjust_counted_parents-IsTallied leaf leaf' split_performed value_delta [] e t change rooms = tt
adjust_counted_parents-IsTallied leaf leaf' split_performed value_delta (parent ∷ below) e (l, t)
      change (room, rooms) =
    subst
      (λ o. IsTallied leaf' (elim o as (λ _. List Frame) [
        | some node ↦ adjust_slot leaf' split_performed value_delta parent below node
        | none ↦ unmatched leaf' value_delta parent below
      ]))
      (sym (slot-Links leaf leaf' parent l e))
      (adjust_slot-IsTallied leaf leaf' split_performed value_delta parent below l e t change room
        rooms)
