-- ===== src/Counted/Update/Tallied.antt =====
-- `mdb_adjust_counted_parents` keeps the counts on the cursor's path right.
use mathlib.Core.Path.{subst}
use dlmdb.Base.{
  ℕ, ◌+◌, ◌<◌, ◌≤◌, ◌≡◌, refl, sym, ap, ◌∙◌, inl, inr, List, [], ◌∷◌, map, some, true, false, ◌&&◌,
  ◌||◌, not, get_elem?, get_elem?-lt, get_elem?-set_self, All, arith, ℤ, ◌+ℤ◌, is_zero, int64,
  clamp, Bool-cases,
}
use dlmdb.Counted.{Node, Page, node_get_count, node_set_count, page_subtree_count}
use dlmdb.Counted.Sums.{sum, holds_entries, page_subtree_count-branch}
use dlmdb.Counted.Rank.{Frame}
use dlmdb.Counted.Update.{set_count, propagate_frame, propagate_count_delta}
use dlmdb.Counted.Update.Shifts.{
  Shifts, grow, int64_end, clamp-Shifts, Shifts-le, Shifts-zero, sum-set, Shifts-sum, Shifts-cong,
  get_count-set_count, sum-le,
}

-- The node of a counted branch page at the cursor's index is the one of the page above, with its count.
pub record Links (above : Page) (f : Frame) : Type 0 where
  pub node : Node
  pub nth : get_elem? f.page.nodes f.ki ≡ some node
  pub same_page : node.pgno ≡ above.pgno
  pub tallied : node.tally ≡ page_subtree_count above
  pub branch : f.page.branch ≡ true
  pub counted : f.page.counted ≡ true
  pub no_entries : holds_entries f.page ≡ false

-- The counts on the path down from a page.
abbrev pub IsTallied : Page → List Frame → Type 0
IsTallied above [] = Unit
IsTallied above (f ∷ fs) = Links above f × IsTallied f.page fs

-- Room for `extra` more in the counts of a page.
abbrev pub HasRoom : ℕ → Frame → Type 0
HasRoom extra f = sum (node_get_count f.page) f.page.nodes + extra < int64_end

pub Links-counts :
    (above : Page) (f : Frame) (l : Links above f) → f.page.branch && f.page.counted ≡ true
Links-counts above f l = rw (l.branch, l.counted) refl

pub Links-count :
    (above : Page) (f : Frame) (l : Links above f)
    → node_get_count f.page l.node ≡ page_subtree_count above
Links-count above f l = rw (l.branch, l.counted) l.tallied

set_pgno :
    (page : Page) (node : Node) (value : ℕ) → (node_set_count page node value).pgno ≡ node.pgno
set_pgno page node value = ground arith

set_tally :
    (page : Page) (node : Node) (value : ℕ)
    → page.branch && page.counted ≡ true
    → (node_set_count page node value).tally ≡ value
set_tally page node value e = rw e refl

-- The count of the linked node set to that of the page above, which has changed.
pub relink :
    (above above' : Page) (f : Frame) (value : ℕ) (l : Links above f)
    → above'.pgno ≡ above.pgno
    → value ≡ page_subtree_count above'
    → Links above' (record f { page = set_count f.page f.ki l.node value })
relink above above' f value l e counts = record {
  node = node_set_count f.page l.node value;
  nth =
      get_elem?-set_self f.page.nodes f.ki (node_set_count f.page l.node value)
        (get_elem?-lt f.page.nodes f.ki l.node l.nth);
  same_page = set_pgno f.page l.node value ∙ l.same_page ∙ sym e;
  tallied = set_tally f.page l.node value (Links-counts above f l) ∙ counts;
  branch = l.branch;
  counted = l.counted;
  no_entries = l.no_entries;
}

pub set_count-Shifts :
    (above : Page) (f : Frame) (delta : ℤ) (value extra : ℕ) (l : Links above f)
    → Shifts delta (page_subtree_count above) value
    → grow delta ≤ extra
    → HasRoom extra f
    → Shifts delta
        (page_subtree_count f.page)
        (page_subtree_count (set_count f.page f.ki l.node value))
set_count-Shifts above f delta value extra l e le room =
    let page' = set_count f.page f.ki l.node value in
    let weight = node_get_count f.page in
    let on = Links-counts above f l in
    let old = Links-count above f l in
    let new = get_count-set_count f.page l.node value on in
    let moved =
      sum-set weight f.page.nodes f.ki l.node (node_set_count f.page l.node value) l.nth in
    let grows = Shifts-le delta (page_subtree_count above) value e in
    let before = page_subtree_count-branch f.page l.no_entries on (omega (arith, room)) in
    let after =
      page_subtree_count-branch page' l.no_entries on
        (omega (arith, room, moved, old, new, grows, le)) in
    Shifts-cong delta _ _ _ _
      (Shifts-sum delta (page_subtree_count above) value (sum weight page'.nodes)
        (sum weight f.page.nodes) e (omega (arith, moved, old, new)))
      before after

pub IsTallied-cong :
    (above above' : Page) (fs : List Frame)
    → above'.pgno ≡ above.pgno
    → page_subtree_count above' ≡ page_subtree_count above
    → IsTallied above fs
    → IsTallied above' fs
IsTallied-cong above above' [] e counts t = tt
IsTallied-cong above above' (f ∷ fs) e counts (l, t) = (
  record {
    node = l.node;
    nth = l.nth;
    same_page = l.same_page ∙ sym e;
    tallied = l.tallied ∙ sym counts;
    branch = l.branch;
    counted = l.counted;
    no_entries = l.no_entries;
  },
  t,
)

pub Links-lt :
    (above : Page) (f : Frame) (extra : ℕ)
    → Links above f
    → HasRoom extra f
    → page_subtree_count above + extra < int64_end
Links-lt above f extra l room = omega (
  arith,
  room,
  sum-le (node_get_count f.page) f.page.nodes f.ki l.node l.nth,
  Links-count above f l,
)

propagate_frame-Links :
    (above : Page) (f : Frame) (delta : ℤ) (value : ℕ) (l : Links above f)
    → clamp (int64 (page_subtree_count above) +ℤ delta) ≡ value
    → propagate_frame delta f ≡ record f { page = set_count f.page f.ki l.node value }
propagate_frame-Links above f delta value l e =
    let on : (not f.page.branch || not f.page.counted) ≡ false = rw (l.branch, l.counted) refl in
    let value_is : clamp (int64 (node_get_count f.page l.node) +ℤ delta) ≡ value =
      ap (λ c. clamp (int64 c +ℤ delta)) (Links-count above f l) ∙ e in
    simp (on, l.nth) (ap (λ v. record f { page = set_count f.page f.ki l.node v }) value_is)

propagate-IsTallied :
    (delta : ℤ) (extra : ℕ) (above above' : Page) (fs : List Frame)
    → above'.pgno ≡ above.pgno
    → IsTallied above fs
    → Shifts delta (page_subtree_count above) (page_subtree_count above')
    → grow delta ≤ extra
    → All (HasRoom extra) fs
    → IsTallied above' (map (propagate_frame delta) fs)
propagate-IsTallied delta extra above above' [] e t s le rooms = tt
propagate-IsTallied delta extra above above' (f ∷ fs) e (l, t) s le (room, rooms) =
    let value = page_subtree_count above' in
    let fits = Links-lt above f extra l room in
    let moved =
      clamp-Shifts delta (page_subtree_count above) value s (omega (arith, fits))
        (omega (arith, fits, le, Shifts-le delta (page_subtree_count above) value s)) in
    subst (λ g. IsTallied above' (g ∷ map (propagate_frame delta) fs))
      (sym (propagate_frame-Links above f delta value l moved))
      (
        relink above above' f value l e refl,
        propagate-IsTallied delta extra f.page (set_count f.page f.ki l.node value) fs refl t
            (set_count-Shifts above f delta value extra l s le room) le rooms,
      )

-- Where the counts of a path are right for a page, and the page is replaced by one with its number whose
-- count differs by `delta`, `mdb_propagate_count_delta_path` makes the counts right for the new page, if
-- the counts of each page of the path have room for the growth below 2^63.
pub propagate_count_delta-IsTallied :
    (delta : ℤ) (extra : ℕ) (above above' : Page) (fs : List Frame)
    → above'.pgno ≡ above.pgno
    → IsTallied above fs
    → Shifts delta (page_subtree_count above) (page_subtree_count above')
    → grow delta ≤ extra
    → All (HasRoom extra) fs
    → IsTallied above' (propagate_count_delta delta fs)
unfolding propagate_count_delta
propagate_count_delta-IsTallied delta extra above above' fs e t s le rooms =
    elim (Bool-cases (is_zero delta)) [
      | inl z ↦ rw z (
          IsTallied-cong above above' fs e
            (Shifts-zero delta (page_subtree_count above) (page_subtree_count above') s z) t)
      | inr nz ↦ rw nz (propagate-IsTallied delta extra above above' fs e t s le rooms)
    ]
