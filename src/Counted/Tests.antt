-- ===== src/Counted/Tests.antt =====
-- The counting functions on a small tree: a root with two leaf pages, whose second node has a sub-database
-- of three duplicates.
use dlmdb.Base.{
  none, ◌+◌, ◌≤◌, All, pos, inr, ℕ, ◌<◌, ◌≡◌, refl, List, [], ◌∷◌, true, false, ◌==◌, if◌then◌else◌,
  Result, ok, err, not_found, arith, length, word64,
}
use dlmdb.Counted.{
  Node, Page, page_subtree_count, leaf_contribution, sum_loop, leaf_entry_contribution,
}
use dlmdb.Counted.Rank.{
  Frame, Cursor, rank_search, get_rank, rank_descend, descend_loop, branch_step, scan,
  leaf_position, root_frames, page_search_root,
}
use dlmdb.Counted.Tree.{walk, IsCounted}
use dlmdb.Counted.Path.{Selects}
use dlmdb.Counted.Search.{restarted, IsReady, rank_search-Selects}
use dlmdb.Counted.Resume.{Positions}
use dlmdb.Counted.Update.{propagate_count_delta, adjust_counted_parents}
use dlmdb.Counted.Update.Tallied.{IsTallied, HasRoom, propagate_count_delta-IsTallied}
use dlmdb.Counted.Update.Adjust.{adjust_counted_parents-IsTallied}
use dlmdb.Counted.GetRank.{IsValid, get_rank-Positions, get_rank-IsValid}

abbrev plain : Node
plain = record {
  pgno = 0;
  tally = 0;
  dupdata = false;
  subdata = false;
  sub_entries = 0;
  sub_keys = 0;
}

abbrev with_dups : Node
with_dups = record {
  pgno = 0;
  tally = 0;
  dupdata = true;
  subdata = true;
  sub_entries = 3;
  sub_keys = 0;
}

abbrev leaf_of : ℕ → List Node → Page
leaf_of pgno nodes = record {
  pgno = pgno;
  branch = false;
  leaf = true;
  leaf2 = false;
  subp = false;
  counted = false;
  nodes = nodes;
}

abbrev first : Page
first = leaf_of 10 (plain ∷ with_dups ∷ [])

abbrev second : Page
second = leaf_of 11 (plain ∷ [])

abbrev child : ℕ → ℕ → Node
child pgno tally = record {
  pgno = pgno;
  tally = tally;
  dupdata = false;
  subdata = false;
  sub_entries = 0;
  sub_keys = 0;
}

abbrev top : Page
top = record {
  pgno = 5;
  branch = true;
  leaf = false;
  leaf2 = false;
  subp = false;
  counted = true;
  nodes = child 10 4 ∷ child 11 1 ∷ [];
}

abbrev store : ℕ → Result Page
store pgno =
    if pgno == 5
    then ok top
    else if pgno == 10
    then ok first
    else if pgno == 11
    then ok second
    else err not_found

abbrev fresh_cursor : Cursor
fresh_cursor = record {
  frames = [];
  first = none;
  initialized = false;
  eof = false;
  del = false;
  rank_valid = false;
  rank_cached = 0;
  rank_offset = 0;
  entries = 5;
  root = 5;
  counted = true;
  blocked = false;
  txn_error = false;
}

top-IsCounted : IsCounted store 1 top
unfolding leaf_entry_contribution
top-IsCounted = (
  refl,
  refl,
  refl,
  ((first, refl, refl, (refl, refl)), ((second, refl, refl, (refl, refl)), tt)),
)

fresh-IsReady : IsReady store top 1 fresh_cursor
unfolding leaf_entry_contribution
fresh-IsReady = record {
  unblocked = refl;
  present = refl;
  got = refl;
  stays = λ f e kept. cc;
  counts = refl;
}

fresh-IsValid : IsValid store top 1 fresh_cursor
fresh-IsValid = record { ready = fresh-IsReady; tracked = λ e _ f fs _. cc }

-- The cursor after a call with rank 2.
abbrev used_cursor : Cursor
used_cursor = record (get_rank store fresh_cursor 2).0 { rank_valid = true }

small : length (walk store 1 top) < word64
unfolding leaf_entry_contribution
small = omega arith

rank_search-Selects_example :
    Selects store top 1 3 (restarted fresh_cursor) (rank_search store fresh_cursor 3)
rank_search-Selects_example =
    rank_search-Selects store top 1 fresh_cursor 3 top-IsCounted (omega arith) small fresh-IsReady
      (omega arith)

get_rank-IsValid_example :
    IsValid store top 1 (record (get_rank store fresh_cursor 2).0 { rank_valid = true })
get_rank-IsValid_example =
    get_rank-IsValid store top 1 fresh_cursor 2 top-IsCounted (omega arith) small fresh-IsValid refl
      (omega arith)

-- It goes on to the other leaf page from there.
get_rank-Positions_example : Positions store top 1 4 used_cursor (get_rank store used_cursor 4)
unfolding get_rank rank_search rank_descend descend_loop branch_step scan leaf_position root_frames
    page_search_root leaf_entry_contribution
get_rank-Positions_example =
    get_rank-Positions store top 1 used_cursor 4 top-IsCounted (omega arith) small
      (get_rank-IsValid store top 1 fresh_cursor 2 top-IsCounted (omega arith) small fresh-IsValid
        refl (omega arith))
      refl (omega arith)

-- A key put into the first leaf page, before the counts are brought up to date.
abbrev grown : Page
grown = leaf_of 10 (plain ∷ with_dups ∷ plain ∷ [])

abbrev above_first : List Frame
above_first = record { page = top; ki = 0; rank_base = 0 } ∷ []

first-IsTallied : IsTallied first above_first
unfolding page_subtree_count leaf_contribution sum_loop leaf_entry_contribution
first-IsTallied = (
  record {
    node = child 10 4;
    nth = refl;
    same_page = refl;
    tallied = refl;
    branch = refl;
    counted = refl;
    no_entries = refl;
  },
  tt,
)

one_more : page_subtree_count grown ≡ page_subtree_count first + 1
unfolding page_subtree_count leaf_contribution sum_loop leaf_entry_contribution
one_more = refl

room : All (HasRoom (page_subtree_count grown)) above_first
unfolding page_subtree_count leaf_contribution sum_loop leaf_entry_contribution
room = (omega arith, tt)

adjust_counted_parents-IsTallied_example :
    IsTallied grown (adjust_counted_parents true grown false (pos 1) above_first)
adjust_counted_parents-IsTallied_example =
    adjust_counted_parents-IsTallied first grown false (pos 1) above_first refl first-IsTallied
      (inr one_more) room

one-le : 1 ≤ page_subtree_count grown
unfolding page_subtree_count leaf_contribution sum_loop leaf_entry_contribution
one-le = omega arith

propagate_count_delta-IsTallied_example :
    IsTallied grown (propagate_count_delta (pos 1) above_first)
propagate_count_delta-IsTallied_example =
    propagate_count_delta-IsTallied (pos 1) (page_subtree_count grown) first grown above_first refl
      first-IsTallied one_more one-le room
