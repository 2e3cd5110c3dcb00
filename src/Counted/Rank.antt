-- ===== src/Counted/Rank.antt =====
-- mdb.c, a cursor moved to the entry with a given rank in a counted tree: `mdb_cursor_rank_search` from
-- the root, and `mdb_cursor_rank_resume` from the lowest page of the cursor's path that has the entry.
use dlmdb.Base.{
  p_invalid, ℕ, zero, suc, ◌+◌, ◌-◌, ◌%◌, List, [], ◌∷◌, Option, none, some, Bool, true, false,
  ◌&&◌, ◌||◌, not, ltb, leb, ◌==◌, if◌then◌else◌, word64, length, take, Result, ok, err, not_found,
  corrupted, incompatible, bad_txn, cursor_full, ◌>>=◌,
}
use dlmdb.Counted.{
  Node, Page, num_keys, node_get_count, sum_loop, leaf_entry_contribution, leaf_prefix_contribution,
  page_subtree_count,
}

-- `CURSOR_STACK`
abbrev pub cursor_stack : ℕ
cursor_stack = 32

-- `mc_pg[i]`, `mc_ki[i]` and `mc_rank_base[i]`
pub record Frame : Type 0 where
  pub page : Page
  pub ki : ℕ
  pub rank_base : ℕ

-- `MDB_cursor`: the frames in use, the top one first, and what the arrays hold at 0 while none is in use;
-- the flags `C_INITIALIZED`, `C_EOF`, `C_DEL` and `C_RANKVALID`; `md_entries`, `md_root` and `MDB_COUNTED` of its database; `MDB_TXN_BLOCKED` and
-- `MDB_TXN_ERROR` of its transaction.
pub record Cursor : Type 0 where
  pub frames : List Frame
  pub first : Option Frame
  pub initialized : Bool
  pub eof : Bool
  pub del : Bool
  pub rank_valid : Bool
  pub rank_cached : ℕ
  pub rank_offset : ℕ
  pub entries : ℕ
  pub root : ℕ
  pub counted : Bool
  pub blocked : Bool
  pub txn_error : Bool

-- `for (i = 0; i < nkeys; ++i) { if (remaining < weight) break; remaining -= weight; }`: the index, the
-- node and what remains, or `none` for `i == nkeys`.
unfoldable pub scan : (Node → ℕ) → List Node → ℕ → ℕ → Option (ℕ × Node × ℕ)
scan weight [] i remaining = none
scan weight (node ∷ nodes) i remaining =
    let rest = scan weight nodes (suc i) (remaining - weight node) in
    if ltb remaining (weight node) then some (i, node, remaining) else rest

-- `mc->mc_ki[mc->mc_top] = i`
abbrev pub set_top : ℕ → List Frame → List Frame
set_top i [] = []
set_top i (f ∷ fs) = record f { ki = i } ∷ fs

abbrev pub settle : Cursor → ℕ → ℕ → ℕ → Cursor
settle mc rank i offset = record mc {
  frames = set_top i mc.frames;
  rank_cached = rank;
  rank_offset = offset;
}

-- The end of `mdb_cursor_rank_descend`, on a page that is no branch.
unfoldable pub leaf_position : Cursor → Page → ℕ → ℕ → Cursor × Result ℕ
unfolding scan
leaf_position mc mp rank remaining =
    if mp.leaf2
    then (if leb (num_keys mp) remaining
        then (mc, err not_found)
        else (settle mc rank remaining 0, ok 0))
    else if not mp.leaf
    then (mc, err corrupted)
    else elim (scan (leaf_entry_contribution mp) mp.nodes 0 remaining) [
      | none ↦ (mc, err not_found)
      | some (i, node, offset) ↦ (settle mc rank i offset, ok offset)
    ]

-- The first frame to be pushed.
abbrev pub bottom : List Frame → Option Frame
bottom [] = none
bottom (f ∷ []) = some f
bottom (f ∷ g ∷ fs) = bottom (g ∷ fs)

-- `mc_pg[0]`, also while `mc_snum` is 0: the array keeps what it held.
abbrev pub page0 : Cursor → Option Frame
page0 mc = elim mc.frames [ [] ↦ mc.first | f ∷ fs ↦ bottom (f ∷ fs) ]

-- The search for `level` and the calls of `mdb_cursor_pop` that go back to it.
unfoldable pub pop_to : ℕ → List Frame → List Frame
pop_to rank [] = []
pop_to rank (f ∷ fs) =
    let below = pop_to rank fs in
    if not (ltb rank f.rank_base) && ltb (rank - f.rank_base) (page_subtree_count f.page)
    then f ∷ fs
    else below

abbrev pub restart : Cursor → List Frame → Cursor
restart mc [] = mc
restart mc (f ∷ fs) = record mc {
  frames = record f { rank_base = 0 } ∷ fs;
  initialized = true;
  eof = false;
  del = false;
}

module _ (page_get : ℕ → Result Page) where
  -- A round of the loop up to `mdb_page_get`: the child and what remains.
  unfoldable pub branch_step : Cursor → Page → ℕ → Cursor × Result (Page × ℕ)
  unfolding scan
  branch_step mc mp remaining =
      if not mp.counted
      then (mc, err incompatible)
      else elim (scan (node_get_count mp) mp.nodes 0 remaining) [
        | none ↦ (mc, err not_found)
        | some (i, node, rest) ↦ (
          record mc { frames = set_top i mc.frames },
          page_get node.pgno >>= λ child. ok (child, rest),
        )
      ]

  -- `while (IS_BRANCH(mp))`, with `room` for as many pages on the stack as `mdb_cursor_push` takes.
  unfoldable pub descend_loop : ℕ → Cursor → Page → ℕ → ℕ → Cursor × Result ℕ
  unfolding branch_step leaf_position
  descend_loop zero mc mp rank remaining =
      if not mp.branch
      then leaf_position mc mp rank remaining
      else let step = branch_step mc mp remaining in
        elim step.1 [
          | err e ↦ (step.0, err e)
          | ok (child, rest) ↦ (record step.0 { txn_error = true }, err cursor_full)
        ]
  descend_loop (suc room) mc mp rank remaining =
      if not mp.branch
      then leaf_position mc mp rank remaining
      else let step = branch_step mc mp remaining in
        elim step.1 [
          | err e ↦ (step.0, err e)
          | ok (child, rest) ↦
              let frame : Frame = record { page = child; ki = 0; rank_base = rank - rest } in
              descend_loop room (record step.0 { frames = frame ∷ step.0.frames }) child rank rest
        ]

  unfoldable pub rank_descend : Cursor → ℕ → Cursor × Result ℕ
  unfolding descend_loop
  rank_descend mc rank = elim mc.frames [
    | [] ↦ (mc, err not_found)
    | f ∷ fs ↦
        if ltb rank f.rank_base
        then (mc, err corrupted)
        else descend_loop (cursor_stack - length mc.frames) mc f.page rank (rank - f.rank_base)
  ]

  -- `mdb_page_search(mc, NULL, MDB_PS_ROOTONLY)`: the frames and, on failure, the code. The interrupt of a
  -- transaction and the reload of a stale record of the database are left out.
  unfoldable pub page_search_root : Cursor → Result (List Frame)
  page_search_root mc =
      if mc.blocked
      then err bad_txn
      else if mc.root == p_invalid
      then err not_found
      else elim (page0 mc) [
        | none ↦ page_get mc.root >>= λ mp. ok (record { page = mp; ki = 0; rank_base = 0 } ∷ [])
        | some f ↦
            if f.page.pgno == mc.root
            then ok (f ∷ [])
            else page_get mc.root >>= λ mp. ok (record f { page = mp } ∷ [])
      ]

  -- The sub-page of a duplicate is the only page of its cursor, and loaded already.
  unfoldable pub root_frames : Cursor → Result (List Frame)
  root_frames mc = elim (page0 mc) [
    | none ↦ page_search_root mc
    | some f ↦ if f.page.subp then ok (f ∷ []) else page_search_root mc
  ]

  unfoldable pub rank_search : Cursor → ℕ → Cursor × Result ℕ
  rank_search mc rank = if leb mc.entries rank then (mc, err not_found) else elim (root_frames mc) [
    | err e ↦ (mc, err e)
    | ok frames ↦ rank_descend (restart mc frames) rank
  ]

  unfoldable pub rank_resume : Cursor → ℕ → Cursor × Result ℕ
  rank_resume mc rank =
      if not mc.initialized || length mc.frames == 0
      then (mc, err not_found)
      else if leb mc.entries rank
      then (mc, err not_found)
      else if rank == mc.rank_cached
      then (mc, ok mc.rank_offset)
      else elim (pop_to rank mc.frames) [
        | [] ↦ (mc, err not_found)
        | f ∷ fs ↦
            rank_descend
              (record mc { frames = f ∷ fs; initialized = true; eof = false; del = false }) rank
      ]

  -- `mdb_cursor_get_rank` up to the label `positioned`.
  unfoldable pub get_rank : Cursor → ℕ → Cursor × Result ℕ
  get_rank mc rank =
      if not mc.counted
      then (mc, err incompatible)
      else if mc.blocked
      then (mc, err bad_txn)
      else if mc.entries == 0 || leb mc.entries rank
      then (mc, err not_found)
      else if mc.rank_valid
          && mc.initialized
          && not (length mc.frames == 0)
          && leb mc.rank_cached rank
      then (let resumed = rank_resume mc rank in
          elim resumed.1 [
            | ok offset ↦ resumed
            | err not_found ↦ rank_search resumed.0 rank
            | err _ ↦ resumed
          ])
      else rank_search mc rank

-- The first loop of `mdb_prefix_count`, over the pages below the top of the cursor's path.
unfoldable pub path_total : List Frame → ℕ
unfolding sum_loop
path_total [] = 0
path_total (f ∷ fs) =
    if not f.page.counted
    then path_total fs
    else sum_loop (node_get_count f.page) (take f.ki f.page.nodes) (path_total fs)

-- `total` of `mdb_prefix_count` before it looks at `inclusive`.
unfoldable pub entries_before : Frame → List Frame → ℕ
unfolding path_total leaf_prefix_contribution
entries_before leaf below = (path_total below + leaf_prefix_contribution leaf.page leaf.ki) % word64
