-- ===== src/Counted/Select.antt =====
-- The descent of `mdb_cursor_rank_descend` from a page on the cursor's path to the entry with a rank, and
-- the path that it leaves.
use mathlib.Core.Path.{subst}
use dlmdb.Base.{
  ℕ, zero, suc, ◌+◌, ◌-◌, ◌<◌, ◌≤◌, ◌≡◌, refl, sym, ap, ap₂, ◌∙◌, List, ◌∷◌, true, false, not,
  word64, length, take, get_elem?, Result, ok, err, ◌>>=◌, arith, if◌then◌else◌,
}
use dlmdb.Counted.{Page, node_get_count, sum_loop}
use dlmdb.Counted.Sums.{sum_loop_lem}
use dlmdb.Counted.Rank.{
  Frame, Cursor, set_top, leaf_position, branch_step, descend_loop, path_total,
}
use dlmdb.Counted.Blocks.{Entry, Found, scan-Found, length-flat}
use dlmdb.Counted.Tree.{
  All-get_elem?, walk, IsCounted, child_block, child_block-walk, children-Fills,
}
use dlmdb.Counted.Path.{IsPath, Selects, set_ki-IsPath, IsPath-Covers, IsPath-base}
use dlmdb.Counted.Leaf.{leaf-Selects}

path_total-counted :
    (f : Frame) (fs : List Frame)
    → f.page.counted ≡ true
    → path_total (f ∷ fs)
      ≡ sum_loop (node_get_count f.page) (take f.ki f.page.nodes) (path_total fs)
unfolding path_total
path_total-counted f fs e =
    ap
      (λ b.
        if not b
        then path_total fs
        else sum_loop (node_get_count f.page) (take f.ki f.page.nodes) (path_total fs))
      e

module _ (page_get : ℕ → Result Page) (root : Page) (height : ℕ) where
  abbrev entries : List Entry
  entries = walk page_get height root

  -- The round on a branch page goes to the child that has the entry.
  child-IsPath :
      (h : ℕ) (f : Frame) (fs : List Frame) (rank remaining : ℕ) (child : Page)
      → IsPath page_get root height (suc h) f fs
      → length entries < word64
      → f.rank_base + remaining ≡ rank
      → (fo : Found (child_block page_get h) (node_get_count f.page) 0 f.page.nodes remaining)
      → page_get fo.node.pgno ≡ ok child
      → fo.node.tally ≡ length (walk page_get h child)
      → IsCounted page_get h child
      → IsPath page_get root height h
          (record { page = child; ki = 0; rank_base = rank - fo.rest })
          (record f { ki = fo.k } ∷ fs)
  child-IsPath h f fs rank remaining child path small e fo got tally counts =
      let mp = f.page in
      let weight = node_get_count mp in
      let c = IsPath-Covers page_get root height (suc h) f fs path in
      let base : rank - fo.rest ≡ f.rank_base + fo.start = omega (arith, e, fo.splits) in
      let size : weight fo.node ≡ length (walk page_get h child) =
        rw (c.counts.0, c.counts.1) tally in
      let total =
        length-flat (child_block page_get h) weight 0 mp.nodes
          (children-Fills page_get h mp c.counts) in
      let before = sum_loop_lem weight (take fo.k mp.nodes) (path_total fs) (
        omega (
          arith,
          IsPath-base page_get root height (suc h) f fs path,
          fo.before,
          fo.fits,
          c.fits,
          small,
        )) in
      let above = path_total-counted (record f { ki = fo.k }) fs c.counts.1 in
      (
        record {
          counts = counts;
          fits = omega (arith, base, size, fo.fits, c.fits);
          agrees = λ x less.
              ap (get_elem? entries) (omega (arith, base))
              ∙ c.agrees (fo.start + x) (omega (arith, fo.fits, size, less))
              ∙ fo.agrees x (omega (arith, size, less))
              ∙ ap (λ l. get_elem? l x) (child_block-walk page_get h (0 + fo.k) fo.node child got);
        },
        omega (
          arith,
          base,
          above,
          before,
          fo.before,
          IsPath-base page_get root height (suc h) f fs path,
        ),
        set_ki-IsPath page_get root height (suc h) fo.k f fs path,
      )

  branch_step-Found :
      (mc : Cursor) (mp : Page) (h remaining : ℕ) (child : Page)
      → mp.counted ≡ true
      → (fo : Found (child_block page_get h) (node_get_count mp) 0 mp.nodes remaining)
      → page_get fo.node.pgno ≡ ok child
      → branch_step page_get mc mp remaining
        ≡ (record mc { frames = set_top fo.k mc.frames }, ok (child, fo.rest))
  unfolding branch_step
  branch_step-Found mc mp h remaining child counted fo got =
      rw (counted, fo.finds)
        (ap₂ (λ k r. (record mc { frames = set_top k mc.frames }, r >>= λ c. ok (c, fo.rest)))
          (omega arith) got)

  descend_loop-leaf :
      (room : ℕ) (mc : Cursor) (mp : Page) (rank remaining : ℕ)
      → mp.branch ≡ false
      → descend_loop page_get room mc mp rank remaining ≡ leaf_position mc mp rank remaining
  unfolding descend_loop
  descend_loop-leaf zero mc mp rank remaining e = rw e refl
  descend_loop-leaf (suc room) mc mp rank remaining e = rw e refl

  descend_loop-branch :
      (room : ℕ) (mc mc' : Cursor) (mp child : Page) (rank remaining rest : ℕ)
      → mp.branch ≡ true
      → branch_step page_get mc mp remaining ≡ (mc', ok (child, rest))
      → descend_loop page_get (suc room) mc mp rank remaining
        ≡ descend_loop page_get room
            (record mc' {
              frames = record { page = child; ki = 0; rank_base = rank - rest } ∷ mc'.frames;
            })
            child
            rank
            rest
  unfolding descend_loop
  descend_loop-branch room mc mc' mp child rank remaining rest e step = rw e (
      ap
        (λ (s : Cursor × Result (Page × ℕ)). elim s.1 as (λ _. Cursor × Result ℕ) [
          | err code ↦ (s.0, err code)
          | ok (c, r) ↦
              descend_loop page_get room
                (record s.0 {
                  frames = record { page = c; ki = 0; rank_base = rank - r } ∷ s.0.frames;
                })
                c rank r
        ])
        step)

  pub descend_loop-Selects :
      (h room : ℕ) (mc : Cursor) (f : Frame) (fs : List Frame) (rank remaining : ℕ)
      → h ≤ room
      → IsPath page_get root height h f fs
      → f.rank_base + remaining ≡ rank
      → remaining < length (walk page_get h f.page)
      → length entries < word64
      → Selects page_get root height rank mc
          (descend_loop page_get room (record mc { frames = f ∷ fs }) f.page rank remaining)
  descend_loop-Selects zero room mc f fs rank remaining le path e less small =
      subst (Selects page_get root height rank mc)
        (sym (
          descend_loop-leaf room (record mc { frames = f ∷ fs }) f.page rank remaining
            ((IsPath-Covers page_get root height 0 f fs path).counts.0)))
        (leaf-Selects page_get root height mc f fs rank remaining path e less small)
  descend_loop-Selects (suc h) zero mc f fs rank remaining le path e less small =
      absurd (omega arith)
  descend_loop-Selects (suc h) (suc room) mc f fs rank remaining le path e less small =
      let mp = f.page in
      let c = (IsPath-Covers page_get root height (suc h) f fs path).counts in
      let fo =
        scan-Found (child_block page_get h) (node_get_count mp) 0 mp.nodes remaining
          (children-Fills page_get h mp c) less in
      let (child, got, tally, counts) =
        All-get_elem?
          (λ node.
            (child : Page) × (page_get node.pgno ≡ ok child)
            × (node.tally ≡ length (walk page_get h child))
            × IsCounted page_get h child)
          mp.nodes fo.k fo.node c.3 fo.nth in
      let path' = child-IsPath h f fs rank remaining child path small e fo got tally counts in
      let size : node_get_count mp fo.node ≡ length (walk page_get h child) = rw (c.0, c.1) tally in
      let mc' = record mc { frames = f ∷ fs } in
      let step = branch_step-Found mc' mp h remaining child c.1 fo got in
      subst (Selects page_get root height rank mc)
        (sym (descend_loop-branch room mc' _ mp child rank remaining fo.rest c.0 step))
        (descend_loop-Selects h room mc _ _ rank fo.rest (omega (arith, le)) path'
          (omega (arith, e, fo.splits)) (omega (arith, size, fo.within)) small)
