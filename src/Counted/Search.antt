-- ===== src/Counted/Search.antt =====
-- `mdb_cursor_rank_search` on a tree whose counts are right.
use mathlib.Core.Path.{subst}
use dlmdb.Base.{
  p_invalid, ℕ, ◌-◌, ◌<◌, ◌≤◌, ◌≡◌, refl, sym, ap, inl, inr, List, [], ◌∷◌, some, Bool, true, false,
  ◌||◌, if◌then◌else◌, ltb, leb, ◌==◌, word64, length, get_elem?, Result, ok, err, corrupted,
  Bool-cases, Option-cases, arith,
}
use dlmdb.Counted.{Page}
use dlmdb.Counted.Rank.{
  Frame, Cursor, cursor_stack, descend_loop, rank_descend, page0, page_search_root, root_frames,
  rank_search,
}
use dlmdb.Counted.Tree.{walk, IsCounted}
use dlmdb.Counted.Select.{descend_loop-Selects}
use dlmdb.Counted.Path.{IsPath, Selects, tree_size, IsPath-depth}

-- The flags that a search sets and clears.
abbrev pub restarted : Cursor → Cursor
restarted mc = record mc { initialized = true; eof = false; del = false }

or_right : (a b : Bool) → b ≡ true → a || b ≡ true
or_right a b e = ground arith

module _ (page_get : ℕ → Result Page) (root : Page) (height : ℕ) where
  pub rank_descend-Selects :
      (h : ℕ) (mc : Cursor) (f : Frame) (fs : List Frame) (rank : ℕ)
      → height < cursor_stack
      → tree_size page_get root height < word64
      → IsPath page_get root height h f fs
      → f.rank_base ≤ rank
      → rank - f.rank_base < length (walk page_get h f.page)
      → Selects page_get root height rank mc
          (rank_descend page_get (record mc { frames = f ∷ fs }) rank)
  unfolding rank_descend
  rank_descend-Selects h mc f fs rank low small path le less =
      let in_range : ltb rank f.rank_base ≡ false = ground arith in
      subst (Selects page_get root height rank mc)
        (ap
          (λ b.
            if b
            then (record mc { frames = f ∷ fs }, err corrupted)
            else descend_loop page_get (cursor_stack - length (f ∷ fs))
                (record mc { frames = f ∷ fs }) f.page rank (rank - f.rank_base))
          (sym in_range))
        (descend_loop-Selects page_get root height h (cursor_stack - length (f ∷ fs)) mc f fs rank
          (rank - f.rank_base) (omega (arith, IsPath-depth page_get root height h f fs path, low))
          path (omega (arith, le)) less small)

  -- What `mc_pg[0]` and the database say of the root.
  pub record IsReady (mc : Cursor) : Type 0 where
    pub unblocked : mc.blocked ≡ false
    pub present : mc.root == p_invalid ≡ false
    pub got : page_get mc.root ≡ ok root
    pub stays :
        (f : Frame)
        → page0 mc ≡ some f
        → f.page.subp || f.page.pgno == mc.root ≡ true
        → f.page ≡ root
    pub counts : mc.entries ≡ tree_size page_get root height

  page_search_root-root :
      (mc : Cursor)
      → IsReady mc
      → (f : Frame) × (page_search_root page_get mc ≡ ok (f ∷ [])) × (f.page ≡ root)
  unfolding page_search_root
  page_search_root-root mc r = elim (Option-cases (page0 mc)) [
    | inl e ↦ (
      record { page = root; ki = 0; rank_base = 0 },
      rw (r.unblocked, r.present, e, r.got) refl,
      refl,
    )
    | inr (f, e) ↦ elim (Bool-cases (f.page.pgno == mc.root)) [
      | inl kept ↦ (
        f,
        rw (r.unblocked, r.present, e, kept) refl,
        r.stays f e (or_right f.page.subp (f.page.pgno == mc.root) kept),
      )
      | inr other ↦
          (record f { page = root }, rw (r.unblocked, r.present, e, other, r.got) refl, refl)
    ]
  ]

  root_frames-root :
      (mc : Cursor)
      → IsReady mc
      → (f : Frame) × (root_frames page_get mc ≡ ok (f ∷ [])) × (f.page ≡ root)
  unfolding root_frames
  root_frames-root mc r =
      let (f, found, is_root) = page_search_root-root mc r in
      elim (Option-cases (page0 mc)) [
        | inl e ↦ (f, rw (e, root_frames) found, is_root)
        | inr (g, e) ↦ elim (Bool-cases g.page.subp) [
          | inl sub ↦ (g, rw (e, sub, root_frames) refl, r.stays g e (rw sub refl))
          | inr whole ↦ (f, rw (e, whole, root_frames) found, is_root)
        ]
      ]

  root-IsPath :
      (f : Frame)
      → IsCounted page_get height root
      → f.page ≡ root
      → IsPath page_get root height height (record f { rank_base = 0 }) []
  root-IsPath f c e =
      subst
        (λ p. IsPath page_get root height height (record { page = p; ki = f.ki; rank_base = 0 }) [])
        (sym e)
        (
          record {
            counts = c;
            fits = omega arith;
            agrees = λ x less. ap (get_elem? (walk page_get height root)) (omega arith);
          },
          refl,
          refl,
          refl,
        )

  -- On a tree with right counts, less than 32 levels above its leaves and with fewer than 2^64 entries, the
  -- search for a rank below the number of entries succeeds, with the cursor initialized and at the entry
  -- with that rank, and its offset returned.
  pub rank_search-Selects :
      (mc : Cursor) (rank : ℕ)
      → IsCounted page_get height root
      → height < cursor_stack
      → tree_size page_get root height < word64
      → IsReady mc
      → rank < mc.entries
      → Selects page_get root height rank (restarted mc) (rank_search page_get mc rank)
  unfolding rank_search
  rank_search-Selects mc rank c low small r less =
      let (f, found, is_root) = root_frames-root mc r in
      let in_range : leb mc.entries rank ≡ false = ground arith in
      let size : length (walk page_get height f.page) ≡ tree_size page_get root height =
        ap (λ p. length (walk page_get height p)) is_root in
      subst (Selects page_get root height rank (restarted mc)) (sym (rw (in_range, found) refl)) (
        rank_descend-Selects height (restarted mc) (record f { rank_base = 0 }) [] rank low small
          (root-IsPath f c is_root) (omega arith) (omega (arith, size, r.counts, less)))
