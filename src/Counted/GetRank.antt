-- ===== src/Counted/GetRank.antt =====
-- `mdb_cursor_get_rank` on a tree whose counts are right, with a cursor that earlier calls have moved.
use mathlib.Core.Path.{subst}
use dlmdb.Base.{
  ℕ, ◌<◌, ◌≡◌, refl, sym, ap, ap₂, ◌∙◌, inl, inr, List, [], ◌∷◌, Bool, true, false, ◌&&◌, ◌||◌, not,
  leb, ◌==◌, word64, length, Result, ok, err, not_found, Bool-cases, arith,
}
use dlmdb.Counted.{Page}
use dlmdb.Counted.Rank.{Frame, Cursor, cursor_stack, rank_search, rank_resume, get_rank}
use dlmdb.Counted.Tree.{IsCounted}
use dlmdb.Counted.Path.{IsAt, Selects, tree_size, IsPath-bottom}
use dlmdb.Counted.Search.{restarted, IsReady, rank_search-Selects}
use dlmdb.Counted.Resume.{Positions, rank_resume-live}

frames_cases :
    (frames : List Frame)
    → length frames == 0 ≡ false
    → (f : Frame) × (fs : List Frame) × (frames ≡ f ∷ fs)
frames_cases [] e = absurd (ground arith)
frames_cases (f ∷ fs) e = (f, fs, refl)

module _ (page_get : ℕ → Result Page) (root : Page) (height : ℕ) where
  -- A cursor whose cached rank, where `C_RANKVALID` says that it is good, is that of its position.
  pub record IsValid (mc : Cursor) : Type 0 where
    pub ready : IsReady page_get root height mc
    pub tracked :
        mc.rank_valid ≡ true
        → mc.initialized ≡ true
        → (f : Frame) (fs : List Frame) → mc.frames ≡ f ∷ fs
        → IsAt page_get root height mc.rank_cached mc.rank_offset f fs

  rank_resume-Positions :
      (mc : Cursor) (rank : ℕ)
      → height < cursor_stack
      → tree_size page_get root height < word64
      → IsValid mc
      → mc.rank_valid && mc.initialized && not (length mc.frames == 0) ≡ true
      → rank < mc.entries
      → Positions page_get root height rank mc (rank_resume page_get mc rank)
  rank_resume-Positions mc rank low small v live less =
      let valid : mc.rank_valid ≡ true = ground arith in
      let init : mc.initialized ≡ true = ground arith in
      let (f, fs, e) = frames_cases mc.frames (ground arith) in
      subst
        (λ (p : List Frame × Bool).
          Positions page_get root height rank mc
            (rank_resume page_get (record mc { frames = p.0; initialized = p.1 }) rank))
        (ap₂ (λ x y. (x, y)) (sym e) (sym init))
        (rank_resume-live page_get root height mc f fs rank low small v.ready.counts
          (v.tracked valid init f fs e) less)

  abbrev resumes : Cursor → ℕ → Bool
  resumes mc rank =
      mc.rank_valid && mc.initialized && not (length mc.frames == 0) && leb mc.rank_cached rank

  get_rank-search :
      (mc : Cursor) (rank : ℕ)
      → mc.counted ≡ true
      → mc.blocked ≡ false
      → (mc.entries == 0 || leb mc.entries rank) ≡ false
      → resumes mc rank ≡ false
      → get_rank page_get mc rank ≡ rank_search page_get mc rank
  unfolding get_rank
  get_rank-search mc rank counted unblocked in_range e = rw (counted, unblocked, in_range, e) refl

  get_rank-resume :
      (mc mc' : Cursor) (rank offset : ℕ)
      → mc.counted ≡ true
      → mc.blocked ≡ false
      → (mc.entries == 0 || leb mc.entries rank) ≡ false
      → resumes mc rank ≡ true
      → rank_resume page_get mc rank ≡ (mc', ok offset)
      → get_rank page_get mc rank ≡ (mc', ok offset)
  unfolding get_rank
  get_rank-resume mc mc' rank offset counted unblocked in_range e out =
      simp (counted, unblocked, in_range, e)
        (ap
          (λ (r : Cursor × Result ℕ). elim r.1 as (λ _. Cursor × Result ℕ) [
            | ok o ↦ r
            | err not_found ↦ rank_search page_get r.0 rank
            | err _ ↦ r
          ])
          out)

  -- On a tree with right counts, less than 32 levels above its leaves and with fewer than 2^64 entries, and
  -- with a cursor whose cached rank is right wherever it is marked good: for a rank below the number of
  -- entries the call succeeds, with the cursor at the entry with that rank and its offset among the
  -- duplicates returned, and the counts before the cursor's path come to the rank. Of the other fields
  -- only the flags set by a search may change.
  pub get_rank-Positions :
      (mc : Cursor) (rank : ℕ)
      → IsCounted page_get height root
      → height < cursor_stack
      → tree_size page_get root height < word64
      → IsValid mc
      → mc.counted ≡ true
      → rank < mc.entries
      → Positions page_get root height rank mc (get_rank page_get mc rank)
  get_rank-Positions mc rank c low small v counted less =
      let in_range : (mc.entries == 0 || leb mc.entries rank) ≡ false = ground arith in
      elim (Bool-cases (resumes mc rank)) [
        | inl resumed ↦
            let p = rank_resume-Positions mc rank low small v (ground arith) less in
            let out =
              get_rank-resume mc _ rank _ counted v.ready.unblocked in_range resumed p.3.returns in
            subst (Positions page_get root height rank mc) (p.3.returns ∙ sym out) p
        | inr searched ↦ (
          true,
          false,
          false,
          subst (Selects page_get root height rank (restarted mc))
              (sym (get_rank-search mc rank counted v.ready.unblocked in_range searched))
              (rank_search-Selects page_get root height mc rank c low small v.ready less),
        )
      ]

  Positions-IsValid :
      (mc : Cursor) (rank : ℕ) (out : Cursor × Result ℕ)
      → IsReady page_get root height mc
      → Positions page_get root height rank mc out
      → IsValid (record out.0 { rank_valid = true })
  Positions-IsValid mc rank out r (initialized, eof, del, s) =
      subst (λ (o : Cursor × Result ℕ). IsValid (record o.0 { rank_valid = true })) (sym s.returns)
        (record {
          ready = record {
            unblocked = r.unblocked;
            present = r.present;
            got = r.got;
            stays = λ f e _. IsPath-bottom page_get root height 0 s.leaf s.below f s.at.path e;
            counts = r.counts;
          };
          tracked = λ _ _ f fs e.
              let top : s.leaf ≡ f = cc in
              let rest : s.below ≡ fs = cc in
              subst (λ (p : Frame × List Frame). IsAt page_get root height rank s.offset p.0 p.1)
                (ap₂ (λ x y. (x, y)) top rest) s.at;
        })

  -- Under the same conditions, the cursor that the call leaves, marked good, is again one whose cached rank
  -- is right.
  pub get_rank-IsValid :
      (mc : Cursor) (rank : ℕ)
      → IsCounted page_get height root
      → height < cursor_stack
      → tree_size page_get root height < word64
      → IsValid mc
      → mc.counted ≡ true
      → rank < mc.entries
      → IsValid (record (get_rank page_get mc rank).0 { rank_valid = true })
  get_rank-IsValid mc rank c low small v counted less =
      Positions-IsValid mc rank (get_rank page_get mc rank) v.ready
        (get_rank-Positions mc rank c low small v counted less)
