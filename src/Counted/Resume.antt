-- ===== src/Counted/Resume.antt =====
-- `mdb_cursor_rank_resume` on a tree whose counts are right.
use mathlib.Core.Path.{subst}
use dlmdb.Base.{
  ℕ, suc, ◌-◌, ◌<◌, ◌≤◌, ◌≡◌, refl, sym, ap, ap₂, inl, inr, List, [], ◌∷◌, Bool, true, false, ◌&&◌,
  not, ltb, leb, ◌==◌, word64, length, Result, ok, Bool-cases, arith,
}
use dlmdb.Counted.{Page, page_subtree_count}
use dlmdb.Counted.Rank.{Frame, Cursor, cursor_stack, rank_descend, pop_to, rank_resume}
use dlmdb.Counted.Tree.{walk, page_subtree_count-walk}
use dlmdb.Counted.Path.{Covers, IsPath, IsAt, Selects, tree_size, IsPath-Covers}
use dlmdb.Counted.Search.{restarted, rank_descend-Selects}

module _ (page_get : ℕ → Result Page) (root : Page) (height : ℕ) where
  -- The lowest page of the path that has the entry with the rank.
  record Popped (rank : ℕ) (frames : List Frame) : Type 0 where
    pub h : ℕ
    pub f : Frame
    pub fs : List Frame
    pub pops : pop_to rank frames ≡ f ∷ fs
    pub path : IsPath page_get root height h f fs
    pub le : f.rank_base ≤ rank
    pub less : rank - f.rank_base < length (walk page_get h f.page)

  Covers-count :
      (h : ℕ) (f : Frame)
      → tree_size page_get root height < word64
      → Covers page_get (walk page_get height root) h f
      → page_subtree_count f.page ≡ length (walk page_get h f.page)
  Covers-count h f small c =
      page_subtree_count-walk page_get h f.page c.counts (omega (arith, c.fits))

  abbrev has_rank : ℕ → Frame → Bool
  has_rank rank f =
      not (ltb rank f.rank_base) && ltb (rank - f.rank_base) (page_subtree_count f.page)

  has_rank-Popped :
      (rank h : ℕ) (f : Frame) (fs : List Frame)
      → tree_size page_get root height < word64
      → IsPath page_get root height h f fs
      → has_rank rank f ≡ true
      → Popped rank (f ∷ fs)
  has_rank-Popped rank h f fs small path e =
      let count = Covers-count h f small (IsPath-Covers page_get root height h f fs path) in
      record {
        h = h;
        f = f;
        fs = fs;
        pops = unfold pop_to in rw e refl;
        path = path;
        le = ground arith;
        less = ground (arith, count);
      }

  skip-Popped :
      (rank : ℕ) (f : Frame) (fs : List Frame)
      → has_rank rank f ≡ false
      → Popped rank fs
      → Popped rank (f ∷ fs)
  skip-Popped rank f fs e p = record {
    h = p.h;
    f = p.f;
    fs = p.fs;
    pops = unfold pop_to in rw e p.pops;
    path = p.path;
    le = p.le;
    less = p.less;
  }

  pop_to-Popped :
      (rank h : ℕ) (f : Frame) (fs : List Frame)
      → tree_size page_get root height < word64
      → rank < tree_size page_get root height
      → IsPath page_get root height h f fs
      → Popped rank (f ∷ fs)
  pop_to-Popped rank h f [] small less path =
      let count = Covers-count h f small path.0 in
      let size : length (walk page_get h f.page) ≡ tree_size page_get root height =
        ap₂ (λ k p. length (walk page_get k p)) path.3 path.2 in
      has_rank-Popped rank h f [] small path (ground (arith, count, size, path.1))
  pop_to-Popped rank h f (g ∷ fs) small less path = elim (Bool-cases (has_rank rank f)) [
    | inl e ↦ has_rank-Popped rank h f (g ∷ fs) small path e
    | inr e ↦ skip-Popped rank f (g ∷ fs) e (pop_to-Popped rank (suc h) g fs small less path.2)
  ]

  -- The cursor moved to that entry, with some flags.
  abbrev pub Positions : ℕ → Cursor → Cursor × Result ℕ → Type 0
  Positions rank mc out =
      (initialized eof del : Bool) × Selects page_get root height rank
        (record mc { initialized = initialized; eof = eof; del = del }) out

  rank_resume-pop :
      (mc : Cursor) (f : Frame) (fs : List Frame) (g : Frame) (gs : List Frame) (rank : ℕ)
      → (length (f ∷ fs) == 0) ≡ false
      → leb mc.entries rank ≡ false
      → (rank == mc.rank_cached) ≡ false
      → pop_to rank (f ∷ fs) ≡ g ∷ gs
      → rank_resume page_get (record mc { frames = f ∷ fs; initialized = true }) rank
        ≡ rank_descend page_get (record (restarted mc) { frames = g ∷ gs }) rank
  unfolding rank_resume
  rank_resume-pop mc f fs g gs rank pushed in_range other pops =
      rw (pushed, in_range, other, pops) refl

  pub rank_resume-live :
      (mc : Cursor) (f : Frame) (fs : List Frame) (rank : ℕ)
      → height < cursor_stack
      → tree_size page_get root height < word64
      → mc.entries ≡ tree_size page_get root height
      → IsAt page_get root height mc.rank_cached mc.rank_offset f fs
      → rank < mc.entries
      → Positions rank mc
          (rank_resume page_get (record mc { frames = f ∷ fs; initialized = true }) rank)
  rank_resume-live mc f fs rank low small counts at less =
      let in_range : leb mc.entries rank ≡ false = ground arith in
      let pushed : (length (f ∷ fs) == 0) ≡ false = ground arith in
      elim (Bool-cases (rank == mc.rank_cached)) [
        | inl same ↦
            let cached : rank ≡ mc.rank_cached = ground arith in
            (
              true,
              mc.eof,
              mc.del,
              record {
                leaf = f;
                below = fs;
                offset = mc.rank_offset;
                returns =
                    unfold rank_resume in
                    rw (pushed, in_range, same)
                      (ap
                        (λ r. (
                          record mc { frames = f ∷ fs; initialized = true; rank_cached = r },
                          ok mc.rank_offset,
                        ))
                        (sym cached));
                at = subst (λ r. IsAt page_get root height r mc.rank_offset f fs) (sym cached) at;
              },
            )
        | inr other ↦
            let p = pop_to-Popped rank 0 f fs small (omega (arith, counts, less)) at.path in
            (
              true,
              false,
              false,
              subst (Selects page_get root height rank (restarted mc))
                  (sym (rank_resume-pop mc f fs p.f p.fs rank pushed in_range other p.pops))
                  (rank_descend-Selects page_get root height p.h (restarted mc) p.f p.fs rank low
                    small p.path p.le p.less),
            )
      ]
