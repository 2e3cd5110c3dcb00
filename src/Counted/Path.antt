-- ===== src/Counted/Path.antt =====
-- Paths of cursors through a counted tree, and cursors at the entry with a given rank.
use dlmdb.Base.{
  ℕ, suc, ◌+◌, ◌<◌, ◌≤◌, ◌≡◌, sym, ap, ◌∙◌, List, [], ◌∷◌, some, length, get_elem?, Result, ok,
  arith,
}
use dlmdb.Counted.{Page}
use mathlib.Core.Option.{some-injective}
use dlmdb.Counted.Rank.{bottom, Frame, Cursor, path_total, entries_before}
use dlmdb.Counted.Blocks.{Entry}
use dlmdb.Counted.Tree.{walk, IsCounted}

-- A page under which a run of a sequence of entries stands, from `rank_base` on.
pub record Covers (page_get : ℕ → Result Page) (entries : List Entry) (h : ℕ) (f : Frame)
    : Type 0 where
  pub counts : IsCounted page_get h f.page
  pub fits : f.rank_base + length (walk page_get h f.page) ≤ length entries
  pub agrees :
      (x : ℕ)
      → x < length (walk page_get h f.page)
      → get_elem? entries (f.rank_base + x) ≡ get_elem? (walk page_get h f.page) x

-- A cursor's path from a page `h` levels above the leaves down to the root, which is `height` levels above
-- them; each base is what the counts of the pages below come to.
abbrev pub IsPath : (ℕ → Result Page) → Page → ℕ → ℕ → Frame → List Frame → Type 0
IsPath page_get root height h f [] =
    Covers page_get (walk page_get height root) h f
    × (f.rank_base ≡ 0)
    × (f.page ≡ root)
    × (h ≡ height)
IsPath page_get root height h f (g ∷ fs) =
    Covers page_get (walk page_get height root) h f
    × (f.rank_base ≡ path_total (g ∷ fs))
    × IsPath page_get root height (suc h) g fs

-- The cursor is at the entry of that rank, and what stands before it on its path is counted right.
pub record IsAt (page_get : ℕ → Result Page) (root : Page) (height rank offset : ℕ) (leaf : Frame)
    (below : List Frame) : Type 0 where
  pub path : IsPath page_get root height 0 leaf below
  pub entry :
      get_elem? (walk page_get height root) rank
      ≡ some (record { pgno = leaf.page.pgno; index = leaf.ki; offset = offset })
  pub ranked : entries_before leaf below + offset ≡ rank

-- The cursor that comes out is `mc` moved there, and the offset is returned.
pub record Selects (page_get : ℕ → Result Page) (root : Page) (height rank : ℕ) (mc : Cursor)
    (out : Cursor × Result ℕ) : Type 0 where
  pub leaf : Frame
  pub below : List Frame
  pub offset : ℕ
  pub returns :
      out
      ≡ (record mc { frames = leaf ∷ below; rank_cached = rank; rank_offset = offset }, ok offset)
  pub at : IsAt page_get root height rank offset leaf below

-- The number of entries of the tree.
abbrev pub tree_size : (ℕ → Result Page) → Page → ℕ → ℕ
tree_size page_get root height = length (walk page_get height root)

module _ (page_get : ℕ → Result Page) (root : Page) (height : ℕ) where
  pub set_ki-IsPath :
      (h k : ℕ) (f : Frame) (fs : List Frame)
      → IsPath page_get root height h f fs
      → IsPath page_get root height h (record f { ki = k }) fs
  set_ki-IsPath h k f [] (c, zero_base, whole, top) =
      (record { counts = c.counts; fits = c.fits; agrees = c.agrees }, zero_base, whole, top)
  set_ki-IsPath h k f (g ∷ fs) (c, base, below) =
      (record { counts = c.counts; fits = c.fits; agrees = c.agrees }, base, below)

  pub IsPath-Covers :
      (h : ℕ) (f : Frame) (fs : List Frame)
      → IsPath page_get root height h f fs
      → Covers page_get (walk page_get height root) h f
  IsPath-Covers h f [] p = p.0
  IsPath-Covers h f (g ∷ fs) p = p.0

  pub IsPath-base :
      (h : ℕ) (f : Frame) (fs : List Frame)
      → IsPath page_get root height h f fs
      → f.rank_base ≡ path_total fs
  unfolding path_total
  IsPath-base h f [] p = p.1
  IsPath-base h f (g ∷ fs) p = p.1

  pub IsPath-depth :
      (h : ℕ) (f : Frame) (fs : List Frame)
      → IsPath page_get root height h f fs
      → h + length fs ≡ height
  IsPath-depth h f [] p = omega (arith, p.3)
  IsPath-depth h f (g ∷ fs) p = omega (arith, IsPath-depth (suc h) g fs p.2)

  pub IsPath-bottom :
      (h : ℕ) (f : Frame) (fs : List Frame) (g : Frame)
      → IsPath page_get root height h f fs
      → bottom (f ∷ fs) ≡ some g
      → g.page ≡ root
  IsPath-bottom h f [] g path e = ap (λ x. x.page) (sym (some-injective f g e)) ∙ path.2
  IsPath-bottom h f (k ∷ fs) g path e = IsPath-bottom (suc h) k fs g path.2 e
