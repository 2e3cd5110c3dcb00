-- ===== src/Base/Memory.antt =====
-- The C library's allocator, and writes to a block of memory. What the allocator grants and what a
-- fresh cell holds are not known: they are parameters.
use Prim.Native.Nat.{ℕ, zero, suc, ◌+◌, ◌-◌, ◌≤◌}
use mathlib.Core.Path.{◌≡◌, refl, ap, ◌∙◌}
use mathlib.Core.Bool.{Bool}
use mathlib.Core.List.{List, [], ◌∷◌, ◌++◌}
use native.Mathlib.Omega.{arith}
use dlmdb.Base.Tests.{ltb, if◌then◌else◌}
use dlmdb.Base.Lists.{length, set, take, length-append, length-take}
use dlmdb.Base.Results.{Result, ok, err, fault}

-- `grant n` says whether `n` bytes can be had; `junk i` is what cell `i` of a fresh block holds.
pub record Allocator : Type 0 where
  pub grant : ℕ → Bool
  pub junk : ℕ → ℕ

module _ (os : Allocator) where
  abbrev pub fresh : ℕ → ℕ → List ℕ
  fresh start zero = []
  fresh start (suc n) = os.junk start ∷ fresh (suc start) n

  -- `realloc` to `n` cells keeps the contents up to the smaller size.
  unfoldable pub resize : List ℕ → ℕ → List ℕ
  resize cells n = take n cells ++ fresh (length cells) (n - length cells)

  pub length-fresh : (start n : ℕ) → length (fresh start n) ≡ n
  length-fresh start zero = refl
  length-fresh start (suc n) = ap suc (length-fresh (suc start) n)

  pub length-resize : (cells : List ℕ) (n : ℕ) → length (resize cells n) ≡ n
  unfolding resize
  length-resize cells n =
      length-append (take n cells) (fresh (length cells) (n - length cells))
      ∙ omega (arith, length-take n cells, length-fresh (length cells) (n - length cells))

-- A cell below both sizes keeps its contents.
take-append_left :
    (m n : ℕ) (xs ys : List ℕ) → m ≤ n → m ≤ length xs → take m (take n xs ++ ys) ≡ take m xs
take-append_left zero n xs ys h k = refl
take-append_left (suc m) zero xs ys h k = elim h [ ]
take-append_left (suc m) (suc n) [] ys h k = elim k [ ]
take-append_left (suc m) (suc n) (x ∷ xs) ys h k =
    ap (λ l. x ∷ l) (take-append_left m n xs ys (omega arith) (omega arith))

pub take-resize :
    (os : Allocator) (cells : List ℕ) (n m : ℕ)
    → m ≤ n
    → m ≤ length cells
    → take m (resize os cells n) ≡ take m cells
unfolding resize
take-resize os cells n m h k = take-append_left m n cells _ h k

-- `cells[i] = v`
abbrev pub store : List ℕ → ℕ → ℕ → Result (List ℕ)
store cells i v = if ltb i (length cells) then ok (set cells i v) else err fault

-- `memcpy(&cells[i], vs, n * sizeof(*cells))`, for the list of the `n` values.
unfoldable pub overwrite : List ℕ → ℕ → List ℕ → List ℕ
overwrite [] i vs = []
overwrite (x ∷ xs) (suc i) vs = x ∷ overwrite xs i vs
overwrite (x ∷ xs) zero [] = x ∷ xs
overwrite (x ∷ xs) zero (v ∷ vs) = v ∷ overwrite xs zero vs

abbrev pub copy_in : List ℕ → ℕ → List ℕ → Result (List ℕ)
copy_in cells i vs =
    if ltb (length cells) (i + length vs) then err fault else ok (overwrite cells i vs)

pub length-overwrite :
    (cells : List ℕ) (i : ℕ) (vs : List ℕ) → length (overwrite cells i vs) ≡ length cells
unfolding overwrite
length-overwrite [] i vs = refl
length-overwrite (x ∷ xs) (suc i) vs = ap suc (length-overwrite xs i vs)
length-overwrite (x ∷ xs) zero [] = refl
length-overwrite (x ∷ xs) zero (v ∷ vs) = ap suc (length-overwrite xs zero vs)

pub overwrite_nil : (cells : List ℕ) (i : ℕ) → overwrite cells i [] ≡ cells
unfolding overwrite
overwrite_nil [] i = refl
overwrite_nil (x ∷ cells) zero = refl
overwrite_nil (x ∷ cells) (suc i) = ap (λ l. x ∷ l) (overwrite_nil cells i)
