-- ===== src/Idl/Valid.antt =====
-- Well-formed ID lists, and what growing the block keeps.
use dlmdb.Base.{
  ℕ, suc, ◌+◌, ◌-◌, ◌*◌, ◌/◌, ◌%◌, ◌^◌, ◌≤◌, ◌<◌, ◌≡◌, refl, List, [], ◌∷◌, word64, length, get_or,
  take, drop, arith, Result, ok, err, enomem, Allocator, length-resize, take-resize, Bool-cases,
  inl, inr,
}
use dlmdb.Idl.{Idl, count, entries, id_size, midl_grow}

-- The block has the cells that `ids[-1]` claims, and the IDs fit into it.
pub record IsValid (ids : Idl) : Type 0 where
  pub sized : length ids.cells ≡ ids.alloc + 1
  pub fits : count ids ≤ ids.alloc

pub record Keeps (ids ids' : Idl) : Type 0 where
  pub same_count : count ids' ≡ count ids
  pub same_entries : entries ids' ≡ entries ids

-- The first `n + 1` cells hold the count and `n` IDs.
pub front_keeps :
    (n : ℕ) (xs ys : List ℕ)
    → take (suc n) ys ≡ take (suc n) xs
    → (get_or ys 0 0 ≡ get_or xs 0 0) × (take n (drop 1 ys) ≡ take n (drop 1 xs))
front_keeps n [] [] e = (refl, refl)
front_keeps n [] (y ∷ ys) e = absurd (cc)
front_keeps n (x ∷ xs) [] e = absurd (cc)
front_keeps n (x ∷ xs) (y ∷ ys) e = (ground arith, ground arith)

pub front-Keeps :
    (ids ids' : Idl)
    → take (suc (count ids)) ids'.cells ≡ take (suc (count ids)) ids.cells
    → Keeps ids ids'
front-Keeps ids ids' e =
    let (c, f) = front_keeps (count ids) ids.cells ids'.cells e in
    record { same_count = c; same_entries = rw c f }

-- A grown block is larger by `num` cells, with the same IDs; the only failure is `ENOMEM`.
abbrev pub Grown : Idl → ℕ → Result Idl → Type 0
Grown ids num (err e) = e ≡ enomem
Grown ids num (ok ids') =
    (ids'.alloc ≡ ids.alloc + num) × (length ids'.cells ≡ ids'.alloc + 1) × Keeps ids ids'

pub midl_grow-Grown :
    (os : Allocator) (ids : Idl) (num : ℕ)
    → IsValid ids
    → ids.alloc + num < 2 ^ 60
    → Grown ids num (midl_grow os ids num)
unfolding midl_grow
midl_grow-Grown os ids num v small =
    let bytes = (ids.alloc + num + 2) % word64 * id_size % word64 in
    elim (Bool-cases (os.grant bytes)) [
      | inl granted ↦
          let words : bytes / id_size - 1 ≡ ids.alloc + num + 1 = omega arith in
          rw granted (
            omega arith,
            rw (length-resize os ids.cells (bytes / id_size - 1)) (omega arith),
            front-Keeps ids _ (
                take-resize os ids.cells (bytes / id_size - 1) (suc (count ids))
                  (omega (arith, v.fits)) (omega (arith, v.fits, v.sized))),
          )
      | inr refused ↦ rw refused refl
    ]
