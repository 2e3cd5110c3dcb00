-- ===== src/Idl/Grow.antt =====
-- `mdb_midl_alloc`, `mdb_midl_need` and `mdb_midl_shrink`: the blocks are well formed and the IDs stay.
use dlmdb.Base.{
  ℕ, suc, ◌+◌, ◌-◌, ◌*◌, ◌/◌, ◌%◌, ◌^◌, ◌≤◌, ◌<◌, ◌≡◌, refl, List, [], ◌∷◌, Option, none, some, ltb,
  ◌&&◌, word32, word64, length, get_or, set, arith, Result, ok, err, enomem, Allocator, fresh,
  length-fresh, resize, length-resize, take-resize, Bool-cases, inl, inr, ltb→lt,
}
use dlmdb.Idl.{Idl, count, entries, um_max, id_size, midl_alloc, midl_need, midl_shrink}
use dlmdb.Idl.Valid.{IsValid, Keeps, front-Keeps}

abbrev Empty : ℕ → Option Idl → Type 0
Empty num none = Unit
Empty num (some ids) = IsValid ids × (ids.alloc ≡ num) × (entries ids ≡ [])

fresh_block :
    (cells : List ℕ) (num : ℕ)
    → length cells ≡ num + 1
    → IsValid (record { alloc = num; cells = set cells 0 0 }) × (get_or (set cells 0 0) 0 0 ≡ 0)
fresh_block [] num e = absurd (omega arith)
fresh_block (x ∷ cells) num e = (record { sized = omega arith; fits = omega arith }, refl)

-- A new list is well formed, empty, and has room for `num` IDs.
pub midl_alloc-Empty : (os : Allocator) (num : ℕ) → num < 2 ^ 60 → Empty num (midl_alloc os num)
unfolding midl_alloc
midl_alloc-Empty os num small =
    let bytes = (num + 2) * id_size % word64 in
    elim (Bool-cases (os.grant bytes)) [
      | inr refused ↦ rw refused tt
      | inl granted ↦
          let words : bytes / id_size - 1 ≡ num + 1 = omega arith in
          let (v, z) =
            fresh_block (fresh os 0 (bytes / id_size - 1)) num
              (omega (arith, length-fresh os 0 (bytes / id_size - 1))) in
          rw granted (v, refl, rw z)
    ]

-- After `mdb_midl_need` there is room for `num` more IDs, or the block is as it was and the code is
-- `ENOMEM`.
abbrev pub HasRoom : Idl → ℕ → Result Idl → Type 0
HasRoom ids num (err e) = (e ≡ enomem) × (ids.alloc < count ids + num)
HasRoom ids num (ok ids') = IsValid ids' × Keeps ids ids' × (count ids' + num ≤ ids'.alloc)

pub midl_need-HasRoom :
    (os : Allocator) (ids : Idl) (num : ℕ)
    → IsValid ids
    → num + count ids < 2 ^ 31
    → HasRoom ids num (midl_need os ids num)
unfolding midl_need
midl_need-HasRoom os ids num v small =
    let wanted = (num + count ids) % word32 in
    let rounded = (wanted + wanted / 4 + 258) % word32 / 256 * 256 in
    elim (Bool-cases (ltb ids.alloc wanted)) [
      | inr roomy ↦ rw roomy (v, record { same_count = refl; same_entries = refl }, ground arith)
      | inl full ↦ rw full (elim (Bool-cases (os.grant (rounded * id_size))) [
        | inr refused ↦ rw refused (refl, omega (arith, ltb→lt ids.alloc wanted full))
        | inl granted ↦
            let tight : ids.alloc < wanted = ltb→lt ids.alloc wanted full in
            let keeps : Keeps ids (record {
              alloc = (rounded + word32 - 2) % word32;
              cells = resize os ids.cells (rounded - 1);
            }) =
              front-Keeps ids _ (
                take-resize os ids.cells (rounded - 1) (suc (count ids)) (omega (arith, v.fits))
                  (omega (arith, v.fits, v.sized))) in
            rw granted (
              record {
                sized = omega (arith, length-resize os ids.cells (rounded - 1));
                fits = omega (arith, keeps.same_count, v.fits);
              },
              keeps,
              omega (arith, keeps.same_count),
            )
      ])
    ]

-- Shrinking a list that holds no more than the default size keeps its IDs.
pub midl_shrink-Keeps :
    (os : Allocator) (ids : Idl)
    → IsValid ids
    → count ids ≤ um_max
    → IsValid (midl_shrink os ids)
      × Keeps ids (midl_shrink os ids)
      × ((midl_shrink os ids).alloc ≤ ids.alloc)
unfolding midl_shrink
midl_shrink-Keeps os ids v small =
    elim (Bool-cases (ltb um_max ids.alloc && os.grant ((um_max + 2) * id_size))) [
      | inr stays ↦ rw stays (v, record { same_count = refl; same_entries = refl }, omega arith)
      | inl shrinks ↦
          let large : um_max < ids.alloc = ground arith in
          let keeps : Keeps ids
              (record { alloc = um_max; cells = resize os ids.cells (um_max + 1) }) =
            front-Keeps ids _ (
              take-resize os ids.cells (um_max + 1) (suc (count ids)) (omega arith)
                (omega (arith, v.sized))) in
          rw shrinks (
            record {
              sized = length-resize os ids.cells (um_max + 1);
              fits = omega (arith, keeps.same_count);
            },
            keeps,
            omega arith,
          )
    ]
