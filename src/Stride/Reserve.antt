-- ===== src/Stride/Reserve.antt =====
-- Room for the lengths of an entry of the cache.
use dlmdb.Base.{
  ℕ, zero, suc, ◌+◌, ◌*◌, ◌≤◌, ◌<◌, ◌≡◌, refl, List, true, false, if◌then◌else◌, leb, ◌==◌, length,
  take, arith, Result, ok, err, enomem, Allocator, resize, take-resize, length-resize, Bool-cases,
  inl, inr, leb→le,
}
use dlmdb.Stride.{StrideEntry, cap_loop, stride_entry_reserve}

-- The fuel is enough: the loop ends by its test or by its `break`.
cap_loop-enough :
    (fuel need newcap : ℕ) → 1 ≤ newcap → need ≤ newcap + fuel → need ≤ cap_loop fuel need newcap
unfolding cap_loop
cap_loop-enough zero need newcap pos h = omega arith
cap_loop-enough (suc fuel) need newcap pos h =
    ground (arith, cap_loop-enough fuel need (newcap * 2))

-- Only the cells differ, and those in use do not; the only failure is `ENOMEM`.
abbrev pub Reserved : StrideEntry → ℕ → Result StrideEntry → Type 0
Reserved entry need (err e) = e ≡ enomem
Reserved entry need (ok room) =
    (cells : List ℕ) × (room ≡ record entry { lengths = cells })
    × (need ≤ length cells)
    × ((m : ℕ) → m ≤ length entry.lengths → take m cells ≡ take m entry.lengths)

reserve_grow :
    (os : Allocator) (entry : StrideEntry) (need newcap : ℕ)
    → need ≤ newcap
    → length entry.lengths < need
    → Reserved entry need (
        if os.grant (4 * newcap)
        then ok (record entry { lengths = resize os entry.lengths newcap })
        else err enomem)
reserve_grow os entry need newcap le short =
    elim (os.grant (4 * newcap))
      as (λ b. Reserved entry need (
        if b then ok (record entry { lengths = resize os entry.lengths newcap }) else err enomem)) [
          | true ↦ (
            resize os entry.lengths newcap,
            refl,
            omega (arith, length-resize os entry.lengths newcap),
            λ m h. take-resize os entry.lengths newcap m (omega arith) h,
          )
          | false ↦ refl
        ]

pub entry_reserve-Reserved :
    (os : Allocator) (entry : StrideEntry) (need : ℕ)
    → Reserved entry need (stride_entry_reserve os entry need)
unfolding stride_entry_reserve
entry_reserve-Reserved os entry need = elim (Bool-cases (leb need (length entry.lengths))) [
  | inl fits ↦ rw fits (entry.lengths, refl, leb→le need (length entry.lengths) fits, λ m h. refl)
  | inr short ↦
      let first = if length entry.lengths == 0 then 16 else length entry.lengths in
      rw short (
        reserve_grow os entry need (cap_loop need need first)
          (cap_loop-enough need need first (ground arith) (ground arith)) (ground arith))
]
