-- ===== src/Search.antt =====
-- midl.c, the binary search that `mdb_midl_search`, `mdb_mid2l_search` and `mdb_mid3l_search` repeat,
-- over the three-way test `val` of the cell under the cursor: 0 is the first cell behind the count.
pub mod Split
use Prim.Native.Nat.{Ordering}
use mathlib.Core.Logic.{dite}
use mathlib.Core.WellFounded.{Acc}
use dlmdb.Base.{ℕ, ◌+◌, ◌-◌, ◌/◌, ◌%◌, ◌<◌, Option, none, some, word32, dec_lt, lt_wf, arith}

-- `if (val > 0) ++cursor; return cursor;`
abbrev pub after_loop : Ordering → ℕ → ℕ
after_loop Ordering.lt cursor = cursor
after_loop Ordering.eq cursor = cursor
after_loop Ordering.gt cursor = (cursor + 1) % word32

pub half_shrinks : (n : ℕ) → 0 < n → n / 2 < n
half_shrinks n h = omega arith

pub rest_shrinks : (n : ℕ) → 0 < n → n - (n / 2 + 1) < n
rest_shrinks n h = omega arith

-- `probe` gives `val` at a cursor, and `none` for a read outside the array.
module _ (probe : ℕ → Option Ordering) where
  unfoldable pub search_loop : (n base cursor : ℕ) → Ordering → Acc ◌<◌ n → Option ℕ
  search_loop n base cursor val (Acc.intro _ smaller) =
      dite (dec_lt 0 n)
        (λ more.
          let cursor' = (base + n / 2 + 1) % word32 in
          elim (probe cursor') [
            | none ↦ none
            | some Ordering.lt ↦
                search_loop (n / 2) base cursor' Ordering.lt (smaller _ (half_shrinks n more))
            | some Ordering.gt ↦
                search_loop (n - (n / 2 + 1)) cursor' cursor' Ordering.gt
                  (smaller _ (rest_shrinks n more))
            | some Ordering.eq ↦ some cursor'
          ])
        (λ _. some (after_loop val cursor))

  unfoldable pub search : ℕ → Option ℕ
  unfolding search_loop lt_wf dec_lt
  search n = search_loop n 0 1 Ordering.eq (lt_wf.apply n)
