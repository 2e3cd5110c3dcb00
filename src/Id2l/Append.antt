-- ===== src/Id2l/Append.antt =====
-- `mdb_mid2l_append`, for an ID above all those of the list.
use mathlib.Core.Path.{subst}
use dlmdb.Base.{
  ℕ, ◌+◌, ◌-◌, ◌%◌, ◌≤◌, ◌<◌, ◌≡◌, refl, sym, ap, ◌∙◌, inl, inr, List, some, true, false, ltb, leb,
  lt→ltb, dec_lt, word32, length, set, arith, Bool-cases, Option-cases,
}
use dlmdb.Search.Split.{Returns}
use dlmdb.Idl.{um_max}
use dlmdb.Id2l.{
  Id2, done, count2, mid2l_search, bump_count, shift_loop, holds_at, mid2l_insert, mid2l_append,
}
use dlmdb.Id2l.Sorted.{mid_of, IsList, Ascends, Finds, mid2l_search-Finds}
use dlmdb.Id2l.Insert.{insert_at-moved, bump-length, bump-count}
use dlmdb.Id2l.Outcome.{insert-full, insert-at, holds_at-mid_of}

module _ {P : Type 0} where
  no_shift : (c x : ℕ) (ids : List (Id2 P)) → c ≡ x → shift_loop (c - x) c ids ≡ some ids
  unfolding shift_loop
  no_shift c x ids e =
      let none_left : c - x ≡ 0 = omega arith in ap (λ r. shift_loop r c ids) none_left

  append-set :
      (ids : List (Id2 P)) (id : Id2 P)
      → IsList ids
      → leb um_max (count2 ids) ≡ false
      → mid2l_append ids id ≡ (done, set (bump_count ids) (count2 ids + 1) id)
  unfolding mid2l_append
  append-set ids id v room =
      let many : count2 (bump_count ids) ≡ count2 ids + 1 =
        bump-count ids (omega (arith, v.sized)) (ground arith) in
      let writable : ltb (count2 ids + 1) (length (bump_count ids)) ≡ true =
        lt→ltb (count2 ids + 1) (length (bump_count ids))
          (ground (arith, bump-length ids, v.sized)) in
      rw (room, many, writable) refl

  append_found :
      (ids : List (Id2 P)) (id : Id2 P) (x : ℕ)
      → IsList ids
      → ((i : ℕ) → 1 ≤ i → i ≤ count2 ids → mid_of ids i < id.mid)
      → Finds ids id.mid x
      → mid2l_search ids id.mid ≡ some x
      → mid2l_append ids id ≡ mid2l_insert ids id
  append_found ids id x v above f found =
      let last : x ≡ count2 ids + 1 = elim (dec_lt (count2 ids) x) [
        | yes out ↦ omega (arith, f.at_most)
        | no inside ↦ absurd (
            omega
              (arith, f.not_below x (omega arith) (omega arith), above x f.at_least (omega arith)))
      ] in
      let inside : ltb x 1 ≡ false = ground (arith, f.at_least) in
      let new : holds_at ids x id.mid ≡ false = ground (arith, holds_at-mid_of ids x id.mid v) in
      elim (Bool-cases (leb um_max (count2 ids))) [
        | inl full ↦
            unfold mid2l_append in rw full (sym (insert-full ids id x found inside new full))
        | inr room ↦
            let many : count2 (bump_count ids) ≡ count2 ids + 1 =
              bump-count ids (omega (arith, v.sized)) (ground arith) in
            let whole : count2 (bump_count ids) % word32 ≡ count2 ids + 1 =
              ground (arith, many, v.fits) in
            let writable : ltb x (length (bump_count ids)) ≡ true =
              lt→ltb x (length (bump_count ids)) (ground (arith, bump-length ids, v.sized)) in
            append-set ids id v room
            ∙ ap (λ k. (done, set (bump_count ids) k id)) (sym last)
            ∙ sym (
                insert_at-moved ids (bump_count ids) x (count2 ids + 1) id whole
                  (no_shift (count2 ids + 1) x (bump_count ids) (sym last)) writable)
            ∙ sym (insert-at ids id x found inside new room)
      ]

  -- On a list in strictly ascending order that has its full array, appending a pair whose ID is above all
  -- others returns and leaves what its insertion does.
  pub mid2l_append-insert :
      (ids : List (Id2 P)) (id : Id2 P)
      → IsList ids
      → Ascends ids
      → ((i : ℕ) → 1 ≤ i → i ≤ count2 ids → mid_of ids i < id.mid)
      → mid2l_append ids id ≡ mid2l_insert ids id
  mid2l_append-insert ids id v asc above =
      let finds = mid2l_search-Finds ids id.mid v asc in
      elim (Option-cases (mid2l_search ids id.mid)) [
        | inl e ↦ absurd (subst (λ o. Returns o (Finds ids id.mid)) e finds)
        | inr (x, e) ↦
            append_found ids id x v above (subst (λ o. Returns o (Finds ids id.mid)) e finds) e
      ]
