-- ===== src/Id2l/Insert.antt =====
-- The array that `mdb_mid2l_insert` leaves where it inserts.
use dlmdb.Base.{
  ℕ, zero, suc, ◌+◌, ◌-◌, ◌%◌, ◌≤◌, ◌<◌, ◌≡◌, refl, ap, ◌∙◌, ◌⊎◌, inl, inr, List, [], ◌∷◌, Option,
  none, some, true, ltb, lt→ltb, if◌then◌else◌, word32, length, get_elem?, set, arith,
}
use dlmdb.Idl.{um_max}
use dlmdb.Id2l.{Id2, Status, done, fault, count2, bump_count, shift_loop, insert_at}
use dlmdb.Id2l.Sorted.{mid_of, IsList, Ascends}
use dlmdb.Id2l.Shift.{Moved, shift_loop-Moved}

module _ {P : Type 0} where
  -- The pair stands at `at`, those before it where they were, and the others one further.
  pub record Inserted (ids : List (Id2 P)) (id : Id2 P) (out : List (Id2 P)) : Type 0 where
    pub at : ℕ
    pub at_least : 1 ≤ at
    pub at_most : at ≤ count2 ids + 1
    pub counted : count2 out ≡ count2 ids + 1
    pub here : get_elem? out at ≡ some id
    pub before : (i : ℕ) → 1 ≤ i → i < at → get_elem? out i ≡ get_elem? ids i
    pub after : (i : ℕ) → at ≤ i → i ≤ count2 ids → get_elem? out (suc i) ≡ get_elem? ids i
    pub valid : IsList out
    pub ascends : Ascends out

  pub bump-length : (ids : List (Id2 P)) → length (bump_count ids) ≡ length ids
  bump-length [] = refl
  bump-length (head ∷ ids) = refl

  pub bump-count :
      (ids : List (Id2 P))
      → 0 < length ids
      → count2 ids < um_max
      → count2 (bump_count ids) ≡ count2 ids + 1
  bump-count [] h k = absurd (omega arith)
  bump-count (head ∷ ids) h k = omega arith

  pub bump-get :
      (ids : List (Id2 P)) (i : ℕ) → 1 ≤ i → get_elem? (bump_count ids) i ≡ get_elem? ids i
  bump-get [] i h = refl
  bump-get (head ∷ ids) zero h = absurd (omega arith)
  bump-get (head ∷ ids) (suc i) h = refl

  pub count2-mid_of : (ids : List (Id2 P)) → count2 ids ≡ mid_of ids 0
  count2-mid_of [] = refl
  count2-mid_of (head ∷ ids) = refl

  pub mid_of-cong :
      (ids out : List (Id2 P)) (i j : ℕ)
      → get_elem? out i ≡ get_elem? ids j
      → mid_of out i ≡ mid_of ids j
  mid_of-cong ids out i j e = ap (λ (o : Option (Id2 P)). elim o [ none ↦ 0 | some x ↦ x.mid ]) e

  pub insert_at-moved :
      (ids moved : List (Id2 P)) (x c : ℕ) (id : Id2 P)
      → count2 (bump_count ids) % word32 ≡ c
      → shift_loop (c - x) c (bump_count ids) ≡ some moved
      → ltb x (length moved) ≡ true
      → insert_at ids x id ≡ (done, set moved x id)
  insert_at-moved ids moved x c id whole runs writable =
      ap
        (λ (o : Option (List (Id2 P))). elim o as (λ _. Status × List (Id2 P)) [
          | none ↦ (fault, ids)
          | some m ↦ if ltb x (length m) then (done, set m x id) else (fault, ids)
        ])
        (ap (λ k. shift_loop (k - x) k (bump_count ids)) whole ∙ runs)
      ∙ rw writable refl

  -- The array after the loop and the last write.
  pub insert_at-writes :
      (ids : List (Id2 P)) (x : ℕ) (id : Id2 P)
      → IsList ids
      → count2 ids < um_max
      → x ≤ count2 ids + 1
      → (moved : List (Id2 P)) × (insert_at ids x id ≡ (done, set moved x id))
        × Moved (bump_count ids) x (count2 ids + 1) moved
  insert_at-writes ids x id v less le =
      let counted = bump_count ids in
      let many : count2 counted ≡ count2 ids + 1 = bump-count ids (omega (arith, v.sized)) less in
      let whole : count2 counted % word32 ≡ count2 ids + 1 = omega (arith, many) in
      let (moved, runs, m) =
        shift_loop-Moved (count2 ids + 1 - x) x (count2 ids + 1) counted (omega arith)
          (omega (arith, bump-length ids, v.sized)) in
      let writable : ltb x (length moved) ≡ true =
        lt→ltb x (length moved) (omega (arith, m.same_length, bump-length ids, v.sized)) in
      (moved, insert_at-moved ids moved x (count2 ids + 1) id whole runs writable, m)

  -- Where an element of the new array comes from.
  abbrev pub Origin : List (Id2 P) → ℕ → Id2 P → List (Id2 P) → ℕ → Type 0
  Origin ids x id out j =
      ((j < x) × (mid_of out j ≡ mid_of ids j))
      ⊎ (((j ≡ x) × (mid_of out j ≡ id.mid))
          ⊎ ((k : ℕ) × (j ≡ suc k) × (x ≤ k) × (mid_of out j ≡ mid_of ids k)))

  pub insert-Ascends :
      (ids out : List (Id2 P)) (x : ℕ) (id : Id2 P)
      → Ascends ids
      → ((i : ℕ) → 1 ≤ i → i < x → mid_of ids i < id.mid)
      → ((i : ℕ) → x ≤ i → i ≤ count2 ids → id.mid < mid_of ids i)
      → 1 ≤ x
      → x ≤ count2 ids + 1
      → ((j : ℕ) → 1 ≤ j → j ≤ count2 ids + 1 → Origin ids x id out j)
      → count2 out ≡ count2 ids + 1
      → Ascends out
  insert-Ascends ids out x id asc low high pos top from total i j one less le =
      elim (from i one (omega arith)) [
        | inl (i_low, i_is) ↦ elim (from j (omega arith) (omega arith)) [
          | inl (j_low, j_is) ↦ omega (arith, i_is, j_is, asc i j one less (omega arith))
          | inr (inl (j_at, j_is)) ↦ omega (arith, i_is, j_is, low i one i_low)
          | inr (inr (k, j_suc, j_high, j_is)) ↦
              omega (arith, i_is, j_is, low i one i_low, high k j_high (omega arith))
        ]
        | inr (inl (i_at, i_is)) ↦ elim (from j (omega arith) (omega arith)) [
          | inl (j_low, j_is) ↦ absurd (omega arith)
          | inr (inl (j_at, j_is)) ↦ absurd (omega arith)
          | inr (inr (k, j_suc, j_high, j_is)) ↦
              omega (arith, i_is, j_is, high k j_high (omega arith))
        ]
        | inr (inr (h, i_suc, i_high, i_is)) ↦ elim (from j (omega arith) (omega arith)) [
          | inl (j_low, j_is) ↦ absurd (omega arith)
          | inr (inl (j_at, j_is)) ↦ absurd (omega arith)
          | inr (inr (k, j_suc, j_high, j_is)) ↦
              omega (arith, i_is, j_is, asc h k (omega arith) (omega arith) (omega arith))
        ]
      ]
