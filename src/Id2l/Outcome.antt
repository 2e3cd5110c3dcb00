-- ===== src/Id2l/Outcome.antt =====
-- `mdb_mid2l_insert` on a list in ascending order, whatever it returns.
use mathlib.Core.Path.{subst}
use dlmdb.Base.{
  leb→le, ℕ, zero, suc, ◌+◌, ◌≤◌, ◌<◌, ◌≡◌, ◌≢◌, refl, sym, ap, ◌∙◌, inl, inr, List, Option, none,
  some, true, false, ◌&&◌, ltb, leb, ◌==◌, dec_lt, length, get_elem?, set, arith, length-set,
  get_elem?-set_self, get_elem?-set_ne, Bool-cases, Option-cases,
}
use dlmdb.Search.Split.{Returns}
use dlmdb.Idl.{um_max}
use dlmdb.Id2l.{
  Id2, Status, done, duplicate, too_big, fault, count2, mid2l_search, bump_count, insert_at,
  holds_at, mid2l_insert,
}
use dlmdb.Id2l.Sorted.{mid_of, IsList, Ascends, Finds, mid_at-mid_of, mid2l_search-Finds}
use dlmdb.Id2l.Insert.{
  Inserted, Origin, insert_at-writes, insert-Ascends, bump-length, bump-count, bump-get,
  count2-mid_of, mid_of-cong,
}

module _ {P : Type 0} where
  origin :
      (ids out : List (Id2 P)) (x : ℕ) (id : Id2 P)
      → get_elem? out x ≡ some id
      → ((i : ℕ) → 1 ≤ i → i < x → get_elem? out i ≡ get_elem? ids i)
      → ((i : ℕ) → x ≤ i → i ≤ count2 ids → get_elem? out (suc i) ≡ get_elem? ids i)
      → (j : ℕ) → 1 ≤ j
      → j ≤ count2 ids + 1
      → Origin ids x id out j
  origin ids out x id here before after zero one le = absurd (omega arith)
  origin ids out x id here before after (suc k) one le = elim (dec_lt (suc k) x) [
    | yes lower ↦ inl (lower, mid_of-cong ids out (suc k) (suc k) (before (suc k) one lower))
    | no up ↦ elim (dec_lt x (suc k)) [
      | yes higher ↦ inr (
          inr (
            k,
            refl,
            omega arith,
            mid_of-cong ids out (suc k) k (after k (omega arith) (omega arith)),
          ))
      | no same ↦
          let eq : suc k ≡ x = omega arith in
          inr (
            inl (
              eq,
              ap (mid_of out) eq
                  ∙ ap (λ (o : Option (Id2 P)). elim o [ none ↦ 0 | some y ↦ y.mid ]) here,
            ))
    ]
  ]

  insert_at-Inserted :
      (ids : List (Id2 P)) (x : ℕ) (id : Id2 P)
      → IsList ids
      → Ascends ids
      → count2 ids < um_max
      → Finds ids id.mid x
      → ((i : ℕ) → x ≤ i → i ≤ count2 ids → id.mid < mid_of ids i)
      → (out : List (Id2 P)) × (insert_at ids x id ≡ (done, out)) × Inserted ids id out
  insert_at-Inserted ids x id v asc less f high =
      let counted = bump_count ids in
      let (moved, runs, m) = insert_at-writes ids x id v less f.at_most in
      let out = set moved x id in
      let long : length out ≡ length ids =
        omega (arith, length-set moved x id, m.same_length, bump-length ids) in
      let total : count2 out ≡ count2 ids + 1 =
        count2-mid_of out
        ∙ mid_of-cong counted out 0 0
            (get_elem?-set_ne moved id (λ q. omega (arith, f.at_least)) ∙ m.before 0 (omega arith))
        ∙ sym (count2-mid_of counted)
        ∙ bump-count ids (omega (arith, v.sized)) less in
      let here : get_elem? out x ≡ some id =
        get_elem?-set_self moved x id
          (omega (arith, m.same_length, bump-length ids, v.sized, f.at_most)) in
      let before : (i : ℕ) → 1 ≤ i → i < x → get_elem? out i ≡ get_elem? ids i = λ i one lower.
        get_elem?-set_ne moved id (λ q. omega arith)
        ∙ m.before i (omega arith)
        ∙ bump-get ids i one in
      let after : (i : ℕ) → x ≤ i → i ≤ count2 ids → get_elem? out (suc i) ≡ get_elem? ids i =
        λ i higher le.
          get_elem?-set_ne moved id (λ q. omega arith)
          ∙ m.up i higher (omega arith)
          ∙ bump-get ids i (omega (arith, f.at_least)) in
      (
        out,
        runs,
        record {
          at = x;
          at_least = f.at_least;
          at_most = f.at_most;
          counted = total;
          here = here;
          before = before;
          after = after;
          valid = record { sized = omega (arith, long, v.sized); fits = omega (arith, total) };
          ascends =
              insert-Ascends ids out x id asc f.below high f.at_least f.at_most
                (λ j one le. origin ids out x id here before after j one le) total;
        },
      )

  -- What each status means.
  abbrev pub Outcome : List (Id2 P) → Id2 P → Status × List (Id2 P) → Type 0
  Outcome ids id (done, out) = Inserted ids id out
  Outcome ids id (duplicate, out) =
      (out ≡ ids) × ((i : ℕ) × (1 ≤ i) × (i ≤ count2 ids) × (mid_of ids i ≡ id.mid))
  Outcome ids id (too_big, out) =
      (out ≡ ids)
      × (count2 ids ≡ um_max)
      × ((i : ℕ) → 1 ≤ i → i ≤ count2 ids → mid_of ids i ≢ id.mid)
  Outcome ids id (fault, out) = ⊥

  pub holds_at-mid_of :
      (ids : List (Id2 P)) (x m : ℕ)
      → IsList ids
      → holds_at ids x m ≡ (leb x (count2 ids) && mid_of ids x == m)
  holds_at-mid_of ids x m v = elim (dec_lt (count2 ids) x) [
    | yes out ↦ ground arith
    | no inside ↦ ground (arith, mid_at-mid_of ids x (omega (arith, v.sized, v.fits)))
  ]

  module _ (ids : List (Id2 P)) (id : Id2 P) (x : ℕ) (found : mid2l_search ids id.mid ≡ some x)
      (inside : ltb x 1 ≡ false) where
    insert-duplicate : holds_at ids x id.mid ≡ true → mid2l_insert ids id ≡ (duplicate, ids)
    unfolding mid2l_insert
    insert-duplicate same = rw (found, inside, same, mid2l_insert) refl

    pub insert-full :
        holds_at ids x id.mid ≡ false
        → leb um_max (count2 ids) ≡ true
        → mid2l_insert ids id ≡ (too_big, ids)
    unfolding mid2l_insert
    insert-full differs full = rw (found, inside, differs, full, mid2l_insert) refl

    pub insert-at :
        holds_at ids x id.mid ≡ false
        → leb um_max (count2 ids) ≡ false
        → mid2l_insert ids id ≡ insert_at ids x id
    unfolding mid2l_insert
    insert-at differs room = rw (found, inside, differs, room, mid2l_insert) refl

  insert_found :
      (ids : List (Id2 P)) (id : Id2 P) (x : ℕ)
      → IsList ids
      → Ascends ids
      → Finds ids id.mid x
      → mid2l_search ids id.mid ≡ some x
      → Outcome ids id (mid2l_insert ids id)
  insert_found ids id x v asc f found =
      let inside : ltb x 1 ≡ false = ground (arith, f.at_least) in
      let test = holds_at-mid_of ids x id.mid v in
      elim (Bool-cases (holds_at ids x id.mid)) [
        | inl same ↦
            let le : x ≤ count2 ids = ground (arith, test, same) in
            let eq : mid_of ids x ≡ id.mid = ground (arith, test, same) in
            subst (Outcome ids id) (sym (insert-duplicate ids id x found inside same))
              (refl, (x, f.at_least, le, eq))
        | inr differs ↦
            let here : x ≤ count2 ids → mid_of ids x ≢ id.mid =
              λ le e. ground (arith, test, differs) in
            let high : (i : ℕ) → x ≤ i → i ≤ count2 ids → id.mid < mid_of ids i = λ i ge le.
              elim (dec_lt x i) [
                | yes up ↦
                    omega
                      (arith, f.not_below x (omega arith) (omega arith), asc x i f.at_least up le)
                | no at ↦
                    let eq : i ≡ x = omega arith in
                    let ne = here (omega arith) in
                    rw eq (omega (arith, f.not_below x (omega arith) (omega arith), ne))
              ] in
            elim (Bool-cases (leb um_max (count2 ids))) [
              | inl full ↦
                  let le = leb→le um_max (count2 ids) full in
                  subst (Outcome ids id) (sym (insert-full ids id x found inside differs full)) (
                    refl,
                    omega (arith, le, v.fits),
                    λ i one last e. elim (dec_lt i x) [
                      | yes lower ↦ absurd (omega (arith, f.below i one lower, e))
                      | no up ↦ absurd (omega (arith, high i (omega arith) last, e))
                    ],
                  )
              | inr room ↦
                  let less : count2 ids < um_max = ground arith in
                  let (out, runs, inserted) = insert_at-Inserted ids x id v asc less f high in
                  subst (Outcome ids id) (sym (insert-at ids id x found inside differs room ∙ runs))
                    inserted
            ]
      ]

  -- On a list in strictly ascending order that has its full array, an insertion reads and writes inside the
  -- array only. It puts the pair in its place, with the others kept in order around it, and the list stays
  -- ascending; or, for an ID that the list has, it leaves the list and says so; or, for one that a full list
  -- does not have, it leaves the list and says that it is too big.
  pub mid2l_insert-Outcome :
      (ids : List (Id2 P)) (id : Id2 P)
      → IsList ids
      → Ascends ids
      → Outcome ids id (mid2l_insert ids id)
  mid2l_insert-Outcome ids id v asc =
      let finds = mid2l_search-Finds ids id.mid v asc in
      elim (Option-cases (mid2l_search ids id.mid)) [
        | inl e ↦ absurd (subst (λ o. Returns o (Finds ids id.mid)) e finds)
        | inr (x, e) ↦
            insert_found ids id x v asc (subst (λ o. Returns o (Finds ids id.mid)) e finds) e
      ]
