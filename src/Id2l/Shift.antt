-- ===== src/Id2l/Shift.antt =====
-- The loop of `mdb_mid2l_insert` that makes room for a pair.
use dlmdb.Base.{
  ℕ, zero, suc, ◌+◌, ◌-◌, ◌≤◌, ◌<◌, ◌≡◌, refl, sym, ◌∙◌, List, [], ◌∷◌, some, true, ltb, lt→ltb,
  dec_lt, length, get_elem?, set, arith, length-set, get_elem?-set_self, get_elem?-set_ne,
}
use dlmdb.Id2l.{Id2, shift_loop}

module _ {P : Type 0} where
  -- The elements of `from` up to `i` are moved up by one; the rest stay.
  pub record Moved (ids : List (Id2 P)) (from i : ℕ) (out : List (Id2 P)) : Type 0 where
    pub same_length : length out ≡ length ids
    pub before : (j : ℕ) → j ≤ from → get_elem? out j ≡ get_elem? ids j
    pub up : (j : ℕ) → from ≤ j → j < i → get_elem? out (suc j) ≡ get_elem? ids j
    pub behind : (j : ℕ) → i < j → get_elem? out j ≡ get_elem? ids j

  get_elem?-some :
      (ids : List (Id2 P)) (i : ℕ) → i < length ids → (e : Id2 P) × (get_elem? ids i ≡ some e)
  get_elem?-some [] i h = elim h [ ]
  get_elem?-some (e ∷ ids) zero h = (e, refl)
  get_elem?-some (e ∷ ids) (suc i) h = get_elem?-some ids i (omega arith)

  -- One round and those after it.
  Moved-round :
      (ids out : List (Id2 P)) (from i : ℕ) (e : Id2 P)
      → from ≤ i
      → suc i < length ids
      → get_elem? ids i ≡ some e
      → Moved (set ids (suc i) e) from i out
      → Moved ids from (suc i) out
  Moved-round ids out from i e le inside got m = record {
    same_length = m.same_length ∙ length-set ids (suc i) e;
    before = λ j h. m.before j h ∙ get_elem?-set_ne ids e (λ q. omega arith);
    up = λ j h k. elim (dec_lt j i) [
      | yes lower ↦ m.up j h lower ∙ get_elem?-set_ne ids e (λ q. omega arith)
      | no last ↦
          let here : j ≡ i = omega arith in
          rw here
            (m.behind (suc i) (omega arith) ∙ get_elem?-set_self ids (suc i) e inside ∙ sym got)
    ];
    behind = λ j h. m.behind j (omega arith) ∙ get_elem?-set_ne ids e (λ q. omega arith);
  }

  shift_loop-round :
      (rounds i : ℕ) (ids : List (Id2 P)) (x : Id2 P)
      → get_elem? ids i ≡ some x
      → ltb (suc i) (length ids) ≡ true
      → shift_loop (suc rounds) (suc i) ids ≡ shift_loop rounds i (set ids (suc i) x)
  unfolding shift_loop
  shift_loop-round rounds i ids x got writable =
      let back : suc i - 1 ≡ i = omega arith in ground (arith, back, got, writable)

  pub shift_loop-Moved :
      (rounds from i : ℕ) (ids : List (Id2 P))
      → i ≡ from + rounds
      → i < length ids
      → (out : List (Id2 P)) × (shift_loop rounds i ids ≡ some out) × Moved ids from i out
  unfolding shift_loop
  shift_loop-Moved zero from i ids e inside = (
    ids,
    refl,
    record {
      same_length = refl;
      before = λ j h. refl;
      up = λ j h k. absurd (omega arith);
      behind = λ j h. refl;
    },
  )
  shift_loop-Moved (suc rounds) from zero ids e inside = absurd (omega arith)
  shift_loop-Moved (suc rounds) from (suc i) ids e inside =
      let (x, got) = get_elem?-some ids i (omega arith) in
      let writable : ltb (suc i) (length ids) ≡ true = lt→ltb (suc i) (length ids) inside in
      let (out, runs, m) =
        shift_loop-Moved rounds from i (set ids (suc i) x) (omega arith)
          (omega (arith, length-set ids (suc i) x)) in
      (
        out,
        shift_loop-round rounds i ids x got writable ∙ runs,
        Moved-round ids out from i x (omega arith) inside got m,
      )
