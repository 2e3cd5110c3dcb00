-- ===== src/NodeSearch/Split.antt =====
-- On a page whose keys ascend, the search ends at the one index that splits it.
use Prim.Native.Nat.{Ordering}
use mathlib.Core.Path.{subst}
use dlmdb.Base.{
  ℕ, zero, suc, ◌+◌, ◌-◌, ◌/◌, ◌≤◌, ◌<◌, ◌≡◌, ◌≢◌, refl, sym, Bool, true, false, ◌&&◌,
  if◌then◌else◌, ltb, Result, ok, err, ◌>>=◌, arith, dec_lt, lt→ltb,
}
use dlmdb.NodeSearch.{is_equal, skip_smaller, node_loop, node_search}

-- Every key from `low` on can be read, and the answers run `gt … gt`, at most one `eq`, `lt … lt`.
pub record IsOrdered (probe : ℕ → Result Ordering) (low nkeys : ℕ) : Type 0 where
  pub readable : (i : ℕ) → low ≤ i → i < nkeys → (c : Ordering) × (probe i ≡ ok c)
  pub left_of :
      (i j : ℕ) → low ≤ i → i < j → j < nkeys → probe j ≢ ok Ordering.lt → probe i ≡ ok Ordering.gt
  pub right_of :
      (i j : ℕ) → low ≤ i → i < j → j < nkeys → probe i ≢ ok Ordering.gt → probe j ≡ ok Ordering.lt

-- The nodes before the index are below the key, and those from it on are not.
pub record IsSplit (probe : ℕ → Result Ordering) (low nkeys at : ℕ) : Type 0 where
  pub at_least : low ≤ at
  pub at_most : at ≤ nkeys
  pub before : (i : ℕ) → low ≤ i → i < at → probe i ≡ ok Ordering.gt
  pub from : (i : ℕ) → at ≤ i → i < nkeys → probe i ≢ ok Ordering.gt

lt_gt : {r : Result Ordering} → r ≡ ok Ordering.lt → r ≡ ok Ordering.gt → ⊥
lt_gt e f = cc

eq_lt : {r : Result Ordering} → r ≡ ok Ordering.eq → r ≡ ok Ordering.lt → ⊥
eq_lt e f = cc

eq_gt : {r : Result Ordering} → r ≡ ok Ordering.eq → r ≡ ok Ordering.gt → ⊥
eq_gt e f = cc

lt_eq : Ordering.lt ≡ Ordering.eq → ⊥
lt_eq e = cc

gt_eq : Ordering.gt ≡ Ordering.eq → ⊥
gt_eq e = cc

-- What the loop gives: the index, and whether the key there is the one looked for.
abbrev pub Found : (ℕ → Result Ordering) → ℕ → ℕ → Result (ℕ × Ordering) → Type 0
Found probe first nkeys (err e) = ⊥
Found probe first nkeys (ok out) =
    IsSplit probe first nkeys (skip_smaller out)
    × ((out.1 ≡ Ordering.eq)
        → (skip_smaller out < nkeys) × (probe (skip_smaller out) ≡ ok Ordering.eq))
    × ((out.1 ≢ Ordering.eq)
        → (i : ℕ) → skip_smaller out ≤ i
        → i < nkeys
        → probe i ≡ ok Ordering.lt)

-- One round, by the answer.
abbrev next : (ℕ → Result Ordering) → ℕ → ℕ → ℕ → Ordering → Result (ℕ × Ordering)
next probe rounds low past Ordering.eq = ok ((low + past - 1) / 2, Ordering.eq)
next probe rounds low past Ordering.gt =
    node_loop probe rounds ((low + past - 1) / 2 + 1) past ((low + past - 1) / 2) Ordering.gt
next probe rounds low past Ordering.lt =
    node_loop probe rounds low ((low + past - 1) / 2) ((low + past - 1) / 2) Ordering.lt

loop_next :
    (probe : ℕ → Result Ordering) (rounds low past i : ℕ) (c d : Ordering)
    → low < past
    → probe ((low + past - 1) / 2) ≡ ok d
    → node_loop probe (suc rounds) low past i c ≡ next probe rounds low past d
unfolding node_loop
loop_next probe rounds low past i c Ordering.lt more e =
    let go = lt→ltb low past more in rw (go, e, node_loop) refl
loop_next probe rounds low past i c Ordering.eq more e =
    let go = lt→ltb low past more in rw (go, e, node_loop) refl
loop_next probe rounds low past i c Ordering.gt more e =
    let go = lt→ltb low past more in rw (go, e, node_loop) refl

loop_stop :
    (probe : ℕ → Result Ordering) (rounds low past i : ℕ) (c : Ordering)
    → past ≤ low
    → node_loop probe (suc rounds) low past i c ≡ ok (i, c)
unfolding node_loop
loop_stop probe rounds low past i c few =
    let stop : ltb low past ≡ false = ground arith in rw (stop, node_loop) refl

module _ (probe : ℕ → Result Ordering) (first nkeys : ℕ) (o : IsOrdered probe first nkeys) where
  -- Where the loop stands, and what the last comparison has told.
  record Inv (low past i : ℕ) (cmp_res : Ordering) : Type 0 where
    base : first ≤ low
    span : low ≤ past
    top : past ≤ nkeys
    before : (j : ℕ) → first ≤ j → j < low → probe j ≡ ok Ordering.gt
    from : (j : ℕ) → past ≤ j → j < nkeys → probe j ≡ ok Ordering.lt
    stopped : low ≡ past → (skip_smaller (i, cmp_res) ≡ low) × (cmp_res ≢ Ordering.eq)

  lower :
      (low past i : ℕ) (c : Ordering)
      → Inv low past i c
      → low < past
      → probe ((low + past - 1) / 2) ≡ ok Ordering.lt
      → Inv low ((low + past - 1) / 2) ((low + past - 1) / 2) Ordering.lt
  lower low past i c v more e = record {
    base = v.base;
    span = omega arith;
    top = omega (arith, v.top);
    before = v.before;
    from = λ j h k. elim (dec_lt ((low + past - 1) / 2) j) [
      | yes later ↦
          o.right_of ((low + past - 1) / 2) j (omega (arith, v.base)) later k (λ f. lt_gt e f)
      | no same ↦
          subst (λ x. probe x ≡ ok Ordering.lt) {x = (low + past - 1) / 2} {y = j} (omega arith) e
    ];
    stopped = λ z. (sym z, λ f. lt_eq f);
  }

  upper :
      (low past i : ℕ) (c : Ordering)
      → Inv low past i c
      → low < past
      → probe ((low + past - 1) / 2) ≡ ok Ordering.gt
      → Inv ((low + past - 1) / 2 + 1) past ((low + past - 1) / 2) Ordering.gt
  upper low past i c v more e = record {
    base = omega (arith, v.base);
    span = omega arith;
    top = v.top;
    before = λ j h k. elim (dec_lt j ((low + past - 1) / 2)) [
      | yes earlier ↦
          o.left_of j ((low + past - 1) / 2) h earlier (omega (arith, v.top)) (λ f. lt_gt f e)
      | no same ↦
          subst (λ x. probe x ≡ ok Ordering.gt) {x = (low + past - 1) / 2} {y = j} (omega arith) e
    ];
    from = v.from;
    stopped = λ z. (refl, λ f. gt_eq f);
  }

  hit :
      (low past i : ℕ) (c : Ordering)
      → Inv low past i c
      → low < past
      → probe ((low + past - 1) / 2) ≡ ok Ordering.eq
      → Found probe first nkeys (ok ((low + past - 1) / 2, Ordering.eq))
  hit low past i c v more e =
      let mid = (low + past - 1) / 2 in
      (
        record {
          at_least = omega (arith, v.base);
          at_most = omega (arith, v.top);
          before = λ j h k. o.left_of j mid h k (omega (arith, v.top)) (λ f. eq_lt e f);
          from = λ j h k f. elim (dec_lt mid j) [
            | yes later ↦
                lt_gt (o.right_of mid j (omega (arith, v.base)) later k (λ g. eq_gt e g)) f
            | no same ↦
                eq_gt e (subst (λ x. probe x ≡ ok Ordering.gt) {x = j} {y = mid} (omega arith) f)
          ];
        },
        λ _. (omega (arith, v.top), e),
        λ ne. absurd (ne refl),
      )

  done-Found :
      (low past i : ℕ) (c : Ordering)
      → Inv low past i c
      → low ≡ past
      → Found probe first nkeys (ok (i, c))
  done-Found low past i c v z =
      let (at, ne) = v.stopped z in
      (
        record {
          at_least = omega (arith, v.base, at);
          at_most = omega (arith, v.top, at);
          before = λ j h k. v.before j h (omega (arith, at));
          from = λ j h k f. lt_gt (v.from j (omega (arith, at)) k) f;
        },
        λ e. absurd (ne e),
        λ _ j h k. v.from j (omega (arith, at)) k,
      )

  next-Found :
      (rounds low past i : ℕ) (c d : Ordering)
      → Inv low past i c
      → past ≤ low + suc rounds
      → low < past
      → probe ((low + past - 1) / 2) ≡ ok d
      → ((low past i : ℕ) (c : Ordering)
          → Inv low past i c
          → past ≤ low + rounds
          → Found probe first nkeys (node_loop probe rounds low past i c))
      → Found probe first nkeys (next probe rounds low past d)
  next-Found rounds low past i c Ordering.eq v h more e again = hit low past i c v more e
  next-Found rounds low past i c Ordering.lt v h more e again =
      again low ((low + past - 1) / 2) ((low + past - 1) / 2) Ordering.lt
        (lower low past i c v more e) (omega arith)
  next-Found rounds low past i c Ordering.gt v h more e again =
      again ((low + past - 1) / 2 + 1) past ((low + past - 1) / 2) Ordering.gt
        (upper low past i c v more e) (omega arith)

  loop-Found :
      (rounds low past i : ℕ) (c : Ordering)
      → Inv low past i c
      → past ≤ low + rounds
      → Found probe first nkeys (node_loop probe rounds low past i c)
  unfolding node_loop
  loop-Found zero low past i c v h = done-Found low past i c v (omega (arith, v.span))
  loop-Found (suc rounds) low past i c v h = elim (dec_lt low past) [
    | no few ↦
        subst (Found probe first nkeys) (sym (loop_stop probe rounds low past i c (omega arith)))
          (done-Found low past i c v (omega (arith, v.span)))
    | yes more ↦
        let (d, e) =
          o.readable ((low + past - 1) / 2) (omega (arith, v.base)) (omega (arith, v.top)) in
        subst (Found probe first nkeys) (sym (loop_next probe rounds low past i c d more e))
          (next-Found rounds low past i c d v h more e (loop-Found rounds))
  ]

-- What the search gives: the index that splits the page, and whether the key there is the one looked for.
abbrev pub Searched : (ℕ → Result Ordering) → ℕ → ℕ → Result (ℕ × Bool) → Type 0
Searched probe first nkeys (err e) = ⊥
Searched probe first nkeys (ok out) =
    IsSplit probe first nkeys out.0
    × (out.1 ≡ true → (out.0 < nkeys) × (probe out.0 ≡ ok Ordering.eq))
    × (out.1 ≡ false → (i : ℕ) → out.0 ≤ i → i < nkeys → probe i ≡ ok Ordering.lt)

exact-Searched :
    (probe : ℕ → Result Ordering) (first nkeys : ℕ) (r : Result (ℕ × Ordering))
    → 0 < nkeys
    → Found probe first nkeys r
    → Searched probe first nkeys
        (r >>= λ found. ok (skip_smaller found, is_equal found.1 && ltb 0 nkeys))
exact-Searched probe first nkeys (err e) some_keys found = found
exact-Searched probe first nkeys (ok (i, Ordering.lt)) some_keys (split, same, other) =
    (split, λ e. cc, λ e. other lt_eq)
exact-Searched probe first nkeys (ok (i, Ordering.gt)) some_keys (split, same, other) =
    (split, λ e. cc, λ e. other gt_eq)
exact-Searched probe first nkeys (ok (i, Ordering.eq)) some_keys (split, same, other) =
    let go = lt→ltb 0 nkeys some_keys in (split, λ e. same refl, λ e. cc)

-- On a page with a key behind the first node for a branch page, and with a key for a leaf page, whose keys
-- can be read and ascend: the search ends within as many rounds as there are nodes, and returns the index
-- from 0 or 1 to the number of nodes such that the keys before it are below the key and those from it on
-- are not; it says exactly whether the key there is equal.
pub node_search-Searched :
    (probe : ℕ → Result Ordering) (leaf : Bool) (nkeys : ℕ)
    → (if leaf then 0 else 1) < nkeys
    → IsOrdered probe (if leaf then 0 else 1) nkeys
    → Searched probe (if leaf then 0 else 1) nkeys (node_search probe leaf nkeys)
unfolding node_search
node_search-Searched probe leaf nkeys some_keys o =
    exact-Searched probe (if leaf then 0 else 1) nkeys _ (omega arith) (
      loop-Found probe (if leaf then 0 else 1) nkeys o nkeys (if leaf then 0 else 1) nkeys 0
        Ordering.eq
        (record {
          base = omega arith;
          span = omega arith;
          top = omega arith;
          before = λ j h k. absurd (omega arith);
          from = λ j h k. absurd (omega arith);
          stopped = λ z. absurd (omega arith);
        })
        (omega arith))
