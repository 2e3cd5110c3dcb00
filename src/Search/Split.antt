-- ===== src/Search/Split.antt =====
-- On cells that are strictly ordered by the test, the search ends inside the array at the one position
-- that splits it.
use Prim.Native.Nat.{Ordering}
use mathlib.Core.Logic.{dif_pos, dif_neg}
use mathlib.Core.WellFounded.{Acc}
use native.Mathlib.Bridge.{le_prop}
use dlmdb.Base.{
  ℕ, ◌+◌, ◌-◌, ◌/◌, ◌%◌, ◌≤◌, ◌<◌, ◌≡◌, ◌≢◌, Option, none, some, word32, dec_lt, lt_wf, arith,
}
use dlmdb.Search.{after_loop, search_loop, search, half_shrinks, rest_shrinks}

-- Every cell of 1..len can be read, and the answers run `gt … gt`, at most one `eq`, `lt … lt`.
pub record IsOrdered (probe : ℕ → Option Ordering) (len : ℕ) : Type 0 where
  pub readable : (i : ℕ) → 1 ≤ i → i ≤ len → probe i ≢ none
  pub left_of :
      (i j : ℕ) → 1 ≤ i → i < j → j ≤ len → probe j ≢ some Ordering.lt → probe i ≡ some Ordering.gt
  pub right_of :
      (i j : ℕ) → 1 ≤ i → i < j → j ≤ len → probe i ≢ some Ordering.gt → probe j ≡ some Ordering.lt

-- The cells before `r` answer `gt`, and no cell from `r` on does.
pub record IsSplit (probe : ℕ → Option Ordering) (len r : ℕ) : Type 0 where
  pub at_least : 1 ≤ r
  pub at_most : r ≤ len + 1
  pub before : (i : ℕ) → 1 ≤ i → i < r → probe i ≡ some Ordering.gt
  pub from : (i : ℕ) → r ≤ i → i ≤ len → probe i ≢ some Ordering.gt

-- What the loop keeps: where `cursor` stands follows from the last answer.
record Inv (probe : ℕ → Option Ordering) (len n base cursor : ℕ) (val : Ordering) : Type 0 where
  inside : base + n ≤ len
  before : (i : ℕ) → 1 ≤ i → i ≤ base → probe i ≡ some Ordering.gt
  behind : (i : ℕ) → base + n < i → i ≤ len → probe i ≢ some Ordering.gt
  stopped : n ≡ 0 → after_loop val cursor ≡ base + 1

abbrev pub Returns : Option ℕ → (ℕ → Type 0) → Type 0
Returns none P = ⊥
Returns (some r) P = P r

pub Returns_map :
    (o : Option ℕ) {P Q : ℕ → Type 0} → ((r : ℕ) → P r → Q r) → Returns o P → Returns o Q
Returns_map none f h = h
Returns_map (some r) f h = f r h

module _ (probe : ℕ → Option Ordering) (len : ℕ) (o : IsOrdered probe len)
    (small : len + 1 < word32) where
  none_behind :
      (m i : ℕ) → 1 ≤ m → m ≤ i → i ≤ len → probe m ≢ some Ordering.gt → probe i ≢ some Ordering.gt
  none_behind m i pos h k d e = elim (dec_lt m i) [
    | yes later ↦ d (o.left_of m i pos later k (λ f. cc))
    | no same ↦ let here : m ≡ i = omega arith in d (rw here e)
  ]

  all_before :
      (m i : ℕ) → 1 ≤ i → i ≤ m → m ≤ len → probe m ≡ some Ordering.gt → probe i ≡ some Ordering.gt
  all_before m i pos h k e = elim (dec_lt i m) [
    | yes earlier ↦ o.left_of i m pos earlier k (λ f. cc)
    | no same ↦ let here : i ≡ m = omega arith in rw here e
  ]

  module _ (n base cursor : ℕ) (val : Ordering) (inv : Inv probe len n base cursor val)
      (more : 0 < n) where
    abbrev mid : ℕ
    mid = (base + n / 2 + 1) % word32

    mid_lem : mid ≡ base + n / 2 + 1
    mid_lem = omega (arith, inv.inside)

    lower-Inv : probe mid ≡ some Ordering.lt → Inv probe len (n / 2) base mid Ordering.lt
    lower-Inv e = record {
      inside = omega (arith, inv.inside);
      before = inv.before;
      behind =
          λ i h k. none_behind mid i (omega (arith, mid_lem)) (omega (arith, mid_lem)) k (λ f. cc);
      stopped = λ z. omega (arith, mid_lem);
    }

    upper-Inv : probe mid ≡ some Ordering.gt → Inv probe len (n - (n / 2 + 1)) mid mid Ordering.gt
    upper-Inv e = record {
      inside = omega (arith, inv.inside, mid_lem);
      before = λ i h k. all_before mid i h k (omega (arith, mid_lem, inv.inside)) e;
      behind = λ i h k. inv.behind i (omega (arith, mid_lem)) k;
      stopped = λ z. omega (arith, mid_lem, inv.inside);
    }

    hit-IsSplit : probe mid ≡ some Ordering.eq → IsSplit probe len mid
    hit-IsSplit e = record {
      at_least = omega (arith, mid_lem);
      at_most = omega (arith, mid_lem, inv.inside);
      before = λ i h k. o.left_of i mid h k (omega (arith, mid_lem, inv.inside)) (λ f. cc);
      from = λ i h k. none_behind mid i (omega (arith, mid_lem)) h k (λ f. cc);
    }

  search_loop-IsSplit :
      (n base cursor : ℕ) (val : Ordering) (w : Acc ◌<◌ n)
      → Inv probe len n base cursor val
      → Returns (search_loop probe n base cursor val w) (IsSplit probe len)
  unfolding search_loop
  search_loop-IsSplit n base cursor val (Acc.intro _ smaller) inv = elim (dec_lt 0 n) [
    | no done ↦ rw (dif_neg (dec_lt 0 n) done) (
        let end : after_loop val cursor ≡ base + 1 = inv.stopped (omega arith) in
        rw end (record {
          at_least = omega arith;
          at_most = omega (arith, inv.inside);
          before = λ i h k. inv.before i h (omega arith);
          from = λ i h k. inv.behind i (omega arith) k;
        }))
    | yes more ↦ rw (dif_pos (dec_lt 0 n) le_prop more) (
        ground (
          arith,
          mid_lem n base cursor val inv more,
          o.readable (mid n base cursor val inv more),
          lower-Inv n base cursor val inv more,
          upper-Inv n base cursor val inv more,
          hit-IsSplit n base cursor val inv more,
          search_loop-IsSplit (n / 2) base (mid n base cursor val inv more) Ordering.lt
              (smaller (n / 2) (half_shrinks n more)),
          search_loop-IsSplit (n - (n / 2 + 1)) (mid n base cursor val inv more)
              (mid n base cursor val inv more) Ordering.gt
              (smaller (n - (n / 2 + 1)) (rest_shrinks n more)),
        ))
  ]

  -- The search reads inside the array only and returns a position from 1 to len + 1: the cells before
  -- it answer `gt`, and no cell from it on does.
  pub search-IsSplit : Returns (search probe len) (IsSplit probe len)
  unfolding search
  search-IsSplit = search_loop-IsSplit len 0 1 Ordering.eq (lt_wf.apply len) (record {
    inside = omega arith;
    before = λ i h k. absurd (omega arith);
    behind = λ i h k. absurd (omega arith);
    stopped = λ z. omega arith;
  })
