-- ===== src/Freelist/Ranges.antt =====
-- The search for a range of pages, and its removal.
use mathlib.Core.Path.{subst}
use dlmdb.Base.{
  if◌then◌else◌, ==_iff, ℕ, zero, suc, ◌+◌, ◌-◌, ◌≤◌, ◌<◌, ◌≡◌, refl, sym, ap, ◌∙◌, List, true,
  false, ltb, ◌==◌, length, get_or, set, none, some, arith, length-set, length-take, get_or-take,
  ℕ_discrete, dec_lt, inl, inr, Bool-cases, lt→ltb, some_inj,
}
use dlmdb.Pages.Shift.{get_or-set_self, get_or-set_ne}
use dlmdb.Freelist.{seek_range, straggle, take_range}

-- Each page is above the next one.
abbrev pub IsDescending : List ℕ → Type 0
IsDescending mop = (i : ℕ) → suc i < length mop → get_or mop (suc i) 0 < get_or mop i 0

-- Entries are at least as far apart as their places.
pub apart :
    (mop : List ℕ) (i d : ℕ)
    → IsDescending mop
    → i + d < length mop
    → get_or mop (i + d) 0 + d ≤ get_or mop i 0
apart mop i zero desc h =
    let here : get_or mop (i + 0) 0 ≡ get_or mop i 0 =
      ap (λ k. get_or mop k 0) {x = i + 0} {y = i} (omega arith) in
    omega (arith, here)
apart mop i (suc d) desc h =
    let next : get_or mop (i + suc d) 0 ≡ get_or mop (suc (i + d)) 0 =
      ap (λ k. get_or mop k 0) {x = i + suc d} {y = suc (i + d)} (omega arith) in
    omega (arith, apart mop i d desc (omega arith), desc (i + d) (omega arith), next)

length-straggle :
    (mop : List ℕ) (num j rounds : ℕ) → length (straggle mop num j rounds) ≡ length mop
unfolding straggle
length-straggle mop num j zero = refl
length-straggle mop num j (suc rounds) =
    length-straggle (set mop j (get_or mop (j + num) 0)) num (suc j) rounds
    ∙ length-set mop j (get_or mop (j + num) 0)

straggle_kept :
    (mop : List ℕ) (num j rounds k : ℕ)
    → k < j
    → get_or (straggle mop num j rounds) k 0 ≡ get_or mop k 0
unfolding straggle
straggle_kept mop num j zero k h = refl
straggle_kept mop num j (suc rounds) k h =
    straggle_kept (set mop j (get_or mop (j + num) 0)) num (suc j) rounds k (omega arith)
    ∙ get_or-set_ne mop j k (get_or mop (j + num) 0) (λ e. omega arith)

straggle_moved :
    (mop : List ℕ) (num j rounds k : ℕ)
    → 0 < num
    → j + rounds ≤ length mop
    → j ≤ k
    → k < j + rounds
    → get_or (straggle mop num j rounds) k 0 ≡ get_or mop (k + num) 0
unfolding straggle
straggle_moved mop num j zero k pos room le less = absurd (omega arith)
straggle_moved mop num j (suc rounds) k pos room le less =
    let next = set mop j (get_or mop (j + num) 0) in
    elim (ℕ_discrete j k) [
      | yes first ↦
          straggle_kept next num (suc j) rounds k (omega arith)
          ∙ ap (λ i. get_or next i 0) (sym first)
          ∙ get_or-set_self mop j (get_or mop (j + num) 0) (omega arith)
          ∙ ap (λ i. get_or mop (i + num) 0) first
      | no behind ↦
          straggle_moved next num (suc j) rounds k pos
            (omega (arith, length-set mop j (get_or mop (j + num) 0))) (omega arith) (omega arith)
          ∙ get_or-set_ne mop j (k + num) (get_or mop (j + num) 0) (λ e. omega arith)
    ]

-- Where an entry of the new list was.
abbrev pub source : ℕ → ℕ → ℕ → ℕ
source num j k = if ltb k j then k else k + num

pub length-take_range :
    (mop : List ℕ) (num i : ℕ) → length (take_range mop num i) ≡ length mop - num
unfolding take_range
length-take_range mop num i =
    let j = suc i - num in
    length-take (length mop - num) (straggle mop num j (length mop - num - j))
    ∙ omega (arith, length-straggle mop num j (length mop - num - j))

pub take_range_get :
    (mop : List ℕ) (num i k : ℕ)
    → 0 < num
    → num ≤ suc i
    → i < length mop
    → k < length mop - num
    → get_or (take_range mop num i) k 0 ≡ get_or mop (source num (suc i - num) k) 0
unfolding take_range
take_range_get mop num i k pos fits inside less =
    let j = suc i - num in
    let rounds = length mop - num - j in
    get_or-take (length mop - num) k (straggle mop num j rounds) 0 less ∙ elim (dec_lt k j) [
      | yes before ↦
          let here : source num j k ≡ k = ground arith in
          straggle_kept mop num j rounds k before ∙ ap (λ x. get_or mop x 0) (sym here)
      | no behind ↦
          let here : source num j k ≡ k + num = ground arith in
          straggle_moved mop num j rounds k pos (omega arith) (omega arith) (omega arith)
          ∙ ap (λ x. get_or mop x 0) (sym here)
    ]

range_step :
    (mop : List ℕ) (n2 i : ℕ)
    → n2 < suc i
    → (get_or mop (i - n2) 0 == get_or mop i 0 + n2) ≡ false
    → seek_range mop n2 (suc i) ≡ seek_range mop n2 i
unfolding seek_range
range_step mop n2 i more other = let go = lt→ltb n2 (suc i) more in rw (go, other, seek_range) refl

range_hit :
    (mop : List ℕ) (n2 i : ℕ)
    → n2 < suc i
    → (get_or mop (i - n2) 0 == get_or mop i 0 + n2) ≡ true
    → seek_range mop n2 (suc i) ≡ some i
unfolding seek_range
range_hit mop n2 i more here = let go = lt→ltb n2 (suc i) more in rw (go, here, seek_range) refl

range_stop : (mop : List ℕ) (n2 i : ℕ) → suc i ≤ n2 → seek_range mop n2 (suc i) ≡ none
unfolding seek_range
range_stop mop n2 i few =
    let stop : ltb n2 (suc i) ≡ false = ground arith in rw (stop, seek_range) refl

none_ne : {A : Type 0} {a : A} → none ≡ some a → ⊥
none_ne e = cc

none_found : (mop : List ℕ) (n2 i : ℕ) {P : Type 0} → seek_range mop n2 zero ≡ some i → P
unfolding seek_range
none_found mop n2 i found = absurd (none_ne found)

-- A place that is found ends a range inside the list.
pub seek_range-some :
    (mop : List ℕ) (n2 n i : ℕ)
    → seek_range mop n2 n ≡ some i
    → (n2 ≤ i) × (i < n) × (get_or mop (i - n2) 0 ≡ get_or mop i 0 + n2)
seek_range-some mop n2 zero i found = none_found mop n2 i found
seek_range-some mop n2 (suc n) i found = elim (dec_lt n2 (suc n)) [
  | no few ↦ absurd (none_ne (sym (range_stop mop n2 n (omega arith)) ∙ found))
  | yes more ↦ elim (Bool-cases (get_or mop (n - n2) 0 == get_or mop n 0 + n2)) [
    | inl here ↦
        let same : n ≡ i = some_inj (sym (range_hit mop n2 n more here) ∙ found) in
        subst (λ x. (n2 ≤ x) × (x < suc n) × (get_or mop (x - n2) 0 ≡ get_or mop x 0 + n2)) same
          (omega arith, omega arith, (==_iff (get_or mop (n - n2) 0) (get_or mop n 0 + n2)).0 here)
    | inr other ↦
        let (le, less, e) =
          seek_range-some mop n2 n i (sym (range_step mop n2 n more other) ∙ found) in
        (le, omega arith, e)
  ]
]
