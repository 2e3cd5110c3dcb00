-- ===== src/Pages/Shift.antt =====
-- What the loops over the slots and the moving of bytes leave in each cell.
use dlmdb.Base.{
  ℕ, zero, suc, ◌+◌, ◌%◌, ◌≤◌, ◌<◌, ◌≡◌, ◌≢◌, refl, sym, ap, ◌∙◌, List, [], ◌∷◌, false,
  if◌then◌else◌, ltb, length, get_or, set, take, drop, arith, overwrite, length-set, lt→ltb,
  ℕ_discrete, dec_lt, inl, inr, ◌⊎◌, get_or-take, length-take, length-drop,
}
use dlmdb.Pages.{word16, slots_up, slots_down, raise_slots}

pub get_or-set_self : (xs : List ℕ) (i v : ℕ) → i < length xs → get_or (set xs i v) i 0 ≡ v
get_or-set_self [] i v h = elim h [ ]
get_or-set_self (x ∷ xs) zero v h = refl
get_or-set_self (x ∷ xs) (suc i) v h = get_or-set_self xs i v (omega arith)

pub get_or-set_ne : (xs : List ℕ) (i j v : ℕ) → i ≢ j → get_or (set xs i v) j 0 ≡ get_or xs j 0
get_or-set_ne [] i j v h = refl
get_or-set_ne (x ∷ xs) zero zero v h = absurd (h refl)
get_or-set_ne (x ∷ xs) zero (suc j) v h = refl
get_or-set_ne (x ∷ xs) (suc i) zero v h = refl
get_or-set_ne (x ∷ xs) (suc i) (suc j) v h = get_or-set_ne xs i j v (λ e. h (ap suc e))

up_step :
    (ptrs : List ℕ) (indx i : ℕ)
    → indx < suc i
    → slots_up ptrs indx (suc i) ≡ slots_up (set ptrs (suc i) (get_or ptrs i 0)) indx i
unfolding slots_up
up_step ptrs indx i h = let more = lt→ltb indx (suc i) h in rw (more, slots_up) refl

up_stop : (ptrs : List ℕ) (indx i : ℕ) → i ≤ indx → slots_up ptrs indx i ≡ ptrs
unfolding slots_up
up_stop ptrs indx zero h = refl
up_stop ptrs indx (suc i) h =
    let done : ltb indx (suc i) ≡ false = ground arith in rw (done, slots_up) refl

pub length-slots_up : (ptrs : List ℕ) (indx i : ℕ) → length (slots_up ptrs indx i) ≡ length ptrs
length-slots_up ptrs indx zero = ap length (up_stop ptrs indx zero (omega arith))
length-slots_up ptrs indx (suc i) = elim (dec_lt indx (suc i)) [
  | yes more ↦
      ap length (up_step ptrs indx i more)
      ∙ length-slots_up (set ptrs (suc i) (get_or ptrs i 0)) indx i
      ∙ length-set ptrs (suc i) (get_or ptrs i 0)
  | no done ↦ ap length (up_stop ptrs indx (suc i) (omega arith))
]

pub slots_up_kept :
    (ptrs : List ℕ) (indx i j : ℕ)
    → (j ≤ indx) ⊎ (i < j)
    → get_or (slots_up ptrs indx i) j 0 ≡ get_or ptrs j 0
slots_up_kept ptrs indx zero j h = ap (λ l. get_or l j 0) (up_stop ptrs indx zero (omega arith))
slots_up_kept ptrs indx (suc i) j h = elim (dec_lt indx (suc i)) [
  | yes more ↦
      ap (λ l. get_or l j 0) (up_step ptrs indx i more)
      ∙ slots_up_kept (set ptrs (suc i) (get_or ptrs i 0)) indx i j
          (elim h [ inl before ↦ inl before | inr behind ↦ inr (omega arith) ])
      ∙ get_or-set_ne ptrs (suc i) j (get_or ptrs i 0)
          (elim h [ inl before ↦ λ e. omega arith | inr behind ↦ λ e. omega arith ])
  | no done ↦ ap (λ l. get_or l j 0) (up_stop ptrs indx (suc i) (omega arith))
]

pub slots_up_moved :
    (ptrs : List ℕ) (indx i j : ℕ)
    → i < length ptrs
    → indx ≤ j
    → j < i
    → get_or (slots_up ptrs indx i) (suc j) 0 ≡ get_or ptrs j 0
slots_up_moved ptrs indx zero j inside le less = absurd (omega arith)
slots_up_moved ptrs indx (suc i) j inside le less =
    let next = set ptrs (suc i) (get_or ptrs i 0) in
    ap (λ l. get_or l (suc j) 0) (up_step ptrs indx i (omega arith)) ∙ elim (ℕ_discrete j i) [
      | yes last ↦
          slots_up_kept next indx i (suc j) (inr (omega arith))
          ∙ ap (λ k. get_or next (suc k) 0) last
          ∙ get_or-set_self ptrs (suc i) (get_or ptrs i 0) inside
          ∙ ap (λ k. get_or ptrs k 0) (sym last)
      | no before ↦
          slots_up_moved next indx i j (omega (arith, length-set ptrs (suc i) (get_or ptrs i 0))) le
            (omega arith)
          ∙ get_or-set_ne ptrs (suc i) j (get_or ptrs i 0) (λ e. omega arith)
    ]

pub length-slots_down :
    (ptrs : List ℕ) (i rounds : ℕ) → length (slots_down ptrs i rounds) ≡ length ptrs
unfolding slots_down
length-slots_down ptrs i zero = refl
length-slots_down ptrs i (suc rounds) =
    length-slots_down (set ptrs i (get_or ptrs (suc i) 0)) (suc i) rounds
    ∙ length-set ptrs i (get_or ptrs (suc i) 0)

slots_down_kept :
    (ptrs : List ℕ) (i rounds j : ℕ)
    → j < i
    → get_or (slots_down ptrs i rounds) j 0 ≡ get_or ptrs j 0
unfolding slots_down
slots_down_kept ptrs i zero j h = refl
slots_down_kept ptrs i (suc rounds) j h =
    slots_down_kept (set ptrs i (get_or ptrs (suc i) 0)) (suc i) rounds j (omega arith)
    ∙ get_or-set_ne ptrs i j (get_or ptrs (suc i) 0) (λ e. omega arith)

slots_down_moved :
    (ptrs : List ℕ) (i rounds j : ℕ)
    → i + rounds ≤ length ptrs
    → i ≤ j
    → j < i + rounds
    → get_or (slots_down ptrs i rounds) j 0 ≡ get_or ptrs (suc j) 0
unfolding slots_down
slots_down_moved ptrs i zero j room le less = absurd (omega arith)
slots_down_moved ptrs i (suc rounds) j room le less =
    let next = set ptrs i (get_or ptrs (suc i) 0) in
    elim (ℕ_discrete i j) [
      | yes first ↦
          slots_down_kept next (suc i) rounds j (omega arith)
          ∙ ap (λ k. get_or next k 0) (sym first)
          ∙ get_or-set_self ptrs i (get_or ptrs (suc i) 0) (omega arith)
          ∙ ap (λ k. get_or ptrs (suc k) 0) first
      | no behind ↦
          slots_down_moved next (suc i) rounds j
            (omega (arith, length-set ptrs i (get_or ptrs (suc i) 0))) (omega arith) (omega arith)
          ∙ get_or-set_ne ptrs i (suc j) (get_or ptrs (suc i) 0) (λ e. omega arith)
    ]

-- The number of the slot `k` before the slot `indx` was taken out.
abbrev pub skip : ℕ → ℕ → ℕ
skip indx k = if ltb k indx then k else suc k

pub slots_down-skip :
    (ptrs : List ℕ) (indx rounds k : ℕ)
    → indx + rounds ≤ length ptrs
    → k < indx + rounds
    → get_or (slots_down ptrs indx rounds) k 0 ≡ get_or ptrs (skip indx k) 0
slots_down-skip ptrs indx rounds k room less = elim (dec_lt k indx) [
  | yes before ↦
      let here : skip indx k ≡ k = ground arith in
      slots_down_kept ptrs indx rounds k before ∙ ap (λ i. get_or ptrs i 0) (sym here)
  | no behind ↦
      let here : skip indx k ≡ suc k = ground arith in
      slots_down_moved ptrs indx rounds k room (omega arith) less
      ∙ ap (λ i. get_or ptrs i 0) (sym here)
]

pub length-raise_slots :
    (count ofs delta : ℕ) (ptrs : List ℕ) → length (raise_slots count ofs delta ptrs) ≡ length ptrs
unfolding raise_slots
length-raise_slots zero ofs delta ptrs = refl
length-raise_slots (suc count) ofs delta [] = refl
length-raise_slots (suc count) ofs delta (ptr ∷ ptrs) =
    ap suc (length-raise_slots count ofs delta ptrs)

pub raise_slots_get :
    (count ofs delta : ℕ) (ptrs : List ℕ) (k : ℕ)
    → k < count
    → k < length ptrs
    → get_or (raise_slots count ofs delta ptrs) k 0
      ≡ (if ltb (get_or ptrs k 0) ofs then (get_or ptrs k 0 + delta) % word16 else get_or ptrs k 0)
unfolding raise_slots
raise_slots_get zero ofs delta ptrs k h less = absurd (omega arith)
raise_slots_get (suc count) ofs delta [] k h less = elim less [ ]
raise_slots_get (suc count) ofs delta (ptr ∷ ptrs) zero h less = refl
raise_slots_get (suc count) ofs delta (ptr ∷ ptrs) (suc k) h less =
    raise_slots_get count ofs delta ptrs k (omega arith) (omega arith)

pub overwrite_before :
    (mem : List ℕ) (i : ℕ) (vs : List ℕ) (j : ℕ)
    → j < i
    → get_or (overwrite mem i vs) j 0 ≡ get_or mem j 0
unfolding overwrite
overwrite_before [] i vs j h = refl
overwrite_before (x ∷ mem) (suc i) vs zero h = refl
overwrite_before (x ∷ mem) (suc i) vs (suc j) h = overwrite_before mem i vs j (omega arith)
overwrite_before (x ∷ mem) zero vs j h = absurd (omega arith)

overwrite_first :
    (mem vs : List ℕ) (j : ℕ)
    → j < length mem
    → j < length vs
    → get_or (overwrite mem 0 vs) j 0 ≡ get_or vs j 0
unfolding overwrite
overwrite_first [] vs j h less = elim h [ ]
overwrite_first (x ∷ mem) [] j h less = elim less [ ]
overwrite_first (x ∷ mem) (v ∷ vs) zero h less = refl
overwrite_first (x ∷ mem) (v ∷ vs) (suc j) h less =
    overwrite_first mem vs j (omega arith) (omega arith)

pub overwrite_in :
    (mem : List ℕ) (i : ℕ) (vs : List ℕ) (k : ℕ)
    → i + k < length mem
    → k < length vs
    → get_or (overwrite mem i vs) (i + k) 0 ≡ get_or vs k 0
unfolding overwrite
overwrite_in mem zero vs k inside less =
    ap (λ j. get_or (overwrite mem 0 vs) j 0) {x = 0 + k} {y = k} (omega arith)
    ∙ overwrite_first mem vs k (omega arith) less
overwrite_in [] (suc i) vs k inside less = absurd (omega arith)
overwrite_in (x ∷ mem) (suc i) vs k inside less =
    ap (λ j. get_or (overwrite (x ∷ mem) (suc i) vs) j 0) {x = suc i + k} {y = suc (i + k)}
      (omega arith)
    ∙ overwrite_in mem i vs k (omega arith) less

pub overwrite_behind :
    (mem : List ℕ) (i : ℕ) (vs : List ℕ) (j : ℕ)
    → i + length vs ≤ j
    → get_or (overwrite mem i vs) j 0 ≡ get_or mem j 0
unfolding overwrite
overwrite_behind [] i vs j h = refl
overwrite_behind (x ∷ mem) (suc i) vs zero h = absurd (omega arith)
overwrite_behind (x ∷ mem) (suc i) vs (suc j) h = overwrite_behind mem i vs j (omega arith)
overwrite_behind (x ∷ mem) zero [] j h = refl
overwrite_behind (x ∷ mem) zero (v ∷ vs) zero h = absurd (omega arith)
overwrite_behind (x ∷ mem) zero (v ∷ vs) (suc j) h = overwrite_behind mem zero vs j (omega arith)

pub get_or-drop_add : (n k : ℕ) (xs : List ℕ) → get_or (drop n xs) k 0 ≡ get_or xs (n + k) 0
get_or-drop_add zero k xs = ap (λ j. get_or xs j 0) {x = k} {y = 0 + k} (omega arith)
get_or-drop_add (suc n) k [] = refl
get_or-drop_add (suc n) k (x ∷ xs) =
    get_or-drop_add n k xs
    ∙ ap (λ j. get_or (x ∷ xs) j 0) {x = suc (n + k)} {y = suc n + k} (omega arith)

-- A byte that `memmove` moves up by `delta`, and one that it leaves.
pub move_in :
    (mem : List ℕ) (at delta span k : ℕ)
    → at + delta + span ≤ length mem
    → k < span
    → get_or (overwrite mem (at + delta) (take span (drop at mem))) (at + delta + k) 0
      ≡ get_or mem (at + k) 0
move_in mem at delta span k inside less =
    overwrite_in mem (at + delta) (take span (drop at mem)) k (omega arith)
      (omega (arith, length-take span (drop at mem), length-drop at mem))
    ∙ get_or-take span k (drop at mem) 0 less
    ∙ get_or-drop_add at k mem

pub move_behind :
    (mem : List ℕ) (at delta span j : ℕ)
    → at + delta + span ≤ j
    → get_or (overwrite mem (at + delta) (take span (drop at mem))) j 0 ≡ get_or mem j 0
move_behind mem at delta span j behind =
    overwrite_behind mem (at + delta) (take span (drop at mem)) j
      (omega (arith, length-take span (drop at mem)))
