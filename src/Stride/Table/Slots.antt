-- ===== src/Stride/Table/Slots.antt =====
-- The order in which the slots of a hash table are probed, and the well-formedness of a table.
use mathlib.Core.Path.{subst}
use native.Mathlib.Nat.{mod-lt, mod-eq_of_lt, mod_self}
use dlmdb.Base.{
  some_inj, p_invalid, ℕ, zero, suc, ◌+◌, ◌-◌, ◌%◌, ◌≤◌, ◌<◌, ◌≡◌, ◌≢◌, refl, sym, ap, ◌∙◌, List,
  [], ◌∷◌, true, false, if◌then◌else◌, ltb, ◌==◌, length, get_elem?, some, arith, ok, ℕ_discrete,
  dec_lt, eq→==, ne→==,
}
use dlmdb.Stride.{StrideEntry}
use dlmdb.Stride.Table.{stride_hash, home, free_loop}

-- The slot that is probed after `t` others, from the slot `h` on.
abbrev pub slot : ℕ → ℕ → ℕ → ℕ
slot capacity h t = if ltb (h + t) capacity then h + t else h + t - capacity

pub home_lt : (pgno capacity : ℕ) → 0 < capacity → home pgno capacity < capacity
unfolding home
home_lt pgno capacity pos = mod-lt (stride_hash pgno) pos

pub slot_lt : (capacity h t : ℕ) → h < capacity → t < capacity → slot capacity h t < capacity
slot_lt capacity h t inside less = ground arith

pub slot_zero : (capacity h : ℕ) → h < capacity → slot capacity h 0 ≡ h
slot_zero capacity h inside = ground arith

pub slot_next :
    (capacity h t : ℕ)
    → h < capacity
    → t < capacity
    → (slot capacity h t + 1) % capacity ≡ slot capacity h (suc t)
slot_next capacity h t inside less = elim (ℕ_discrete (slot capacity h t + 1) capacity) [
  | yes last ↦
      let first : slot capacity h (suc t) ≡ 0 = ground arith in
      ap (λ k. k % capacity) last ∙ mod_self capacity ∙ sym first
  | no more ↦
      let next : slot capacity h t + 1 ≡ slot capacity h (suc t) = ground arith in
      mod-eq_of_lt (ground arith) ∙ next
]

pub slot_inj :
    (capacity h s t : ℕ)
    → h < capacity
    → s < capacity
    → t < capacity
    → slot capacity h s ≡ slot capacity h t
    → s ≡ t
slot_inj capacity h s t inside less more same = ground arith

-- Every slot is probed.
pub slot_reaches :
    (capacity h j : ℕ)
    → h < capacity
    → j < capacity
    → (t : ℕ) × (t < capacity) × (slot capacity h t ≡ j)
slot_reaches capacity h j inside less = elim (dec_lt j h) [
  | yes before ↦ (j + capacity - h, omega arith, ground arith)
  | no behind ↦ (j - h, omega arith, ground arith)
]

abbrev pub IsUsed : List StrideEntry → ℕ → Type 0
IsUsed entries i = (e : StrideEntry) × (get_elem? entries i ≡ some e) × (e.pgno ≢ p_invalid)

abbrev pub IsFree : List StrideEntry → ℕ → Type 0
IsFree entries i = (e : StrideEntry) × (get_elem? entries i ≡ some e) × (e.pgno ≡ p_invalid)

-- Probing from `h` comes to the slot `i` over slots in use.
abbrev pub Reaches : List StrideEntry → ℕ → ℕ → ℕ → Type 0
Reaches entries capacity h i =
    (t : ℕ) × (t < capacity)
    × (slot capacity h t ≡ i)
    × ((r : ℕ) → r < t → IsUsed entries (slot capacity h r))

-- An entry is reached from the home of its page, and a page has one entry.
pub record IsProbed (entries : List StrideEntry) (capacity : ℕ) : Type 0 where
  pub sized : length entries ≡ capacity
  pub reached :
      (i : ℕ) (e : StrideEntry)
      → get_elem? entries i ≡ some e
      → e.pgno ≢ p_invalid
      → Reaches entries capacity (home e.pgno capacity) i
  pub unique :
      (i j : ℕ) (e f : StrideEntry)
      → get_elem? entries i ≡ some e
      → get_elem? entries j ≡ some f
      → e.pgno ≢ p_invalid
      → e.pgno ≡ f.pgno
      → i ≡ j

pub get_elem?-in :
    (entries : List StrideEntry) (i : ℕ)
    → i < length entries
    → (e : StrideEntry) × (get_elem? entries i ≡ some e)
get_elem?-in [] i h = elim h [ ]
get_elem?-in (x ∷ entries) zero h = (x, refl)
get_elem?-in (x ∷ entries) (suc i) h = get_elem?-in entries i (omega arith)

free_hit :
    (entries : List StrideEntry) (capacity fuel idx : ℕ) (e : StrideEntry)
    → get_elem? entries idx ≡ some e
    → e.pgno ≡ p_invalid
    → free_loop entries capacity (suc fuel) idx ≡ ok idx
unfolding free_loop
free_hit entries capacity fuel idx e at empty =
    let found : (e.pgno == p_invalid) ≡ true = eq→== e.pgno p_invalid empty in
    rw (at, found, free_loop) refl

free_pass :
    (entries : List StrideEntry) (capacity fuel idx : ℕ) (e : StrideEntry)
    → get_elem? entries idx ≡ some e
    → e.pgno ≢ p_invalid
    → free_loop entries capacity (suc fuel) idx
      ≡ free_loop entries capacity fuel ((idx + 1) % capacity)
unfolding free_loop
free_pass entries capacity fuel idx e at full =
    let pass : (e.pgno == p_invalid) ≡ false = ne→== e.pgno p_invalid full in
    rw (at, pass, free_loop) refl

-- One more slot in use.
pub IsUsed-next :
    (entries : List StrideEntry) (capacity h s : ℕ)
    → ((r : ℕ) → r < s → IsUsed entries (slot capacity h r))
    → IsUsed entries (slot capacity h s)
    → (r : ℕ) → r < suc s
    → IsUsed entries (slot capacity h r)
IsUsed-next entries capacity h s used here r less = elim (dec_lt r s) [
  | yes before ↦ used r before
  | no last ↦ subst (λ k. IsUsed entries (slot capacity h k)) {x = s} {y = r} (omega arith) here
]

-- A loop that starts at a probed slot with fuel to reach a free one finds the first free slot.
pub free_loop-Reaches :
    (entries : List StrideEntry) (capacity h m fuel s : ℕ)
    → h < capacity
    → length entries ≡ capacity
    → m < capacity
    → IsFree entries (slot capacity h m)
    → s ≤ m
    → m < s + fuel
    → ((r : ℕ) → r < s → IsUsed entries (slot capacity h r))
    → (i : ℕ) × (free_loop entries capacity fuel (slot capacity h s) ≡ ok i)
      × IsFree entries i
      × Reaches entries capacity h i
unfolding free_loop
free_loop-Reaches entries capacity h m zero s inside size less free le more used =
    absurd (omega arith)
free_loop-Reaches entries capacity h m (suc fuel) s inside size less free le more used =
    let (e, at) =
      get_elem?-in entries (slot capacity h s)
        (omega (arith, slot_lt capacity h s inside (omega arith))) in
    elim (ℕ_discrete e.pgno p_invalid) [
      | yes empty ↦ (
        slot capacity h s,
        free_hit entries capacity fuel (slot capacity h s) e at empty,
        (e, at, empty),
        (s, omega arith, refl, used),
      )
      | no full ↦
          let (f, there, empty) = free in
          let behind : s ≢ m = λ same. full (
            ap (λ x. x.pgno)
              (some_inj (sym at ∙ ap (λ k. get_elem? entries (slot capacity h k)) same ∙ there))
            ∙ empty) in
          let (i, found, free', reach) =
            free_loop-Reaches entries capacity h m fuel (suc s) inside size less free (omega arith)
              (omega arith) (IsUsed-next entries capacity h s used (e, at, full)) in
          (
            i,
            free_pass entries capacity fuel (slot capacity h s) e at full
                ∙ ap (free_loop entries capacity fuel) (slot_next capacity h s inside (omega arith))
                ∙ found,
            free',
            reach,
          )
    ]
