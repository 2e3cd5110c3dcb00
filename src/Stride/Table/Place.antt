-- ===== src/Stride/Table/Place.antt =====
-- Placing an entry in a hash table that has a free slot.
use mathlib.Core.Path.{subst}
use dlmdb.Base.{
  some_inj, p_invalid, ℕ, zero, suc, ◌≤◌, ◌<◌, ◌≡◌, ◌≢◌, refl, sym, ap, ◌∙◌, List, [], ◌∷◌,
  if◌then◌else◌, ◌==◌, length, get_elem?, set, some, arith, ok, ◌>>=◌, ℕ_discrete, inl, inr, ◌⊎◌,
  get_elem?-lt, length-set, get_elem?-set_self, get_elem?-set_ne,
}
use dlmdb.Stride.{StrideEntry}
use dlmdb.Stride.Table.{home, free_loop, place}
use dlmdb.Stride.Table.Slots.{
  slot, home_lt, slot_zero, slot_reaches, IsUsed, IsFree, Reaches, IsProbed, free_loop-Reaches,
}

-- How many slots are in use.
abbrev pub occupied : List StrideEntry → ℕ
occupied [] = 0
occupied (e ∷ entries) = if e.pgno == p_invalid then occupied entries else suc (occupied entries)

pub occupied-le : (entries : List StrideEntry) → occupied entries ≤ length entries
occupied-le [] = omega arith
occupied-le (e ∷ entries) = ground (arith, occupied-le entries)

pub some-IsFree :
    (entries : List StrideEntry) → occupied entries < length entries → (j : ℕ) × IsFree entries j
some-IsFree [] h = elim h [ ]
some-IsFree (e ∷ entries) h = elim (ℕ_discrete e.pgno p_invalid) [
  | yes empty ↦ (0, (e, refl, empty))
  | no full ↦ let (j, free) = some-IsFree entries (ground arith) in (suc j, free)
]

pub occupied-set :
    (entries : List StrideEntry) (i : ℕ) (e : StrideEntry)
    → IsFree entries i
    → e.pgno ≢ p_invalid
    → occupied (set entries i e) ≡ suc (occupied entries)
occupied-set [] i e (f, at, empty) full = cc
occupied-set (x ∷ entries) zero e (f, at, empty) full =
    let old : x.pgno ≡ p_invalid = ap (λ z. z.pgno) (some_inj at) ∙ empty in ground arith
occupied-set (x ∷ entries) (suc i) e free full = ground (arith, occupied-set entries i e free full)

module _ (entries : List StrideEntry) (i : ℕ) (e : StrideEntry) (full : e.pgno ≢ p_invalid) where
  IsUsed-set : (k : ℕ) → i < length entries → IsUsed entries k → IsUsed (set entries i e) k
  IsUsed-set k inside (f, at, used) = elim (ℕ_discrete i k) [
    | yes same ↦ (
      e,
      ap (get_elem? (set entries i e)) (sym same) ∙ get_elem?-set_self entries i e inside,
      full,
    )
    | no other ↦ (f, get_elem?-set_ne entries e other ∙ at, used)
  ]

  module _ (capacity : ℕ) (w : IsProbed entries capacity) (inside : i < length entries)
      (reach : Reaches entries capacity (home e.pgno capacity) i)
      (absent : (j : ℕ) (f : StrideEntry)
        → i ≢ j
        → get_elem? entries j ≡ some f
        → f.pgno ≢ e.pgno) where
    Reaches-set : (h k : ℕ) → Reaches entries capacity h k → Reaches (set entries i e) capacity h k
    Reaches-set h k (t, less, at, used) =
        (t, less, at, λ r before. IsUsed-set (slot capacity h r) inside (used r before))

    set_cases :
        (k : ℕ) (f : StrideEntry)
        → get_elem? (set entries i e) k ≡ some f
        → ((i ≡ k) × (e ≡ f)) ⊎ ((i ≢ k) × (get_elem? entries k ≡ some f))
    set_cases k f at = elim (ℕ_discrete i k) [
      | yes same ↦ inl (
        same,
        some_inj (
            sym (get_elem?-set_self entries i e inside)
            ∙ ap (get_elem? (set entries i e)) same
            ∙ at),
      )
      | no other ↦ inr (other, sym (get_elem?-set_ne entries e other) ∙ at)
    ]

    set_reached :
        (k : ℕ) (f : StrideEntry)
        → get_elem? (set entries i e) k ≡ some f
        → f.pgno ≢ p_invalid
        → Reaches (set entries i e) capacity (home f.pgno capacity) k
    set_reached k f at used = elim (set_cases k f at) [
      | inl (same, mine) ↦
          subst (λ z. Reaches (set entries i e) capacity (home z.pgno capacity) k) mine
            (subst (λ z. Reaches (set entries i e) capacity (home e.pgno capacity) z) same
              (Reaches-set (home e.pgno capacity) i reach))
      | inr (other, old) ↦ Reaches-set (home f.pgno capacity) k (w.reached k f old used)
    ]

    set_unique :
        (k l : ℕ) (f g : StrideEntry)
        → get_elem? (set entries i e) k ≡ some f
        → get_elem? (set entries i e) l ≡ some g
        → f.pgno ≢ p_invalid
        → f.pgno ≡ g.pgno
        → k ≡ l
    set_unique k l f g at there used page = elim (set_cases k f at) [
      | inl (here, mine) ↦ elim (set_cases l g there) [
        | inl (also, _) ↦ sym here ∙ also
        | inr (other, old) ↦ absurd (absent l g other old (sym page ∙ sym (ap (λ z. z.pgno) mine)))
      ]
      | inr (other, old) ↦ elim (set_cases l g there) [
        | inl (_, mine) ↦ absurd (absent k f other old (page ∙ sym (ap (λ z. z.pgno) mine)))
        | inr (_, old') ↦ w.unique k l f g old old' used page
      ]
    ]

    pub set-IsProbed : IsProbed (set entries i e) capacity
    set-IsProbed = record {
      sized = length-set entries i e ∙ w.sized;
      reached = set_reached;
      unique = set_unique;
    }

-- In a well-formed table with a free slot, the entry of a page that has none gets a free slot, and the
-- table stays well-formed.
pub place-IsProbed :
    (entries : List StrideEntry) (capacity : ℕ) (e : StrideEntry)
    → IsProbed entries capacity
    → occupied entries < capacity
    → e.pgno ≢ p_invalid
    → ((j : ℕ) (f : StrideEntry) → get_elem? entries j ≡ some f → f.pgno ≢ e.pgno)
    → (i : ℕ) × (place entries capacity e ≡ ok (set entries i e, i))
      × IsFree entries i
      × IsProbed (set entries i e) capacity
unfolding place
place-IsProbed entries capacity e w room full absent =
    let inside = home_lt e.pgno capacity (omega arith) in
    let (j, empty) = some-IsFree entries (omega (arith, w.sized)) in
    let (m, less, at) =
      slot_reaches capacity (home e.pgno capacity) j inside
        (omega (arith, get_elem?-lt entries j empty.0 empty.1, w.sized)) in
    let (i, found, free, reach) =
      free_loop-Reaches entries capacity (home e.pgno capacity) m capacity 0 inside w.sized less
        (subst (IsFree entries) (sym at) empty) (omega arith) (omega arith)
        (λ r before. absurd (omega arith)) in
    let start =
      sym (
        ap (free_loop entries capacity capacity) (slot_zero capacity (home e.pgno capacity) inside))
      ∙ found in
    (
      i,
      ap (λ o. o >>= λ idx. ok (set entries idx e, idx)) start,
      free,
      set-IsProbed entries i e full capacity w (get_elem?-lt entries i free.0 free.1) reach
          (λ k f _. absent k f),
    )

-- An entry may be changed in place, for the same page.
pub set_same-IsProbed :
    (entries : List StrideEntry) (capacity i : ℕ) (old e : StrideEntry)
    → IsProbed entries capacity
    → get_elem? entries i ≡ some old
    → old.pgno ≢ p_invalid
    → e.pgno ≡ old.pgno
    → IsProbed (set entries i e) capacity
set_same-IsProbed entries capacity i old e w at full same =
    set-IsProbed entries i e (λ z. full (sym same ∙ z)) capacity w (get_elem?-lt entries i old at)
      (subst (λ p. Reaches entries capacity (home p capacity) i) (sym same)
        (w.reached i old at full))
      (λ j f other there page. other (w.unique i j old f at there full (sym same ∙ sym page)))

pub occupied-set_same :
    (entries : List StrideEntry) (i : ℕ) (old e : StrideEntry)
    → get_elem? entries i ≡ some old
    → old.pgno ≢ p_invalid
    → e.pgno ≡ old.pgno
    → occupied (set entries i e) ≡ occupied entries
occupied-set_same [] i old e at full same = cc
occupied-set_same (x ∷ entries) zero old e at full same =
    let page : x.pgno ≡ e.pgno = ap (λ z. z.pgno) (some_inj at) ∙ sym same in ground arith
occupied-set_same (x ∷ entries) (suc i) old e at full same =
    ground (arith, occupied-set_same entries i old e at full same)
