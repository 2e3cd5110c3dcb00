-- ===== src/Stride/Table/Find.antt =====
-- Looking for the entry of a page in a hash table.
use mathlib.Core.Path.{subst}
use dlmdb.Base.{
  some_inj, p_invalid, ℕ, zero, suc, ◌+◌, ◌%◌, ◌≤◌, ◌<◌, ◌≡◌, ◌≢◌, refl, sym, ap, ◌∙◌, List, true,
  false, ◌==◌, get_elem?, none, some, arith, ℕ_discrete, inl, inr, eq→==, ne→==, Option-cases,
  Bool-cases,
}
use dlmdb.Stride.{StrideEntry}
use dlmdb.Stride.Table.{home, find_loop, entry_find_slot}
use dlmdb.Stride.Table.Slots.{slot, home_lt, slot_zero, slot_next, slot_inj, IsUsed, IsProbed}

abbrev pub Holds : List StrideEntry → ℕ → ℕ → StrideEntry → Type 0
Holds entries pgno i e = (get_elem? entries i ≡ some e) × (e.pgno ≡ pgno)

find_hit :
    (entries : List StrideEntry) (capacity pgno probes idx : ℕ) (e : StrideEntry)
    → Holds entries pgno idx e
    → find_loop entries capacity pgno (suc probes) idx ≡ some idx
unfolding find_loop
find_hit entries capacity pgno probes idx e (at, page) =
    let found : (e.pgno == pgno) ≡ true = eq→== e.pgno pgno page in rw (at, found, find_loop) refl

find_pass :
    (entries : List StrideEntry) (capacity pgno probes idx : ℕ) (e : StrideEntry)
    → get_elem? entries idx ≡ some e
    → e.pgno ≢ p_invalid
    → e.pgno ≢ pgno
    → find_loop entries capacity pgno (suc probes) idx
      ≡ find_loop entries capacity pgno probes ((idx + 1) % capacity)
unfolding find_loop
find_pass entries capacity pgno probes idx e at full other =
    let used : (e.pgno == p_invalid) ≡ false = ne→== e.pgno p_invalid full in
    let differs : (e.pgno == pgno) ≡ false = ne→== e.pgno pgno other in
    rw (at, differs, used, find_loop) refl

find_end :
    (entries : List StrideEntry) (capacity pgno probes idx : ℕ)
    → get_elem? entries idx ≡ none
    → find_loop entries capacity pgno (suc probes) idx ≡ none
unfolding find_loop
find_end entries capacity pgno probes idx at = rw (at, find_loop) refl

find_gap :
    (entries : List StrideEntry) (capacity pgno probes idx : ℕ) (e : StrideEntry)
    → get_elem? entries idx ≡ some e
    → e.pgno ≡ p_invalid
    → e.pgno ≢ pgno
    → find_loop entries capacity pgno (suc probes) idx ≡ none
unfolding find_loop
find_gap entries capacity pgno probes idx e at empty other =
    let free : (e.pgno == p_invalid) ≡ true = eq→== e.pgno p_invalid empty in
    let differs : (e.pgno == pgno) ≡ false = ne→== e.pgno pgno other in
    rw (at, differs, free, find_loop) refl

find_loop-Holds :
    (entries : List StrideEntry) (capacity pgno probes idx i : ℕ)
    → find_loop entries capacity pgno probes idx ≡ some i
    → (e : StrideEntry) × Holds entries pgno i e
find_loop-Holds entries capacity pgno zero idx i e = unfold find_loop in cc
find_loop-Holds entries capacity pgno (suc probes) idx i found =
    elim (Option-cases (get_elem? entries idx)) [
      | inl at ↦ let ends = find_end entries capacity pgno probes idx at in cc
      | inr (e, at) ↦ elim (ℕ_discrete e.pgno pgno) [
        | yes page ↦
            let same : idx ≡ i =
              some_inj (sym (find_hit entries capacity pgno probes idx e (at, page)) ∙ found) in
            (e, (ap (get_elem? entries) (sym same) ∙ at, page))
        | no other ↦ elim (ℕ_discrete e.pgno p_invalid) [
          | yes empty ↦ let ends = find_gap entries capacity pgno probes idx e at empty other in cc
          | no full ↦
              find_loop-Holds entries capacity pgno probes ((idx + 1) % capacity) i
                (sym (find_pass entries capacity pgno probes idx e at full other) ∙ found)
        ]
      ]
    ]

-- A slot that is found holds the page's entry.
pub find_slot-Holds :
    (entries : List StrideEntry) (capacity pgno i : ℕ)
    → entry_find_slot entries capacity pgno ≡ some i
    → (e : StrideEntry) × Holds entries pgno i e
unfolding entry_find_slot
find_slot-Holds entries capacity pgno i found = elim (Bool-cases (capacity == 0)) [
  | inl none_left ↦ let gone = rw none_left at found in cc
  | inr some_left ↦
      find_loop-Holds entries capacity pgno capacity (home pgno capacity) i (rw some_left at found)
]

find_loop-slot :
    (entries : List StrideEntry) (capacity m : ℕ) (e : StrideEntry) (probes s : ℕ)
    → IsProbed entries capacity
    → m < capacity
    → get_elem? entries (slot capacity (home e.pgno capacity) m) ≡ some e
    → e.pgno ≢ p_invalid
    → ((r : ℕ) → r < m → IsUsed entries (slot capacity (home e.pgno capacity) r))
    → s ≤ m
    → m < s + probes
    → find_loop entries capacity e.pgno probes (slot capacity (home e.pgno capacity) s)
      ≡ some (slot capacity (home e.pgno capacity) m)
find_loop-slot entries capacity m e zero s w less at full used le more = absurd (omega arith)
find_loop-slot entries capacity m e (suc probes) s w less at full used le more =
    let h = home e.pgno capacity in
    let inside = home_lt e.pgno capacity (omega arith) in
    elim (ℕ_discrete s m) [
      | yes same ↦
          subst
            (λ k.
              find_loop entries capacity e.pgno (suc probes) (slot capacity h k)
              ≡ some (slot capacity h m))
            (sym same) (find_hit entries capacity e.pgno probes (slot capacity h m) e (at, refl))
      | no before ↦
          let (f, there, busy) = used s (omega arith) in
          let apart : f.pgno ≢ e.pgno = λ page. before (
            slot_inj capacity h s m inside (omega arith) less
              (w.unique (slot capacity h s) (slot capacity h m) f e there at busy page)) in
          find_pass entries capacity e.pgno probes (slot capacity h s) f there busy apart
          ∙ ap (find_loop entries capacity e.pgno probes)
              (slot_next capacity h s inside (omega arith))
          ∙ find_loop-slot entries capacity m e probes (suc s) w less at full used (omega arith)
              (omega arith)
    ]

-- In a well-formed table the probes come to the entry of every page that has one.
pub find_slot-some :
    (entries : List StrideEntry) (capacity i : ℕ) (e : StrideEntry)
    → IsProbed entries capacity
    → get_elem? entries i ≡ some e
    → e.pgno ≢ p_invalid
    → entry_find_slot entries capacity e.pgno ≡ some i
unfolding entry_find_slot
find_slot-some entries capacity i e w at full =
    let (m, less, there, used) = w.reached i e at full in
    let h = home e.pgno capacity in
    let some_left : (capacity == 0) ≡ false = ground arith in
    let inside = home_lt e.pgno capacity (omega arith) in
    let found =
      find_loop-slot entries capacity m e capacity 0 w less (ap (get_elem? entries) there ∙ at) full
        used (omega arith) (omega arith) in
    rw some_left (
      sym (ap (find_loop entries capacity e.pgno capacity) (slot_zero capacity h inside))
      ∙ found
      ∙ ap some there)

pub find_slot-none :
    (entries : List StrideEntry) (capacity pgno : ℕ)
    → IsProbed entries capacity
    → pgno ≢ p_invalid
    → entry_find_slot entries capacity pgno ≡ none
    → (j : ℕ) (f : StrideEntry) → get_elem? entries j ≡ some f
    → f.pgno ≢ pgno
find_slot-none entries capacity pgno w full gone j f at page =
    let found = find_slot-some entries capacity j f w at (λ e. full (sym page ∙ e)) in
    let same = ap (entry_find_slot entries capacity) page in cc
