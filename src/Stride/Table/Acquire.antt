-- ===== src/Stride/Table/Acquire.antt =====
-- The hash table as a map from pages to entries: acquiring an entry refines the map's operation.
use mathlib.Core.Path.{subst}
use dlmdb.Base.{
  some_inj, p_invalid, ℕ, ◌+◌, ◌*◌, ◌/◌, ◌%◌, ◌≤◌, ◌<◌, ◌≡◌, ◌≢◌, refl, sym, ap, ◌∙◌, List, ◌||◌,
  if◌then◌else◌, ltb, ◌==◌, word32, get_elem?, set, Option, none, some, arith, Result, ok, err,
  enomem, ◌>>=◌, Allocator, inl, inr, get_elem?-lt, get_elem?-set_self, Bool-cases, Option-cases,
}
use dlmdb.Stride.{StrideEntry}
use dlmdb.Stride.Table.{
  StrideCache, blank_entry, cache_grow, entry_find_slot, acquire_new, acquire_grown, acquire_slot,
  seed, entry_acquire,
}
use dlmdb.Stride.Table.Slots.{}
use dlmdb.Stride.Table.Place.{occupied-le, occupied-set, place-IsProbed}
use dlmdb.Stride.Table.Find.{find_slot-Holds, find_slot-some, find_slot-none}
use dlmdb.Stride.Table.Grow.{
  Stored, Stored-keep, Stored-new, Stored-back, IsTable, Grown, new_capacity, cache_grow-Grown,
}

-- The entry of a page.
abbrev pub entry_at : List StrideEntry → Option ℕ → Option StrideEntry
entry_at entries none = none
entry_at entries (some i) = get_elem? entries i

abbrev pub lookup : StrideCache → ℕ → Option StrideEntry
lookup cache pgno = entry_at cache.entries (entry_find_slot cache.entries cache.capacity pgno)

-- The entry that a map gives for a page, with a blank one put in for a missing one.
abbrev pub or_blank : Option StrideEntry → ℕ → StrideEntry
or_blank none pgno = blank_entry pgno
or_blank (some e) pgno = e

pub lookup-Stored :
    (cache : StrideCache) (pgno : ℕ) (e : StrideEntry)
    → lookup cache pgno ≡ some e
    → Stored cache.entries e × (e.pgno ≡ pgno)
lookup-Stored cache pgno e found =
    elim (Option-cases (entry_find_slot cache.entries cache.capacity pgno)) [
      | inl gone ↦ let never : lookup cache pgno ≡ none = ap (entry_at cache.entries) gone in cc
      | inr (i, here) ↦
          let (f, (at, page)) = find_slot-Holds cache.entries cache.capacity pgno i here in
          let same : e ≡ f = some_inj (sym found ∙ ap (entry_at cache.entries) here ∙ at) in
          ((i, at ∙ ap some (sym same)), ap (λ z. z.pgno) same ∙ page)
    ]

pub Stored-lookup :
    (cache : StrideCache) (e : StrideEntry)
    → IsTable cache
    → e.pgno ≢ p_invalid
    → Stored cache.entries e
    → lookup cache e.pgno ≡ some e
Stored-lookup cache e t full (i, at) =
    ap (entry_at cache.entries) (find_slot-some cache.entries cache.capacity i e t.probed at full)
    ∙ at

-- Two caches with the same entries of a page answer the same for it.
pub lookup-same :
    (cache other : StrideCache) (pgno : ℕ)
    → IsTable cache
    → IsTable other
    → pgno ≢ p_invalid
    → ((e : StrideEntry) → e.pgno ≡ pgno → Stored cache.entries e → Stored other.entries e)
    → ((e : StrideEntry) → e.pgno ≡ pgno → Stored other.entries e → Stored cache.entries e)
    → lookup other pgno ≡ lookup cache pgno
lookup-same cache other pgno t u full there back = elim (Option-cases (lookup cache pgno)) [
  | inr (e, found) ↦
      let (stored, page) = lookup-Stored cache pgno e found in
      let same = Stored-lookup other e u (λ x. full (sym page ∙ x)) (there e page stored) in
      ap (lookup other) (sym page) ∙ same ∙ sym found
  | inl gone ↦ elim (Option-cases (lookup other pgno)) [
    | inl also ↦ also ∙ sym gone
    | inr (e, found) ↦
        let (stored, page) = lookup-Stored other pgno e found in
        let same = Stored-lookup cache e t (λ x. full (sym page ∙ x)) (back e page stored) in
        let never : lookup cache pgno ≡ some e = ap (lookup cache) (sym page) ∙ same in cc
  ]
]

-- What acquiring may do, for the map that the cache is: the page's entry, a blank one if it had none, and
-- the other pages' entries unchanged; `generation` is the tag that the cache has afterwards.
abbrev pub Acquired : StrideCache → ℕ → ℕ → Result (StrideCache × ℕ) → Type 0
Acquired cache generation pgno (err e) = e ≡ enomem
Acquired cache generation pgno (ok out) =
    IsTable out.0
    × (out.0.generation ≡ generation)
    × (get_elem? out.0.entries out.1 ≡ some (or_blank (lookup cache pgno) pgno))
    × (lookup out.0 pgno ≡ some (or_blank (lookup cache pgno) pgno))
    × ((q : ℕ) → q ≢ pgno → q ≢ p_invalid → lookup out.0 q ≡ lookup cache q)

new-Acquired :
    (cache : StrideCache) (pgno : ℕ)
    → IsTable cache
    → cache.count < cache.capacity
    → pgno ≢ p_invalid
    → entry_find_slot cache.entries cache.capacity pgno ≡ none
    → Acquired cache cache.generation pgno (acquire_new cache pgno)
unfolding acquire_new
new-Acquired cache pgno t room full gone =
    let blank = blank_entry pgno in
    let (i, found, free, w) =
      place-IsProbed cache.entries cache.capacity blank t.probed (omega (arith, t.counted)) full
        (find_slot-none cache.entries cache.capacity pgno t.probed full gone) in
    let new = record cache { entries = set cache.entries i blank; count = cache.count + 1 } in
    let u : IsTable new = record {
      probed = w;
      counted = omega (arith, t.counted, occupied-set cache.entries i blank free full);
    } in
    let missing : or_blank (lookup cache pgno) pgno ≡ blank =
      ap (λ o. or_blank (entry_at cache.entries o) pgno) gone in
    subst
      (λ r. Acquired cache cache.generation pgno (
        r >>= λ placed.
        ok (record cache { entries = placed.0; count = cache.count + 1 }, placed.1)))
      (sym found)
      (
        u,
        refl,
        get_elem?-set_self cache.entries i blank (get_elem?-lt cache.entries i free.0 free.1)
            ∙ ap some (sym missing),
        Stored-lookup new blank u full (Stored-new cache.entries i blank free)
            ∙ ap some (sym missing),
        λ q other used.
            lookup-same cache new q t u used
              (λ e page stored.
                Stored-keep cache.entries i blank e free (λ x. used (sym page ∙ x)) stored)
              (λ e page stored. elim (Stored-back cache.entries i blank e free stored) [
                | inl same ↦ absurd (other (sym page ∙ sym (ap (λ z. z.pgno) same)))
                | inr before ↦ before
              ]),
      )

-- A cache that answers the same may stand for another.
Acquired-from :
    (cache other : StrideCache) (generation pgno : ℕ) (r : Result (StrideCache × ℕ))
    → pgno ≢ p_invalid
    → ((q : ℕ) → q ≢ p_invalid → lookup other q ≡ lookup cache q)
    → Acquired other generation pgno r
    → Acquired cache generation pgno r
Acquired-from cache other generation pgno (err e) full same failed = failed
Acquired-from cache other generation pgno (ok out) full same (t, seeded, at, found, kept) =
    let here = ap (λ o. some (or_blank o pgno)) (same pgno full) in
    (t, seeded, at ∙ here, found ∙ here, λ q other_page used. kept q other_page used ∙ same q used)

Grown-Acquired :
    (cache : StrideCache) (pgno newcap : ℕ) (r : Result StrideCache)
    → IsTable cache
    → pgno ≢ p_invalid
    → entry_find_slot cache.entries cache.capacity pgno ≡ none
    → cache.count < newcap
    → Grown cache newcap r
    → Acquired cache cache.generation pgno (r >>= λ grown. acquire_new grown pgno)
Grown-Acquired cache pgno newcap (err e) t full gone more failed = failed
Grown-Acquired cache pgno newcap (ok grown) t full gone more (u, size, many, tag, there, back) =
    let absent = find_slot-none cache.entries cache.capacity pgno t.probed full gone in
    let none_there : entry_find_slot grown.entries grown.capacity pgno ≡ none =
      elim (Option-cases (entry_find_slot grown.entries grown.capacity pgno)) [
        | inl gone ↦ gone
        | inr (i, found) ↦
            let (e, (at, page)) = find_slot-Holds grown.entries grown.capacity pgno i found in
            let (j, before) = back e (λ x. full (sym page ∙ x)) (i, at) in
            absurd (absent j e before page)
      ] in
    Acquired-from cache grown cache.generation pgno (acquire_new grown pgno) full
      (λ q used.
        lookup-same cache grown q t u used
          (λ e page stored. there e (λ x. used (sym page ∙ x)) stored)
          (λ e page stored. back e (λ x. used (sym page ∙ x)) stored))
      (subst (λ g. Acquired grown g pgno (acquire_new grown pgno)) tag
        (new-Acquired grown pgno u (omega (arith, size, many)) full none_there))

-- On a seeded cache.
seeded-Acquired :
    (os : Allocator) (cache : StrideCache) (pgno : ℕ)
    → IsTable cache
    → cache.capacity * 3 < word32
    → pgno ≢ p_invalid
    → entry_find_slot cache.entries cache.capacity pgno ≡ none
    → Acquired cache cache.generation pgno (
        if cache.capacity == 0 || ltb (cache.capacity * 3 % word32 / 4) (cache.count + 1)
        then acquire_grown os cache pgno
        else acquire_new cache pgno)
unfolding acquire_grown
seeded-Acquired os cache pgno t small full gone =
    let bound : cache.count ≤ cache.capacity =
      omega (arith, t.counted, occupied-le cache.entries, t.probed.sized) in
    elim (Bool-cases
      (cache.capacity == 0 || ltb (cache.capacity * 3 % word32 / 4) (cache.count + 1))) [
        | inl tight ↦ rw tight (
            Grown-Acquired cache pgno (new_capacity cache) (cache_grow os cache) t full gone
              (ground arith) (cache_grow-Grown os cache t (omega arith)))
        | inr spare ↦ rw spare (new-Acquired cache pgno t (ground arith) full gone)
      ]

slot-Acquired :
    (os : Allocator) (cache : StrideCache) (pgno : ℕ)
    → IsTable cache
    → cache.capacity * 3 < word32
    → pgno ≢ p_invalid
    → (o : Option ℕ) → entry_find_slot cache.entries cache.capacity pgno ≡ o
    → Acquired cache cache.generation pgno (acquire_slot os cache pgno o)
unfolding acquire_slot
slot-Acquired os cache pgno t small full none gone = seeded-Acquired os cache pgno t small full gone
slot-Acquired os cache pgno t small full (some i) found =
    let (e, (at, page)) = find_slot-Holds cache.entries cache.capacity pgno i found in
    let here : lookup cache pgno ≡ some e = ap (entry_at cache.entries) found ∙ at in
    let mine : or_blank (lookup cache pgno) pgno ≡ e = ap (λ o. or_blank o pgno) here in
    (t, refl, at ∙ ap some (sym mine), here ∙ ap some (sym mine), λ q other used. refl)

abbrev pub next_generation : StrideCache → ℕ
next_generation cache = if cache.generation == 0 then 1 else cache.generation

pub seed_cases :
    (cache : StrideCache) → seed cache ≡ record cache { generation = next_generation cache }
seed_cases cache = elim (Bool-cases (cache.generation == 0)) [
  | inl unset ↦ rw unset refl
  | inr set ↦ rw set refl
]

-- For a well-formed cache of a capacity below 2 ^ 32 / 3 and a page number other than `P_INVALID`,
-- acquiring either fails with `ENOMEM`, or gives a well-formed cache with a generation other than 0 in
-- which the slot returned holds the page's entry: the one it had, or a blank one if it had none. The
-- search finds that entry from then on, and finds for every other page what it found before, whether
-- the table was grown or not.
pub acquire-Acquired :
    (os : Allocator) (cache : StrideCache) (pgno : ℕ)
    → IsTable cache
    → cache.capacity * 3 < word32
    → pgno ≢ p_invalid
    → Acquired cache (next_generation cache) pgno (entry_acquire os cache pgno)
unfolding entry_acquire
acquire-Acquired os cache pgno t small full =
    let seeded = record cache { generation = next_generation cache } in
    let u : IsTable seeded = record { probed = t.probed; counted = t.counted } in
    rw (seed_cases cache) (
      slot-Acquired os seeded pgno u small full (entry_find_slot cache.entries cache.capacity pgno)
        refl)
