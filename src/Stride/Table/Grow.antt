-- ===== src/Stride/Table/Grow.antt =====
-- Growing a hash table moves its entries and loses none.
use mathlib.Core.Path.{subst}
use dlmdb.Base.{
  some_inj, p_invalid, ℕ, zero, suc, ◌+◌, ◌*◌, ◌%◌, ◌≤◌, ◌<◌, ◌≡◌, ◌≢◌, refl, sym, ap, ◌∙◌, List,
  [], ◌∷◌, true, false, if◌then◌else◌, ◌==◌, word32, get_elem?, set, replicate, some, arith, Result,
  ok, err, enomem, ◌>>=◌, Allocator, ℕ_discrete, inl, inr, ◌⊎◌, get_elem?-lt, get_elem?-set_self,
  get_elem?-set_ne, eq→==, ne→==, Bool-cases, length-replicate,
}
use dlmdb.Stride.{StrideEntry}
use dlmdb.Stride.Table.{StrideCache, place, rehash, blank_entry, cache_grow}
use dlmdb.Stride.Table.Slots.{IsFree, IsProbed}
use dlmdb.Stride.Table.Place.{occupied, occupied-le, occupied-set, place-IsProbed}

abbrev pub Stored : List StrideEntry → StrideEntry → Type 0
Stored entries e = (i : ℕ) × (get_elem? entries i ≡ some e)

-- Writing to a free slot adds its entry and changes no other.
pub Stored-keep :
    (entries : List StrideEntry) (i : ℕ) (e f : StrideEntry)
    → IsFree entries i
    → f.pgno ≢ p_invalid
    → Stored entries f
    → Stored (set entries i e) f
Stored-keep entries i e f (g, free, empty) full (k, at) =
    let other : i ≢ k = λ same.
      full
        (ap (λ z. z.pgno) (some_inj (sym at ∙ sym (ap (get_elem? entries) same) ∙ free)) ∙ empty) in
    (k, get_elem?-set_ne entries e other ∙ at)

pub Stored-new :
    (entries : List StrideEntry) (i : ℕ) (e : StrideEntry)
    → IsFree entries i
    → Stored (set entries i e) e
Stored-new entries i e (g, free, empty) =
    (i, get_elem?-set_self entries i e (get_elem?-lt entries i g free))

pub Stored-back :
    (entries : List StrideEntry) (i : ℕ) (e f : StrideEntry)
    → IsFree entries i
    → Stored (set entries i e) f
    → (e ≡ f) ⊎ Stored entries f
Stored-back entries i e f (g, free, empty) (k, at) = elim (ℕ_discrete i k) [
  | yes same ↦ inl (
      some_inj (
        sym (get_elem?-set_self entries i e (get_elem?-lt entries i g free))
        ∙ ap (get_elem? (set entries i e)) same
        ∙ at))
  | no other ↦ inr (k, sym (get_elem?-set_ne entries e other) ∙ at)
]

abbrev pub IsUnique : List StrideEntry → Type 0
IsUnique entries =
    (i j : ℕ) (e f : StrideEntry)
    → get_elem? entries i ≡ some e
    → get_elem? entries j ≡ some f
    → e.pgno ≢ p_invalid
    → e.pgno ≡ f.pgno
    → i ≡ j

-- No page has an entry in both.
abbrev pub IsApart : List StrideEntry → List StrideEntry → Type 0
IsApart entries fresh =
    (e f : StrideEntry) → Stored entries e → e.pgno ≢ p_invalid → Stored fresh f → f.pgno ≢ e.pgno

pub record Moved (entries fresh out : List StrideEntry) (newcap : ℕ) : Type 0 where
  pub probed : IsProbed out newcap
  pub many : occupied out ≡ occupied fresh + occupied entries
  pub kept :
      (e : StrideEntry) → e.pgno ≢ p_invalid → Stored entries e ⊎ Stored fresh e → Stored out e
  pub only :
      (e : StrideEntry) → e.pgno ≢ p_invalid → Stored out e → Stored entries e ⊎ Stored fresh e

suc_inj : {m n : ℕ} → suc m ≡ suc n → m ≡ n
suc_inj e = omega arith

rehash_skip :
    (old : StrideEntry) (entries fresh : List StrideEntry) (newcap : ℕ)
    → old.pgno ≡ p_invalid
    → rehash (old ∷ entries) fresh newcap ≡ rehash entries fresh newcap
unfolding rehash
rehash_skip old entries fresh newcap empty =
    let none_here : (old.pgno == p_invalid) ≡ true = eq→== old.pgno p_invalid empty in
    rw (none_here, rehash) refl

rehash-place :
    (old : StrideEntry) (entries fresh placed : List StrideEntry) (newcap i : ℕ)
    → old.pgno ≢ p_invalid
    → place fresh newcap old ≡ ok (placed, i)
    → rehash (old ∷ entries) fresh newcap ≡ rehash entries placed newcap
unfolding rehash
rehash-place old entries fresh placed newcap i full found =
    let here : (old.pgno == p_invalid) ≡ false = ne→== old.pgno p_invalid full in
    rw (here, found, rehash) refl

IsUnique-tail :
    (old : StrideEntry) (entries : List StrideEntry) → IsUnique (old ∷ entries) → IsUnique entries
IsUnique-tail old entries unique i j e f at there full page =
    suc_inj (unique (suc i) (suc j) e f at there full page)

Stored-tail :
    (old e : StrideEntry) (entries : List StrideEntry)
    → Stored (old ∷ entries) e
    → (old ≡ e) ⊎ Stored entries e
Stored-tail old e entries (zero, at) = inl (some_inj at)
Stored-tail old e entries (suc i, at) = inr (i, at)

skip_Moved :
    (old : StrideEntry) (entries fresh out : List StrideEntry) (newcap : ℕ)
    → old.pgno ≡ p_invalid
    → Moved entries fresh out newcap
    → Moved (old ∷ entries) fresh out newcap
skip_Moved old entries fresh out newcap empty moved = record {
  probed = moved.probed;
  many = ground (arith, moved.many);
  kept = λ e full h. elim h [
    | inl here ↦ elim (Stored-tail old e entries here) [
      | inl same ↦ absurd (full (sym (ap (λ z. z.pgno) same) ∙ empty))
      | inr there ↦ moved.kept e full (inl there)
    ]
    | inr there ↦ moved.kept e full (inr there)
  ];
  only = λ e full there. elim (moved.only e full there) [
    | inl (i, at) ↦ inl (suc i, at)
    | inr other ↦ inr other
  ];
}

place_Moved :
    (old : StrideEntry) (entries fresh out : List StrideEntry) (newcap i : ℕ)
    → old.pgno ≢ p_invalid
    → IsFree fresh i
    → Moved entries (set fresh i old) out newcap
    → Moved (old ∷ entries) fresh out newcap
place_Moved old entries fresh out newcap i used free moved = record {
  probed = moved.probed;
  many = ground (arith, moved.many, occupied-set fresh i old free used);
  kept = λ e full h. elim h [
    | inl here ↦ elim (Stored-tail old e entries here) [
      | inl same ↦
          moved.kept e full
            (inr (subst (Stored (set fresh i old)) same (Stored-new fresh i old free)))
      | inr there ↦ moved.kept e full (inl there)
    ]
    | inr there ↦ moved.kept e full (inr (Stored-keep fresh i old e free full there))
  ];
  only = λ e full there. elim (moved.only e full there) [
    | inl (k, at) ↦ inl (suc k, at)
    | inr new ↦ elim (Stored-back fresh i old e free new) [
      | inl same ↦ inl (0, ap some same)
      | inr before ↦ inr before
    ]
  ];
}

place-IsApart :
    (old : StrideEntry) (entries fresh : List StrideEntry) (i : ℕ)
    → IsUnique (old ∷ entries)
    → IsApart (old ∷ entries) fresh
    → IsFree fresh i
    → IsApart entries (set fresh i old)
place-IsApart old entries fresh i unique apart free e f (k, at) full new page =
    elim (Stored-back fresh i old f free new) [
      | inl same ↦
          let clash : suc k ≡ 0 =
            unique (suc k) 0 e old at refl full (sym page ∙ sym (ap (λ z. z.pgno) same)) in
          absurd (omega arith)
      | inr before ↦ apart e f (suc k, at) full before page
    ]

-- Moving well-formed entries into a well-formed table with room for all of them ends, loses no entry and
-- adds none.
pub rehash-Moved :
    (entries fresh : List StrideEntry) (newcap : ℕ)
    → IsProbed fresh newcap
    → IsUnique entries
    → IsApart entries fresh
    → occupied fresh + occupied entries ≤ newcap
    → (out : List StrideEntry) × (rehash entries fresh newcap ≡ ok out)
      × Moved entries fresh out newcap
rehash-Moved [] fresh newcap w unique apart room = (
  fresh,
  (unfold rehash in refl),
  record {
    probed = w;
    many = omega arith;
    kept = λ e full h. elim h [ inl (i, at) ↦ cc | inr there ↦ there ];
    only = λ e full there. inr there;
  },
)
rehash-Moved (old ∷ entries) fresh newcap w unique apart room =
    elim (ℕ_discrete old.pgno p_invalid) [
      | yes empty ↦
          let (out, found, moved) =
            rehash-Moved entries fresh newcap w (IsUnique-tail old entries unique)
              (λ e f (k, at). apart e f (suc k, at)) (ground arith) in
          (
            out,
            rehash_skip old entries fresh newcap empty ∙ found,
            skip_Moved old entries fresh out newcap empty moved,
          )
      | no full ↦
          let (i, done, free, w') =
            place-IsProbed fresh newcap old w (ground arith) full
              (λ j f at. apart old f (0, refl) full (j, at)) in
          let (out, found, moved) =
            rehash-Moved entries (set fresh i old) newcap w' (IsUnique-tail old entries unique)
              (place-IsApart old entries fresh i unique apart free)
              (ground (arith, occupied-set fresh i old free full)) in
          (
            out,
            rehash-place old entries fresh (set fresh i old) newcap i full done ∙ found,
            place_Moved old entries fresh out newcap i full free moved,
          )
    ]

blank_at :
    (n i : ℕ) (e : StrideEntry)
    → get_elem? (replicate n (blank_entry p_invalid)) i ≡ some e
    → e.pgno ≡ p_invalid
blank_at zero i e at = cc
blank_at (suc n) zero e at = sym (ap (λ z. z.pgno) (some_inj at))
blank_at (suc n) (suc i) e at = blank_at n i e at

blank_occupied : (n : ℕ) → occupied (replicate n (blank_entry p_invalid)) ≡ 0
blank_occupied zero = refl
blank_occupied (suc n) = blank_occupied n

-- A new table has no entries.
pub blank-IsProbed : (n : ℕ) → IsProbed (replicate n (blank_entry p_invalid)) n
blank-IsProbed n = record {
  sized = length-replicate n (blank_entry p_invalid);
  reached = λ i e at full. absurd (full (blank_at n i e at));
  unique = λ i j e f at there full page. absurd (full (blank_at n i e at));
}

pub record IsTable (cache : StrideCache) : Type 0 where
  pub probed : IsProbed cache.entries cache.capacity
  pub counted : cache.count ≡ occupied cache.entries

-- What growing may do: fail for lack of memory, or give a table of the new capacity with the same entries.
abbrev pub Grown : StrideCache → ℕ → Result StrideCache → Type 0
Grown cache newcap (err e) = e ≡ enomem
Grown cache newcap (ok grown) =
    IsTable grown
    × (grown.capacity ≡ newcap)
    × (grown.count ≡ cache.count)
    × (grown.generation ≡ cache.generation)
    × ((e : StrideEntry) → e.pgno ≢ p_invalid → Stored cache.entries e → Stored grown.entries e)
    × ((e : StrideEntry) → e.pgno ≢ p_invalid → Stored grown.entries e → Stored cache.entries e)

abbrev pub new_capacity : StrideCache → ℕ
new_capacity cache = if cache.capacity == 0 then 8 else cache.capacity * 2

rehash_all :
    (cache : StrideCache) (newcap : ℕ)
    → IsTable cache
    → cache.capacity ≤ newcap
    → Grown cache newcap (
        rehash cache.entries (replicate newcap (blank_entry p_invalid)) newcap >>= λ fresh.
        ok (record cache { entries = fresh; capacity = newcap }))
rehash_all cache newcap t le =
    let (out, found, moved) =
      rehash-Moved cache.entries (replicate newcap (blank_entry p_invalid)) newcap
        (blank-IsProbed newcap) t.probed.unique
        (λ e f there full (j, at) page. full (sym page ∙ blank_at newcap j f at))
        (omega (arith, blank_occupied newcap, occupied-le cache.entries, t.probed.sized)) in
    subst
      (λ r.
        Grown cache newcap
          (r >>= λ fresh. ok (record cache { entries = fresh; capacity = newcap })))
      (sym found)
      (
        record {
          probed = moved.probed;
          counted = omega (arith, t.counted, moved.many, blank_occupied newcap);
        },
        refl,
        refl,
        refl,
        λ e full there. moved.kept e full (inl there),
        λ e full there. elim (moved.only e full there) [
          | inl old ↦ old
          | inr (j, at) ↦ absurd (full (blank_at newcap j e at))
        ],
      )

-- For a well-formed cache whose doubled capacity is below 2 ^ 32, growing either fails with `ENOMEM`, or
-- gives a well-formed cache of capacity 8 or twice the old one, with the same count and generation, that
-- has the same entries: the loops that look for a free slot end.
pub cache_grow-Grown :
    (os : Allocator) (cache : StrideCache)
    → IsTable cache
    → cache.capacity * 2 < word32
    → Grown cache (new_capacity cache) (cache_grow os cache)
unfolding cache_grow
cache_grow-Grown os cache t small =
    let same : (if cache.capacity == 0 then 8 else cache.capacity * 2 % word32)
        ≡ new_capacity cache =
      ground arith in
    elim (Bool-cases (os.grant (new_capacity cache * 40))) [
      | inl granted ↦ rw (same, granted) (rehash_all cache (new_capacity cache) t (ground arith))
      | inr refused ↦ rw (same, refused) refl
    ]
