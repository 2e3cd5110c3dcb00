-- ===== src/Stride/Table/Reset.antt =====
-- The reset of the cache between transactions makes every entry stale.
use mathlib.Core.Path.{subst}
use dlmdb.Base.{
  ℕ, suc, zero, ◌+◌, ◌%◌, ◌≤◌, ◌<◌, ◌≡◌, ◌≢◌, List, [], ◌∷◌, some, word32, ◌==◌, get_elem?, arith,
  ap, sym, ◌∙◌, refl, Bool-cases, inl, inr, some_inj, length,
}
use dlmdb.Stride.{StrideEntry}
use dlmdb.Stride.Table.{StrideCache, home, clear_tags, scratch_reset}
use dlmdb.Stride.Table.Slots.{IsProbed, Reaches, IsUsed}
use dlmdb.Stride.Table.Place.{occupied}
use dlmdb.Stride.Table.Grow.{IsTable}

-- No tag is from a later generation.
pub record IsTagged (cache : StrideCache) : Type 0 where
  pub fits : cache.generation < word32
  pub tags :
      (i : ℕ) (e : StrideEntry) → get_elem? cache.entries i ≡ some e → e.valid ≤ cache.generation

-- No entry passes the test on its tag, and the cache is well-formed.
pub record Stale (cache : StrideCache) : Type 0 where
  pub table : IsTable cache
  pub tagged : IsTagged cache
  pub seeded : cache.generation ≢ 0
  pub stale :
      (i : ℕ) (e : StrideEntry) → get_elem? cache.entries i ≡ some e → e.valid ≢ cache.generation

length-clear_tags : (entries : List StrideEntry) → length (clear_tags entries) ≡ length entries
unfolding clear_tags
length-clear_tags [] = refl
length-clear_tags (x ∷ entries) = ap suc (length-clear_tags entries)

occupied-clear_tags :
    (entries : List StrideEntry) → occupied (clear_tags entries) ≡ occupied entries
unfolding clear_tags
occupied-clear_tags [] = refl
occupied-clear_tags (x ∷ entries) = ground (arith, occupied-clear_tags entries)

clear_tags_get :
    (entries : List StrideEntry) (i : ℕ) (e : StrideEntry)
    → get_elem? entries i ≡ some e
    → get_elem? (clear_tags entries) i ≡ some (record e { valid = 0 })
unfolding clear_tags
clear_tags_get [] i e at = cc
clear_tags_get (x ∷ entries) zero e at =
    ap {A = StrideEntry} (λ y. some (record y { valid = 0 })) (some_inj at)
clear_tags_get (x ∷ entries) (suc i) e at = clear_tags_get entries i e at

clear_tags_from :
    (entries : List StrideEntry) (i : ℕ) (e : StrideEntry)
    → get_elem? (clear_tags entries) i ≡ some e
    → (old : StrideEntry) × (get_elem? entries i ≡ some old) × (e.pgno ≡ old.pgno) × (e.valid ≡ 0)
unfolding clear_tags
clear_tags_from [] i e at = cc
clear_tags_from (x ∷ entries) zero e at =
    (x, refl, sym (ap (λ y. y.pgno) (some_inj at)), sym (ap (λ y. y.valid) (some_inj at)))
clear_tags_from (x ∷ entries) (suc i) e at = clear_tags_from entries i e at

clear_tags-IsUsed :
    (entries : List StrideEntry) (i : ℕ) → IsUsed entries i → IsUsed (clear_tags entries) i
clear_tags-IsUsed entries i (e, at, used) =
    (record e { valid = 0 }, clear_tags_get entries i e at, used)

clear_tags-IsProbed :
    (entries : List StrideEntry) (capacity : ℕ)
    → IsProbed entries capacity
    → IsProbed (clear_tags entries) capacity
clear_tags-IsProbed entries capacity w = record {
  sized = length-clear_tags entries ∙ w.sized;
  reached = λ i e at used.
      let (old, was, page, _) = clear_tags_from entries i e at in
      let (t, less, there, over) = w.reached i old was (λ x. used (page ∙ x)) in
      subst (λ p. Reaches (clear_tags entries) capacity (home p capacity) i) (sym page)
        (t, less, there, λ r h. clear_tags-IsUsed entries _ (over r h));
  unique = λ i j e f at there used same.
      let (old, was, page, _) = clear_tags_from entries i e at in
      let (other, also, its, _) = clear_tags_from entries j f there in
      w.unique i j old other was also (λ x. used (page ∙ x)) (sym page ∙ same ∙ its);
}

-- For a well-formed cache whose tags are not from later generations, a reset keeps the cache of that
-- kind, gives it a generation other than 0, and leaves no entry with the tag of that generation, also
-- where the generation wraps around at 2 ^ 32.
pub scratch_reset-Stale :
    (cache : StrideCache) → IsTable cache → IsTagged cache → Stale (scratch_reset cache)
unfolding scratch_reset
scratch_reset-Stale cache t g = elim (Bool-cases ((cache.generation + 1) % word32 == 0)) [
  | inl wraps ↦ rw wraps record {
    table = record {
      probed = clear_tags-IsProbed cache.entries cache.capacity t.probed;
      counted = t.counted ∙ sym (occupied-clear_tags cache.entries);
    };
    tagged = record {
      fits = omega arith;
      tags = λ i e at.
          let (old, was, page, zeroed) = clear_tags_from cache.entries i e at in
          omega (arith, zeroed);
    };
    seeded = λ e. omega arith;
    stale = λ i e at now.
        let (old, was, page, zeroed) = clear_tags_from cache.entries i e at in
        omega (arith, zeroed, now);
  }
  | inr counts ↦
      let less = g.fits in
      let nonzero : (cache.generation + 1) % word32 ≢ 0 = λ e. ground arith in
      let next : (cache.generation + 1) % word32 ≡ cache.generation + 1 =
        omega (arith, less, nonzero) in
      rw counts record {
        table = record { probed = t.probed; counted = t.counted };
        tagged = record {
          fits = omega (arith, next);
          tags = λ i e at. omega (arith, next, g.tags i e at);
        };
        seeded = nonzero;
        stale = λ i e at now. omega (arith, next, now, g.tags i e at);
      }
]
