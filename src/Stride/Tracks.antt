-- ===== src/Stride/Tracks.antt =====
-- An entry of the cache as the list of lengths that it holds.
use dlmdb.Base.{
  Bool, ◌||◌, ◌&&◌, not, if◌then◌else◌, min, ltb, ◌-◌, ◌^◌, ℕ_discrete, ne→==, eq→==, Bool-cases,
  inl, inr, ℕ, zero, suc, ◌≤◌, ◌<◌, ◌≡◌, ◌≢◌, refl, ap, ◌∙◌, List, [], ◌∷◌, true, false, ◌==◌,
  length, take, drop, get_or, arith,
}
use dlmdb.Stride.{LeafPage, leaf_store_stride, raise, entry_max_loop, StrideEntry, stride_entry_max}
use dlmdb.Stride.Longest.{maximum, entry_max_loop-maximum}

pub record Tracks (entry : StrideEntry) (ls : List ℕ) : Type 0 where
  pub counted : entry.count ≡ length ls
  pub room : entry.count ≤ length entry.lengths
  pub held : take entry.count entry.lengths ≡ ls
  pub bounded : maximum ls ≤ entry.max_len
  pub exact : entry.max_valid ≡ true → entry.max_len ≡ maximum ls

-- What `mp_pad` is to be for the longest length `m`: it is no stride on a LEAF2 page, and holds 16 bits.
abbrev pub pad_for : Bool → LeafPage → ℕ → ℕ
pad_for prefix_enabled mp m =
    if mp.leaf2 then mp.pad else if mp.leaf && prefix_enabled then min m 65535 else 0

store_cases :
    (leaf leaf2 enabled : Bool) (mp : LeafPage) (stride pad : ℕ)
    → stride ≡ pad
    → (if not leaf || leaf2 || not enabled
        then (if not leaf2 then record mp { pad = 0 } else mp)
        else record mp { pad = stride })
      ≡ record mp { pad = if leaf2 then mp.pad else if leaf && enabled then pad else 0 }
store_cases true true enabled mp stride pad e = refl
store_cases false true enabled mp stride pad e = refl
store_cases true false true mp stride pad e = ap (λ p. record mp { pad = p }) e
store_cases true false false mp stride pad e = refl
store_cases false false enabled mp stride pad e = refl

pub store_stride-pad :
    (prefix_enabled : Bool) (mp : LeafPage) (m : ℕ)
    → leaf_store_stride prefix_enabled mp m ≡ record mp { pad = pad_for prefix_enabled mp m }
store_stride-pad prefix_enabled mp m =
    store_cases mp.leaf mp.leaf2 prefix_enabled mp (if ltb (2 ^ 16 - 1) m then 2 ^ 16 - 1 else m)
      (min m 65535) (ground arith)

abbrev pub inserted_at : List ℕ → ℕ → ℕ → List ℕ
inserted_at ls zero v = v ∷ ls
inserted_at [] (suc i) v = v ∷ []
inserted_at (x ∷ ls) (suc i) v = x ∷ inserted_at ls i v

abbrev pub removed_at : List ℕ → ℕ → List ℕ
removed_at [] i = []
removed_at (x ∷ ls) zero = ls
removed_at (x ∷ ls) (suc i) = x ∷ removed_at ls i

pub maximum-inserted_at :
    (ls : List ℕ) (i v : ℕ) → maximum (inserted_at ls i v) ≡ raise v (maximum ls)
maximum-inserted_at ls zero v = refl
maximum-inserted_at [] (suc i) v = refl
maximum-inserted_at (x ∷ ls) (suc i) v = ground (arith, maximum-inserted_at ls i v)

pub maximum-removed_at :
    (ls : List ℕ) (i : ℕ)
    → i < length ls
    → maximum ls ≡ raise (get_or ls i 0) (maximum (removed_at ls i))
maximum-removed_at [] i h = elim h [ ]
maximum-removed_at (x ∷ ls) zero h = refl
maximum-removed_at (x ∷ ls) (suc i) h = ground (arith, maximum-removed_at ls i (omega arith))

pub length-inserted_at : (ls : List ℕ) (i v : ℕ) → length (inserted_at ls i v) ≡ suc (length ls)
length-inserted_at ls zero v = refl
length-inserted_at [] (suc i) v = refl
length-inserted_at (x ∷ ls) (suc i) v = ap suc (length-inserted_at ls i v)

pub length-removed_at :
    (ls : List ℕ) (i : ℕ) → i < length ls → suc (length (removed_at ls i)) ≡ length ls
length-removed_at [] i h = elim h [ ]
length-removed_at (x ∷ ls) zero h = refl
length-removed_at (x ∷ ls) (suc i) h = ap suc (length-removed_at ls i (omega arith))

pub max_loop-held :
    (count : ℕ) (cells ls : List ℕ)
    → count ≢ 0
    → take count cells ≡ ls
    → entry_max_loop (drop 1 (take count cells)) (get_or cells 0 0) ≡ maximum ls
max_loop-held zero cells ls ne held = absurd (ne refl)
max_loop-held (suc n) [] ls ne held = entry_max_loop-maximum [] 0 ∙ ap maximum held
max_loop-held (suc n) (x ∷ cells) ls ne held =
    entry_max_loop-maximum (take n cells) x ∙ ap maximum held

empty_max :
    (entry : StrideEntry) (ls : List ℕ)
    → Tracks entry ls
    → entry.count ≡ 0
    → ((stride_entry_max entry).1 ≡ maximum ls) × Tracks (stride_entry_max entry).0 ls
unfolding stride_entry_max
empty_max entry [] t z =
    let none_left : (entry.count == 0) ≡ true = eq→== entry.count 0 z in simp none_left (refl, t)
empty_max entry (x ∷ ls) t z = absurd (omega (arith, t.counted, z))

-- The maximum that is cached or computed, and the entry with it.
pub entry_max-Tracks :
    (entry : StrideEntry) (ls : List ℕ)
    → Tracks entry ls
    → ((stride_entry_max entry).1 ≡ maximum ls) × Tracks (stride_entry_max entry).0 ls
unfolding stride_entry_max
entry_max-Tracks entry ls t = elim (ℕ_discrete entry.count 0) [
  | yes z ↦ empty_max entry ls t z
  | no nz ↦
      let some_left : (entry.count == 0) ≡ false = ne→== entry.count 0 nz in
      elim (Bool-cases entry.max_valid) [
        | inl cached ↦ simp (some_left, cached) (t.exact cached, t)
        | inr stale ↦
            let found = max_loop-held entry.count entry.lengths ls nz t.held in
            simp (some_left, stale)
              (
                found,
                record {
                  counted = t.counted;
                  room = t.room;
                  held = t.held;
                  bounded = omega (arith, found);
                  exact = λ e. found;
                },
              )
      ]
]
