-- ===== src/Stride/Rebuild.antt =====
-- Rebuilding an entry of the cache from the keys of its page.
use mathlib.Core.Path.{subst}
use dlmdb.Base.{
  ℕ, zero, suc, ◌+◌, ◌-◌, ◌≤◌, ◌<◌, ◌≡◌, refl, sym, ap, ◌∙◌, List, [], ◌∷◌, ◌++◌, map, Bool, true,
  false, ◌&&◌, ◌||◌, not, if◌then◌else◌, ltb, ◌==◌, word32, length, take, set, arith, All, Result,
  ne→==, ◌≢◌, ok, err, enomem, ◌>>=◌, Allocator, length-set, length-map, Bool-cases, inl, inr,
}
use dlmdb.LeafKey.Canonical.{prefix_decoded_length}
use dlmdb.Stride.{
  LeafPage, raise, leaf_store_stride, leaf_maxdecoded, leaf_refresh_stride, StrideEntry,
  stride_pack_length, stride_entry_reserve, rebuild_loop, rebuild_entry, stride_entry_rebuild,
}
use dlmdb.Stride.Longest.{maximum, decoded_lengths, leaf_maxdecoded-maximum}
use dlmdb.Stride.Reserve.{Reserved, entry_reserve-Reserved}
use dlmdb.Stride.Tracks.{pad_for, store_stride-pad, Tracks}

append_nil : (xs : List ℕ) → xs ++ [] ≡ xs
append_nil [] = refl
append_nil (x ∷ xs) = ap (λ l. x ∷ l) (append_nil xs)

append_assoc : (xs ys zs : List ℕ) → (xs ++ ys) ++ zs ≡ xs ++ (ys ++ zs)
append_assoc [] ys zs = refl
append_assoc (x ∷ xs) ys zs = ap (λ l. x ∷ l) (append_assoc xs ys zs)

take-suc-set :
    (i : ℕ) (cells : List ℕ) (v : ℕ)
    → i < length cells
    → take (suc i) (set cells i v) ≡ take i cells ++ (v ∷ [])
take-suc-set i [] v h = elim h [ ]
take-suc-set zero (x ∷ cells) v h = refl
take-suc-set (suc i) (x ∷ cells) v h = ap (λ l. x ∷ l) (take-suc-set i cells v (omega arith))

-- The cells that the loop gives: those before `i` are kept, and the lengths of the keys follow.
record Filled (lengths : List ℕ) (i : ℕ) (ls : List ℕ) (cells : List ℕ) : Type 0 where
  size : length cells ≡ length lengths
  held : take (i + length ls) cells ≡ take i lengths ++ ls

rebuild_loop-Filled :
    (trunk_len : ℕ) (keys : List (List ℕ)) (i : ℕ) (lengths : List ℕ) (max_len : ℕ)
    → i + length keys ≤ length lengths
    → All (λ l. l < word32) (map (prefix_decoded_length trunk_len) keys)
    → (cells : List ℕ) × (rebuild_loop trunk_len keys i lengths max_len
        ≡ ok (cells, raise max_len (maximum (map (prefix_decoded_length trunk_len) keys))))
      × Filled lengths i (map (prefix_decoded_length trunk_len) keys) cells
unfolding rebuild_loop stride_pack_length
rebuild_loop-Filled trunk_len [] i lengths max_len h small = (
  lengths,
  ap (λ m. ok (lengths, m)) (ground arith),
  record {
    size = refl;
    held = ap (λ k. take k lengths) (omega arith) ∙ sym (append_nil (take i lengths));
  },
)
rebuild_loop-Filled trunk_len (encoded ∷ keys) i lengths max_len h small =
    let len = prefix_decoded_length trunk_len encoded in
    let rest = map (prefix_decoded_length trunk_len) keys in
    let packed : ltb (word32 - 1) len ≡ false = ground (arith, small.0) in
    let inside : ltb i (length lengths) ≡ true = ground arith in
    let (cells, e, f) =
      rebuild_loop-Filled trunk_len keys (suc i) (set lengths i len) (raise max_len len)
        (omega (arith, length-set lengths i len)) small.1 in
    let most : raise (raise max_len len) (maximum rest) ≡ raise max_len (raise len (maximum rest)) =
      ground arith in
    let shift : i + suc (length rest) ≡ suc i + length rest = omega arith in
    rw (packed, inside)
      (
        cells,
        e ∙ ap (λ m. ok (cells, m)) most,
        record {
          size = f.size ∙ length-set lengths i len;
          held =
              ap (λ k. take k cells) shift
              ∙ f.held
              ∙ ap (λ l. l ++ rest) (take-suc-set i lengths len (omega arith))
              ∙ append_assoc (take i lengths) (len ∷ []) rest;
        },
      )

-- What a rebuilding may do, for the lengths `ls` of the keys and the page number of the entry.
abbrev pub Rebuilt : Bool → ℕ → LeafPage → List ℕ → ℕ → Result (StrideEntry × LeafPage) → Type 0
Rebuilt prefix_enabled generation mp ls pgno (err e) = e ≡ enomem
Rebuilt prefix_enabled generation mp ls pgno (ok out) =
    Tracks out.0 ls
    × (out.0.pgno ≡ pgno)
    × (out.0.valid ≡ generation)
    × (out.1 ≡ record mp { pad = pad_for prefix_enabled mp (maximum ls) })

rebuild_entry-Rebuilt :
    (prefix_enabled : Bool) (generation : ℕ) (mp : LeafPage) (keys : List (List ℕ))
    (room : StrideEntry)
    → length keys ≤ length room.lengths
    → All (λ l. l < word32) (decoded_lengths keys)
    → Rebuilt prefix_enabled generation mp
        (decoded_lengths keys)
        room.pgno
        (rebuild_entry prefix_enabled generation mp keys room)
unfolding rebuild_entry stride_pack_length
rebuild_entry-Rebuilt prefix_enabled generation mp [] room h small = (
  record {
    counted = refl;
    room = omega arith;
    held = refl;
    bounded = omega arith;
    exact = λ e. refl;
  },
  refl,
  refl,
  store_stride-pad prefix_enabled mp 0,
)
rebuild_entry-Rebuilt prefix_enabled generation mp (trunk ∷ keys) room h small =
    let rest = map (prefix_decoded_length (length trunk)) keys in
    let packed : ltb (word32 - 1) (length trunk) ≡ false = ground (arith, small.0) in
    let inside : ltb 0 (length room.lengths) ≡ true = ground arith in
    let first = set room.lengths 0 (length trunk) in
    let size = length-set room.lengths 0 (length trunk) in
    let (cells, e, f) =
      rebuild_loop-Filled (length trunk) keys 1 first (length trunk) (omega (arith, size))
        small.1 in
    let many = length-map keys (prefix_decoded_length (length trunk)) in
    let all_of : suc (length keys) ≡ 1 + length rest = omega (arith, many) in
    rw (packed, inside, e)
      (
        record {
          counted = ap suc (sym many);
          room = omega (arith, f.size, size, many);
          held =
              ap (λ k. take k cells) all_of
              ∙ f.held
              ∙ ap (λ l. l ++ rest) (take-suc-set 0 room.lengths (length trunk) (omega arith));
          bounded = omega arith;
          exact = λ _. refl;
        },
        refl,
        refl,
        store_stride-pad prefix_enabled mp (maximum (decoded_lengths (trunk ∷ keys))),
      )

Reserved-Rebuilt :
    (prefix_enabled : Bool) (generation : ℕ) (mp : LeafPage) (keys : List (List ℕ))
    (entry : StrideEntry) (need : ℕ) (r : Result StrideEntry)
    → length keys ≤ need
    → All (λ l. l < word32) (decoded_lengths keys)
    → Reserved entry need r
    → Rebuilt prefix_enabled generation mp
        (decoded_lengths keys)
        entry.pgno
        (r >>= λ room. rebuild_entry prefix_enabled generation mp keys room)
Reserved-Rebuilt prefix_enabled generation mp keys entry need (err e) h small failed = failed
Reserved-Rebuilt prefix_enabled generation mp keys entry need (ok room) h small
      (cells, same, le, keep) =
    subst
      (λ pgno.
        Rebuilt prefix_enabled generation mp (decoded_lengths keys) pgno
          (rebuild_entry prefix_enabled generation mp keys room))
      (ap (λ r. r.pgno) same)
      (rebuild_entry-Rebuilt prefix_enabled generation mp keys room
        (omega (arith, ap (λ r. length r.lengths) same)) small)

-- On a leaf page of variable-size keys that is no sub-page, whose keys decode to less than 2 ^ 32 bytes,
-- and for a generation other than 0, a rebuilding of any entry either fails with `ENOMEM`, or gives an entry for the same page, of the cache's
-- generation, that holds the decoded length of every key, and the same page but for the stride
-- in `mp_pad`, which comes from their maximum.
pub entry_rebuild-Rebuilt :
    (os : Allocator) (prefix_enabled : Bool) (generation : ℕ) (mp : LeafPage) (entry : StrideEntry)
    → generation ≢ 0
    → mp.leaf && not mp.leaf2 && not mp.subp ≡ true
    → All (λ l. l < word32) (decoded_lengths mp.keys)
    → Rebuilt prefix_enabled generation mp
        (decoded_lengths mp.keys)
        entry.pgno
        (stride_entry_rebuild os prefix_enabled generation mp entry)
unfolding stride_entry_rebuild
entry_rebuild-Rebuilt os prefix_enabled generation mp entry tagged on small =
    let tag : (generation == 0) ≡ false = ne→== generation 0 tagged in
    let kind : (not mp.leaf || mp.leaf2 || mp.subp) ≡ false = ground arith in
    let need = if length mp.keys == 0 then 1 else length mp.keys in
    simp (kind, tag)
      (Reserved-Rebuilt prefix_enabled generation mp mp.keys entry need
        (stride_entry_reserve os entry need) (ground arith) small
        (entry_reserve-Reserved os entry need))

refresh_cases :
    (prefix_enabled : Bool) (mp : LeafPage) (keys : List (List ℕ)) (stride : ℕ)
    → (not mp.leaf || mp.leaf2 || not prefix_enabled) ≡ false
    → stride ≡ maximum (decoded_lengths keys)
    → (elim keys as (λ _. LeafPage) [
      | [] ↦ record mp { pad = 0 }
      | trunk ∷ keys ↦
          leaf_store_stride prefix_enabled mp (if stride == 0 then length trunk else stride)
    ])
      ≡ leaf_store_stride prefix_enabled mp (maximum (decoded_lengths keys))
refresh_cases prefix_enabled mp [] stride on whole = simp on refl
refresh_cases prefix_enabled mp (trunk ∷ keys) stride on whole =
    let same : (if stride == 0 then length trunk else stride)
        ≡ maximum (decoded_lengths (trunk ∷ keys)) =
      ground arith in
    ap (leaf_store_stride prefix_enabled mp) same

-- On a leaf page of variable-size keys, decoding all of them again stores the same stride as a rebuilding
-- or an update of an entry that holds their lengths.
pub refresh_stride-maximum :
    (prefix_enabled : Bool) (mp : LeafPage)
    → mp.leaf && not mp.leaf2 ≡ true
    → leaf_refresh_stride prefix_enabled mp
      ≡ leaf_store_stride prefix_enabled mp (maximum (decoded_lengths mp.keys))
unfolding leaf_refresh_stride
refresh_stride-maximum prefix_enabled mp on =
    elim (Bool-cases (not mp.leaf || mp.leaf2 || not prefix_enabled)) [
      | inl off ↦ simp off refl
      | inr ready ↦
          let whole =
            refresh_cases prefix_enabled mp mp.keys (leaf_maxdecoded mp) ready
              (leaf_maxdecoded-maximum mp on) in
          simp ready (simp ready at whole)
    ]
