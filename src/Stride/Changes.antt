-- ===== src/Stride/Changes.antt =====
-- Insertions and deletions of keys keep an entry of the cache true, without decoding the other keys.
use mathlib.Core.Path.{subst}
use dlmdb.Base.{
  length-overwrite, overwrite_nil, ℕ, zero, suc, ◌+◌, ◌-◌, ◌≤◌, ◌<◌, ◌≡◌, refl, sym, ap, ◌∙◌, List,
  [], ◌∷◌, Bool, true, false, if◌then◌else◌, ltb, leb, ◌==◌, word32, length, take, drop, set,
  get_or, arith, Result, ok, err, enomem, ◌>>=◌, Allocator, copy_in, overwrite, length-take,
  length-drop, length-set, Bool-cases, inl, inr, min, get_or-take,
}
use dlmdb.Stride.{
  LeafPage, leaf_store_stride, StrideEntry, stride_pack_length, stride_entry_reserve, insert_length,
  stride_apply_insert, shorten, stride_apply_delete,
}
use dlmdb.Stride.Longest.{maximum}
use dlmdb.Stride.Reserve.{Reserved, entry_reserve-Reserved}
use dlmdb.Stride.Tracks.{
  pad_for, store_stride-pad, Tracks, inserted_at, removed_at, maximum-inserted_at,
  maximum-removed_at, length-inserted_at, length-removed_at, entry_max-Tracks,
}

take-overwrite :
    (n : ℕ) (cells vs : List ℕ)
    → length vs ≡ n
    → n ≤ length cells
    → take n (overwrite cells 0 vs) ≡ vs
unfolding overwrite
take-overwrite zero cells [] e h = refl
take-overwrite zero cells (v ∷ vs) e h = absurd (omega arith)
take-overwrite (suc n) [] vs e h = elim h [ ]
take-overwrite (suc n) (x ∷ cells) [] e h = absurd (omega arith)
take-overwrite (suc n) (x ∷ cells) (v ∷ vs) e h =
    ap (λ l. v ∷ l) (take-overwrite n cells vs (omega arith) (omega arith))

-- The cells from `at` on moved up, and the new one written.
shift_up :
    (cells : List ℕ) (at count v : ℕ)
    → at ≤ count
    → count < length cells
    → take (suc count) (set (overwrite cells (suc at) (take (count - at) (drop at cells))) at v)
      ≡ inserted_at (take count cells) at v
unfolding overwrite
shift_up [] at count v le less = elim less [ ]
shift_up (x ∷ cells) zero count v le less =
    ap (λ l. v ∷ l)
      (take-overwrite count cells (take (count - 0) (x ∷ cells))
          (omega (arith, length-take (count - 0) (x ∷ cells))) (omega arith)
        ∙ ap (λ k. take k (x ∷ cells)) (omega arith))
shift_up (x ∷ cells) (suc at) zero v le less = absurd (omega arith)
shift_up (x ∷ cells) (suc at) (suc count) v le less =
    let step : suc count - suc at ≡ count - at = omega arith in
    rw step (ap (λ l. x ∷ l) (shift_up cells at count v (omega arith) (omega arith)))

-- The cells behind `at` moved down.
shift_down :
    (cells : List ℕ) (at count : ℕ)
    → at < count
    → count ≤ length cells
    → take (count - 1) (overwrite cells at (take (count - at - 1) (drop (at + 1) cells)))
      ≡ removed_at (take count cells) at
unfolding overwrite
shift_down [] at count less le = absurd (omega arith)
shift_down (x ∷ cells) at zero less le = absurd (omega arith)
shift_down (x ∷ cells) zero (suc count) less le =
    let one : suc count - 1 ≡ count = omega arith in
    let rest : suc count - 0 - 1 ≡ count = omega arith in
    rw (one, rest)
      (take-overwrite count (x ∷ cells) (take count cells) (omega (arith, length-take count cells))
        (omega arith))
shift_down (x ∷ cells) (suc at) (suc zero) less le = absurd (omega arith)
shift_down (x ∷ cells) (suc at) (suc (suc count)) less le =
    let one : suc (suc count) - 1 ≡ suc count = omega arith in
    let rest : suc (suc count) - suc at - 1 ≡ suc count - at - 1 = omega arith in
    let next : suc at + 1 ≡ suc (at + 1) = omega arith in
    let back : count ≡ suc count - 1 = omega arith in
    rw (one, rest, next)
      (ap (λ l. x ∷ l)
        (ap (λ k. take k (overwrite cells at (take (suc count - at - 1) (drop (at + 1) cells))))
            back
          ∙ shift_down cells at (suc count) (omega arith) (omega arith)))

-- The moving of cells, done or not, stays inside the array.
moved_up :
    (cells : List ℕ) (at count : ℕ)
    → at ≤ count
    → count < length cells
    → (if ltb at count
        then copy_in cells (at + 1) (take (count - at) (drop at cells))
        else ok cells)
      ≡ ok (overwrite cells (suc at) (take (count - at) (drop at cells)))
moved_up cells at count le less = elim (Bool-cases (ltb at count)) [
  | inl inner ↦
      let many : length (take (count - at) (drop at cells)) ≡ count - at =
        omega (arith, length-take (count - at) (drop at cells), length-drop at cells) in
      let fits : ltb (length cells) (at + 1 + length (take (count - at) (drop at cells))) ≡ false =
        ground (arith, many) in
      rw (inner, fits)
        (ap (λ k. ok (overwrite cells k (take (count - at) (drop at cells)))) (omega arith))
  | inr last ↦
      let none_left : count - at ≡ 0 = ground arith in
      rw (last, none_left) (ap ok (sym (overwrite_nil cells (suc at))))
]

moved_down :
    (cells : List ℕ) (at count : ℕ)
    → at < count
    → count ≤ length cells
    → (if ltb (at + 1) count
        then copy_in cells at (take (count - at - 1) (drop (at + 1) cells))
        else ok cells)
      ≡ ok (overwrite cells at (take (count - at - 1) (drop (at + 1) cells)))
moved_down cells at count less le = elim (Bool-cases (ltb (at + 1) count)) [
  | inl inner ↦
      let many : length (take (count - at - 1) (drop (at + 1) cells)) ≡ count - at - 1 =
        omega
          (arith, length-take (count - at - 1) (drop (at + 1) cells), length-drop (at + 1) cells) in
      let fits : ltb (length cells) (at + length (take (count - at - 1) (drop (at + 1) cells)))
          ≡ false =
        ground (arith, many) in
      rw (inner, fits) refl
  | inr last ↦
      let none_left : count - at - 1 ≡ 0 = ground arith in
      rw (last, none_left) (ap ok (sym (overwrite_nil cells at)))
]

-- What an insertion may do: fail for lack of memory, or hold the new length and store the maximum.
abbrev pub Inserted : Bool → LeafPage → List ℕ → Result (StrideEntry × LeafPage) → Type 0
Inserted prefix_enabled mp ls (err e) = e ≡ enomem
Inserted prefix_enabled mp ls (ok out) =
    Tracks out.0 ls × (out.1 ≡ record mp { pad = pad_for prefix_enabled mp (maximum ls) })

insert_bound :
    (ls : List ℕ) (at keylen max_len : ℕ)
    → maximum ls ≤ max_len
    → (leb max_len keylen ≡ true → maximum (inserted_at ls at keylen) ≡ keylen)
      × (leb max_len keylen ≡ false → maximum (inserted_at ls at keylen) ≤ max_len)
      × (leb max_len keylen ≡ false
          → maximum ls ≡ max_len
          → max_len ≡ maximum (inserted_at ls at keylen))
insert_bound ls at keylen max_len le =
    let whole = maximum-inserted_at ls at keylen in
    (λ e. ground (arith, whole), λ e. ground (arith, whole), λ e f. ground (arith, whole))

-- The new entry, before its maximum is read.
insert_Tracks :
    (entry : StrideEntry) (ls : List ℕ) (cells : List ℕ) (at keylen : ℕ)
    → Tracks entry ls
    → entry.count < length cells
    → take (suc entry.count) cells ≡ inserted_at ls at keylen
    → Tracks
        (let added = record entry { lengths = cells; count = entry.count + 1 } in
          if leb entry.max_len keylen
          then record added { max_len = keylen; max_valid = true }
          else added)
        (inserted_at ls at keylen)
insert_Tracks entry ls cells at keylen t less held =
    let (over, under, kept) = insert_bound ls at keylen entry.max_len t.bounded in
    let size : entry.count + 1 ≡ length (inserted_at ls at keylen) =
      omega (arith, length-inserted_at ls at keylen, t.counted) in
    let one : entry.count + 1 ≡ suc entry.count = omega arith in
    let cells_held : take (entry.count + 1) cells ≡ inserted_at ls at keylen =
      ap (λ k. take k cells) one ∙ held in
    elim (Bool-cases (leb entry.max_len keylen)) [
      | inl e ↦ simp e record {
        counted = size;
        room = omega arith;
        held = cells_held;
        bounded = omega (arith, over e);
        exact = λ f. sym (over e);
      }
      | inr e ↦ simp e record {
        counted = size;
        room = omega arith;
        held = cells_held;
        bounded = under e;
        exact = λ f. kept e (sym (t.exact f));
      }
    ]

insert_length-Inserted :
    (prefix_enabled : Bool) (room : StrideEntry) (mp : LeafPage) (ls : List ℕ) (indx keylen : ℕ)
    → Tracks room ls
    → room.count < length room.lengths
    → keylen < word32
    → Inserted prefix_enabled mp
        (inserted_at ls (min indx room.count) keylen)
        (insert_length prefix_enabled room mp indx keylen)
unfolding insert_length stride_pack_length
insert_length-Inserted prefix_enabled room mp ls indx keylen t less small =
    let at = if ltb room.count indx then room.count else indx in
    let same : at ≡ min indx room.count = ground arith in
    let le : at ≤ room.count = ground arith in
    let packed : ltb (word32 - 1) keylen ≡ false = ground arith in
    let moved = overwrite room.lengths (suc at) (take (room.count - at) (drop at room.lengths)) in
    let size =
      length-overwrite room.lengths (suc at) (take (room.count - at) (drop at room.lengths)) in
    let inside : ltb at (length moved) ≡ true = ground (arith, size) in
    let held =
      shift_up room.lengths at room.count keylen le less
      ∙ ap (λ c. inserted_at c at keylen) t.held in
    let new =
      insert_Tracks room ls (set moved at keylen) at keylen t
        (omega (arith, size, length-set moved at keylen)) held in
    let out = entry_max-Tracks _ (inserted_at ls at keylen) new in
    rw (sym same, moved_up room.lengths at room.count le less, inside, packed)
      (
        out.1,
        ap (leaf_store_stride prefix_enabled mp) out.0
            ∙ store_stride-pad prefix_enabled mp (maximum (inserted_at ls at keylen)),
      )

Reserved-Inserted :
    (prefix_enabled : Bool) (entry : StrideEntry) (mp : LeafPage) (ls : List ℕ) (indx keylen : ℕ)
    → Tracks entry ls
    → keylen < word32
    → (r : Result StrideEntry) → Reserved entry (entry.count + 1) r
    → Inserted prefix_enabled mp
        (inserted_at ls (min indx entry.count) keylen)
        (r >>= λ room. insert_length prefix_enabled room mp indx keylen)
Reserved-Inserted prefix_enabled entry mp ls indx keylen t small (err e) failed = failed
Reserved-Inserted prefix_enabled entry mp ls indx keylen t small (ok room) (cells, same, le, keep) =
    let grown : Tracks (record entry { lengths = cells }) ls = record {
      counted = t.counted;
      room = omega arith;
      held = keep entry.count t.room ∙ t.held;
      bounded = t.bounded;
      exact = t.exact;
    } in
    subst
      (λ e.
        Inserted prefix_enabled mp (inserted_at ls (min indx entry.count) keylen)
          (insert_length prefix_enabled e mp indx keylen))
      (sym same)
      (insert_length-Inserted prefix_enabled (record entry { lengths = cells }) mp ls indx keylen
        grown (omega arith) small)

-- For an entry that holds the lengths `ls` and a key shorter than 2 ^ 32, an insertion either fails with
-- `ENOMEM`, or gives an entry that holds `ls` with the new length put in at the smaller of the index and
-- the count, and the same page but for `mp_pad`, which is the maximum of these lengths cut to 16 bits, whether the cached
-- maximum was still exact or only a bound; a LEAF2 page keeps its `mp_pad`, and it is 0 on other pages that
-- are no leaf or without prefix compression.
pub apply_insert-Inserted :
    (os : Allocator) (prefix_enabled : Bool) (entry : StrideEntry) (mp : LeafPage) (ls : List ℕ)
    (indx keylen : ℕ)
    → Tracks entry ls
    → keylen < word32
    → Inserted prefix_enabled mp
        (inserted_at ls (min indx entry.count) keylen)
        (stride_apply_insert os prefix_enabled entry mp indx keylen)
unfolding stride_apply_insert
apply_insert-Inserted os prefix_enabled entry mp ls indx keylen t small =
    Reserved-Inserted prefix_enabled entry mp ls indx keylen t small
      (stride_entry_reserve os entry (entry.count + 1))
      (entry_reserve-Reserved os entry (entry.count + 1))

delete_bound :
    (ls : List ℕ) (i max_len : ℕ)
    → i < length ls
    → maximum ls ≤ max_len
    → (maximum (removed_at ls i) ≤ max_len)
      × (leb max_len (get_or ls i 0) ≡ false
          → max_len ≡ maximum ls
          → max_len ≡ maximum (removed_at ls i))
delete_bound ls i max_len less le =
    let whole = maximum-removed_at ls i less in
    (ground (arith, whole), λ e f. ground (arith, whole))

checked_Tracks :
    (entry : StrideEntry) (ls cells : List ℕ) (i : ℕ)
    → Tracks entry ls
    → i < entry.count
    → entry.count ≤ length cells
    → take (entry.count - 1) cells ≡ removed_at ls i
    → Tracks
        (let fewer = record entry { lengths = cells; count = entry.count - 1 } in
          if leb entry.max_len (get_or ls i 0) then record fewer { max_valid = false } else fewer)
        (removed_at ls i)
checked_Tracks entry ls cells i t less room held =
    let (under, kept) = delete_bound ls i entry.max_len (omega (arith, t.counted)) t.bounded in
    let size : entry.count - 1 ≡ length (removed_at ls i) =
      omega (arith, length-removed_at ls i (omega (arith, t.counted)), t.counted) in
    elim (Bool-cases (leb entry.max_len (get_or ls i 0))) [
      | inl e ↦ simp e record {
        counted = size;
        room = omega arith;
        held = held;
        bounded = under;
        exact = λ f. cc;
      }
      | inr e ↦ simp e record {
        counted = size;
        room = omega arith;
        held = held;
        bounded = under;
        exact = λ f. kept e (t.exact f);
      }
    ]

maximum_nil : (ls : List ℕ) → length ls ≡ 0 → maximum ls ≡ 0
maximum_nil [] e = refl
maximum_nil (x ∷ ls) e = absurd (omega arith)

shorten-Inserted :
    (prefix_enabled : Bool) (entry : StrideEntry) (mp : LeafPage) (ls cells : List ℕ) (i : ℕ)
    → Tracks entry ls
    → i < entry.count
    → entry.count ≤ length cells
    → take (entry.count - 1) cells ≡ removed_at ls i
    → Inserted prefix_enabled mp (removed_at ls i) (
        ok (
          shorten prefix_enabled
            (record entry { lengths = cells; count = entry.count - 1 })
            mp
            (get_or ls i 0)))
shorten-Inserted prefix_enabled entry mp ls cells i t less room held =
    let checked = checked_Tracks entry ls cells i t less room held in
    let size : entry.count - 1 ≡ length (removed_at ls i) =
      omega (arith, length-removed_at ls i (omega (arith, t.counted)), t.counted) in
    elim (Bool-cases (entry.count - 1 == 0)) [
      | inl e ↦
          let empty = maximum_nil (removed_at ls i) (ground (arith, size)) in
          simp e (
            record {
              counted = size;
              room = omega arith;
              held = held;
              bounded = omega (arith, empty);
              exact = λ f. sym empty;
            },
            ap (leaf_store_stride prefix_enabled mp) (sym empty)
                ∙ store_stride-pad prefix_enabled mp (maximum (removed_at ls i)),
          )
      | inr e ↦
          let out = entry_max-Tracks _ (removed_at ls i) checked in
          simp e (
            out.1,
            ap (leaf_store_stride prefix_enabled mp) out.0
                ∙ store_stride-pad prefix_enabled mp (maximum (removed_at ls i)),
          )
    ]

-- For an entry that holds the lengths `ls` and an index below its count, a deletion succeeds and gives an
-- entry that holds `ls` without the length at that index, and the same page but for `mp_pad`, which is the
-- maximum of the lengths that are left cut to 16 bits; a LEAF2 page keeps its `mp_pad`, and it is 0 on other
-- pages that are no leaf or without prefix compression.
pub apply_delete-Inserted :
    (prefix_enabled : Bool) (entry : StrideEntry) (mp : LeafPage) (ls : List ℕ) (indx : ℕ)
    → Tracks entry ls
    → indx < entry.count
    → (out : StrideEntry × LeafPage) × (stride_apply_delete prefix_enabled entry mp indx ≡ ok out)
      × Inserted prefix_enabled mp (removed_at ls indx) (ok out)
unfolding stride_apply_delete
apply_delete-Inserted prefix_enabled entry mp ls indx t less =
    let inside : leb entry.count indx ≡ false = ground arith in
    let cells =
      overwrite entry.lengths indx
        (take (entry.count - indx - 1) (drop (indx + 1) entry.lengths)) in
    let removed : get_or entry.lengths indx 0 ≡ get_or ls indx 0 =
      sym (get_or-take entry.count indx entry.lengths 0 less) ∙ ap (λ c. get_or c indx 0) t.held in
    let held =
      shift_down entry.lengths indx entry.count less t.room ∙ ap (λ c. removed_at c indx) t.held in
    let size =
      length-overwrite entry.lengths indx
        (take (entry.count - indx - 1) (drop (indx + 1) entry.lengths)) in
    rw (inside, moved_down entry.lengths indx entry.count less t.room, removed)
      (
        _,
        refl,
        shorten-Inserted prefix_enabled entry mp ls cells indx t less (omega (arith, size)) held,
      )
