-- ===== src/Idl/Bulk.antt =====
-- `mdb_midl_append_list` and `mdb_midl_append_range`: several IDs added at once.
use native.Mathlib.Numerals.{add-one}
use dlmdb.Base.{
  ℕ, zero, suc, ◌+◌, ◌*◌, ◌/◌, ◌%◌, ◌^◌, ◌≤◌, ◌<◌, ◌≡◌, refl, sym, ap, ◌∙◌, List, [], ◌∷◌, ◌++◌,
  ltb, leb, word64, length, get_or, take, drop, set, arith, ok, Allocator, ◌>>=◌, >>=-after, store,
  copy_in, overwrite, int_arg_small, length-set, length-append, length-take, length-drop, lt→ltb,
  leb→le, ltb→lt, false,
}
use dlmdb.Idl.{Idl, count, entries, um_max, midl_append_list, midl_append_range, range_loop}
use dlmdb.Idl.Valid.{IsValid}
use dlmdb.Idl.Append.{Appended, Appended-bind, test-Room, Written}

length-overwrite : (xs : List ℕ) (i : ℕ) (vs : List ℕ) → length (overwrite xs i vs) ≡ length xs
unfolding overwrite
length-overwrite [] i vs = refl
length-overwrite (x ∷ xs) (suc i) vs = ap suc (length-overwrite xs i vs)
length-overwrite (x ∷ xs) zero [] = refl
length-overwrite (x ∷ xs) zero (v ∷ vs) = ap suc (length-overwrite xs zero vs)

take-overwrite :
    (xs : List ℕ) (i n : ℕ) (vs : List ℕ)
    → n ≡ i + length vs
    → n ≤ length xs
    → take n (overwrite xs i vs) ≡ take i xs ++ vs
unfolding overwrite
take-overwrite [] zero zero [] e h = refl
take-overwrite [] (suc i) zero vs e h = absurd (omega arith)
take-overwrite [] zero zero (v ∷ vs) e h = absurd (omega arith)
take-overwrite [] i (suc n) vs e h = absurd (omega arith)
take-overwrite (x ∷ xs) zero zero [] e h = refl
take-overwrite (x ∷ xs) (suc i) zero vs e h = absurd (omega arith)
take-overwrite (x ∷ xs) zero zero (v ∷ vs) e h = absurd (omega arith)
take-overwrite (x ∷ xs) zero (suc n) [] e h = absurd (omega arith)
take-overwrite (x ∷ xs) zero (suc n) (v ∷ vs) e h =
    ap (λ l. v ∷ l) (take-overwrite xs zero n vs (omega arith) (omega arith))
take-overwrite (x ∷ xs) (suc i) (suc n) vs e h =
    ap (λ l. x ∷ l) (take-overwrite xs i n vs (omega arith) (omega arith))

-- The cells after a bulk write of `vs` behind `h` IDs.
bulk-Written :
    (alloc h c : ℕ) (t vs : List ℕ)
    → length t ≡ alloc
    → h + length vs ≤ alloc
    → c ≡ h + length vs
    → Written alloc vs (h ∷ t) (c ∷ overwrite t h vs)
bulk-Written alloc h c t vs sized room e =
    (omega (arith, length-overwrite t h vs), e, take-overwrite t h c vs e (omega arith))

copy_cells :
    (h : ℕ) (t vs : List ℕ)
    → h + length vs ≤ length t
    → h + length vs < 2 ^ 62
    → (copy_in (h ∷ t) (h + 1) vs >>= λ copied. store copied 0 ((h + length vs) % word64))
      ≡ ok ((h + length vs) ∷ overwrite t h vs)
unfolding overwrite
copy_cells h t vs room small =
    let wrap : (h + length vs) % word64 ≡ h + length vs = omega arith in
    let inside : ltb (suc (length t)) (suc h + length vs) ≡ false = ground arith in
    rw (add-one h, inside, wrap, lt→ltb 0 (suc (length (overwrite t h vs))) (omega arith))

length-entries : (ids : Idl) → IsValid ids → length (entries ids) ≡ count ids
length-entries ids v =
    omega
      (arith, length-take (count ids) (drop 1 ids.cells), length-drop 1 ids.cells, v.sized, v.fits)

copy-Written :
    (alloc n : ℕ) (cells vs : List ℕ)
    → n ≡ length vs
    → length cells ≡ alloc + 1
    → get_or cells 0 0 + n ≤ alloc
    → alloc < 2 ^ 60
    → (cells' : List ℕ) × ((copy_in cells (get_or cells 0 0 + 1) vs >>= λ copied.
          store copied 0 ((get_or cells 0 0 + n) % word64))
        ≡ ok cells')
      × Written alloc vs cells cells'
copy-Written alloc n [] vs e sized room small = absurd (omega arith)
copy-Written alloc n (h ∷ t) vs e sized room small = (
  (h + length vs) ∷ overwrite t h vs,
  rw e (copy_cells h t vs (omega arith) (omega arith)),
  bulk-Written alloc h (h + length vs) t vs (omega arith) (omega arith) refl,
)

-- `mdb_midl_append_list` adds the IDs of the other list, in their order.
pub midl_append_list-Appended :
    (os : Allocator) (ids app : Idl)
    → IsValid ids
    → IsValid app
    → count app < 2 ^ 31
    → ids.alloc + count app < 2 ^ 60
    → Appended ids (entries app) (count ids + count app) (midl_append_list os ids app)
unfolding midl_append_list
midl_append_list-Appended os ids app v w narrow small = rw (int_arg_small (count app) narrow) (
    Appended-bind ids (entries app) (count app) (count ids + count app) _ _
      (test-Room os ids (count app) (count ids + count app) (count app) v small (omega arith)
        (leb ids.alloc ((count ids + count app) % word64))
        (λ t. omega (arith, leb→le ids.alloc ((count ids + count app) % word64) t))
        (λ t. ground (arith, v.fits)))
      λ room r same fits tight.
        let (cells, e, (sized, counted, added)) =
          copy-Written room.alloc (count app) room.cells (entries app) (sym (length-entries app w))
            r.sized fits tight in
        (
          record room { cells = cells },
          >>=-after (copy_in room.cells (count room + 1) (entries app))
              (λ copied. store copied 0 ((count room + count app) % word64))
              (λ cells. ok (record room { cells = cells })) e,
          record { sized = sized; fits = omega (arith, length-entries app w) },
          added,
          refl,
        ))

-- `n` IDs from `id` on, the highest first.
pub descending : ℕ → ℕ → List ℕ
descending zero id = []
descending (suc n) id = descending n (id + 1) ++ (id ∷ [])

length-descending : (n id : ℕ) → length (descending n id) ≡ n
unfolding descending
length-descending zero id = refl
length-descending (suc n) id =
    omega (arith, length-append (descending n (id + 1)) (id ∷ []), length-descending n (id + 1))

overwrite-nil : (t : List ℕ) (base : ℕ) → overwrite t base [] ≡ t
unfolding overwrite
overwrite-nil [] base = refl
overwrite-nil (x ∷ t) zero = refl
overwrite-nil (x ∷ t) (suc base) = ap (λ l. x ∷ l) (overwrite-nil t base)

-- Writing the last value first.
overwrite-snoc :
    (t : List ℕ) (base k id : ℕ) (vs : List ℕ)
    → k ≡ base + length vs
    → k < length t
    → overwrite (set t k id) base vs ≡ overwrite t base (vs ++ (id ∷ []))
unfolding overwrite
overwrite-snoc [] base k id vs e h = absurd (omega arith)
overwrite-snoc (x ∷ t) zero zero id [] e h = ap (λ l. id ∷ l) (sym (overwrite-nil t zero))
overwrite-snoc (x ∷ t) zero (suc k) id [] e h = absurd (omega arith)
overwrite-snoc (x ∷ t) zero zero id (v ∷ vs) e h = absurd (omega arith)
overwrite-snoc (x ∷ t) zero (suc k) id (v ∷ vs) e h =
    ap (λ l. v ∷ l) (overwrite-snoc t zero k id vs (omega arith) (omega arith))
overwrite-snoc (x ∷ t) (suc base) zero id vs e h = absurd (omega arith)
overwrite-snoc (x ∷ t) (suc base) (suc k) id vs e h =
    ap (λ l. x ∷ l) (overwrite-snoc t base k id vs (omega arith) (omega arith))

range_loop-overwrite :
    (n base id c : ℕ) (t : List ℕ)
    → base + n ≤ length t
    → id + n < word64
    → range_loop n base id (c ∷ t) ≡ ok (c ∷ overwrite t base (descending n id))
unfolding range_loop descending
range_loop-overwrite zero base id c t room small = ap (λ l. ok (c ∷ l)) (sym (overwrite-nil t base))
range_loop-overwrite (suc n) base id c t room small =
    let at_end : base + suc n ≡ suc (base + n) = omega arith in
    let wrap : (id + 1) % word64 ≡ id + 1 = omega arith in
    rw (at_end, lt→ltb (suc (base + n)) (suc (length t)) (omega arith), wrap)
      (range_loop-overwrite n base (id + 1) c (set t (base + n) id)
          (omega (arith, length-set t (base + n) id)) (omega arith)
        ∙ ap (λ l. ok (c ∷ l))
            (overwrite-snoc t base (base + n) id (descending n (id + 1))
              (omega (arith, length-descending n (id + 1))) (omega arith)))

range-Written :
    (alloc n id c : ℕ) (cells : List ℕ)
    → get_or cells 0 0 ≡ c
    → length cells ≡ alloc + 1
    → c + n ≤ alloc
    → alloc < 2 ^ 60
    → id + n < word64
    → (cells' : List ℕ) × ((store cells 0 ((c + n) % word64) >>= λ counted.
          range_loop n c id counted)
        ≡ ok cells')
      × Written alloc (descending n id) cells cells'
range-Written alloc n id c [] e sized room small fits = absurd (omega arith)
range-Written alloc n id c (h ∷ t) e sized room small fits = (
  (h + n) ∷ overwrite t h (descending n id),
  (let wrap : (h + n) % word64 ≡ h + n = omega arith in
      rw (← e, wrap, lt→ltb 0 (suc (length t)) (omega arith))
        (range_loop-overwrite n h id (h + n) t (omega arith) fits)),
  bulk-Written alloc h (h + n) t (descending n id) (omega arith)
      (omega (arith, length-descending n id)) (omega (arith, length-descending n id)),
)

-- `mdb_midl_append_range` adds the `n` IDs from `id` on, the highest first.
pub midl_append_range-Appended :
    (os : Allocator) (ids : Idl) (id n : ℕ)
    → IsValid ids
    → n < 2 ^ 30
    → id + n < word64
    → ids.alloc < 2 ^ 59
    → Appended ids (descending n id) (count ids + n) (midl_append_range os ids id n)
unfolding midl_append_range
midl_append_range-Appended os ids id n v narrow fits_id small =
    rw (int_arg_small (n / 2 ^ 17 * 2 ^ 17 + um_max) (omega arith)) (
      Appended-bind ids (descending n id) n (count ids + n) _ _
        (test-Room os ids n (count ids + n) (n / 2 ^ 17 * 2 ^ 17 + um_max) v (omega arith)
          (omega arith) (ltb ids.alloc ((count ids + n) % word64))
          (λ t. omega (arith, ltb→lt ids.alloc ((count ids + n) % word64) t))
          (λ t. ground (arith, v.fits)))
        λ room r same fits tight.
          let (cells, e, (sized, counted, added)) =
            range-Written room.alloc n id (count ids) room.cells same r.sized (omega arith) tight
              fits_id in
          (
            record room { cells = cells },
            >>=-after (store room.cells 0 ((count ids + n) % word64))
                (λ counted. range_loop n (count ids) id counted)
                (λ cells. ok (record room { cells = cells })) e,
            record { sized = sized; fits = omega (arith, length-descending n id) },
            added,
            refl,
          ))
