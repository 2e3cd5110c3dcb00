-- ===== src/Idl/Append.antt =====
-- The appending functions: no write leaves the block, the IDs are added behind those already there, and
-- the only failure is `ENOMEM`.
use dlmdb.Base.{
  ℕ, zero, suc, ◌+◌, ◌%◌, ◌^◌, ◌≤◌, ◌<◌, ◌≡◌, refl, ap, ◌∙◌, List, [], ◌∷◌, ◌++◌, if◌then◌else◌,
  leb, word64, length, get_or, take, drop, set, arith, Result, ok, err, enomem, Allocator, Bool,
  true, false, ◌>>=◌, store, >>=-after, lt→ltb, leb→le, length-set,
}
use dlmdb.Idl.{Idl, count, entries, um_max, midl_grow, midl_append}
use dlmdb.Idl.Valid.{IsValid, Keeps, Grown, midl_grow-Grown}

-- The result of appending `extra`; failure is possible only with `ids[-1] <= limit`.
abbrev pub Appended : Idl → List ℕ → ℕ → Result Idl → Type 0
Appended ids extra limit (err e) = (e ≡ enomem) × (ids.alloc ≤ limit)
Appended ids extra limit (ok ids') =
    IsValid ids' × (entries ids' ≡ entries ids ++ extra) × (ids.alloc ≤ ids'.alloc)

-- The block after the test for room.
abbrev pub Room : Idl → ℕ → ℕ → Result Idl → Type 0
Room ids n limit (err e) = (e ≡ enomem) × (ids.alloc ≤ limit)
Room ids n limit (ok room) =
    IsValid room
    × Keeps ids room
    × (count ids + n ≤ room.alloc)
    × (ids.alloc ≤ room.alloc)
    × (room.alloc < 2 ^ 60)

module _ (os : Allocator) (ids : Idl) (n limit num : ℕ) (v : IsValid ids)
    (small : ids.alloc + num < 2 ^ 60) (enough : n ≤ num) where
  Grown-Room : ids.alloc ≤ limit → (r : Result Idl) → Grown ids num r → Room ids n limit r
  Grown-Room full (err e) g = (g, full)
  Grown-Room full (ok room) (more, sized, keeps) = (
    record { sized = sized; fits = omega (arith, keeps.same_count, v.fits) },
    keeps,
    omega (arith, v.fits),
    omega arith,
    omega arith,
  )

  pub test-Room :
      (test : Bool)
      → (test ≡ true → ids.alloc ≤ limit)
      → (test ≡ false → count ids + n ≤ ids.alloc)
      → Room ids n limit (if test then midl_grow os ids num else ok ids)
  test-Room true full fits =
      Grown-Room (full refl) (midl_grow os ids num) (midl_grow-Grown os ids num v small)
  test-Room false full fits =
      (v, record { same_count = refl; same_entries = refl }, fits refl, omega arith, omega arith)

pub Appended-bind :
    (ids : Idl) (extra : List ℕ) (n limit : ℕ) (r : Result Idl) (f : Idl → Result Idl)
    → Room ids n limit r
    → ((room : Idl)
        → IsValid room
        → count room ≡ count ids
        → count room + n ≤ room.alloc
        → room.alloc < 2 ^ 60
        → (ids' : Idl) × (f room ≡ ok ids')
          × IsValid ids'
          × (entries ids' ≡ entries room ++ extra)
          × (ids'.alloc ≡ room.alloc))
    → Appended ids extra limit (r >>= f)
Appended-bind ids extra n limit (err e) f room write = room
Appended-bind ids extra n limit (ok room) f (v, keeps, fits, grown, small) write =
    let (ids', e, v', added, same) =
      write room v keeps.same_count (omega (arith, keeps.same_count)) small in
    rw e (v', added ∙ ap (λ l. l ++ extra) keeps.same_entries, omega arith)

take-set_end :
    (n id : ℕ) (cells : List ℕ)
    → n < length cells
    → take (suc n) (set cells n id) ≡ take n cells ++ (id ∷ [])
take-set_end n id [] h = absurd (omega arith)
take-set_end zero id (x ∷ xs) h = refl
take-set_end (suc n) id (x ∷ xs) h = ap (λ l. x ∷ l) (take-set_end n id xs (omega arith))

-- Cells after an append of `extra` to those of a block of `alloc` IDs.
abbrev pub Written : ℕ → List ℕ → List ℕ → List ℕ → Type 0
Written alloc extra cells cells' =
    (length cells' ≡ alloc + 1)
    × (get_or cells' 0 0 ≡ get_or cells 0 0 + length extra)
    × (take (get_or cells' 0 0) (drop 1 cells') ≡ take (get_or cells 0 0) (drop 1 cells) ++ extra)

push_cells :
    (h id : ℕ) (t : List ℕ)
    → h < length t
    → h < 2 ^ 60
    → (store (h ∷ t) 0 ((h + 1) % word64) >>= λ counted. store counted (get_or counted 0 0) id)
      ≡ ok (suc h ∷ set t h id)
push_cells h id t room small =
    let wrap : (h + 1) % word64 ≡ suc h = omega arith in
    rw
      (wrap, lt→ltb 0 (suc (length t)) (omega arith), lt→ltb (suc h) (suc (length t)) (omega arith))

-- The two writes of `mdb_midl_append`.
push-Written :
    (alloc id : ℕ) (cells : List ℕ)
    → length cells ≡ alloc + 1
    → get_or cells 0 0 + 1 ≤ alloc
    → alloc < 2 ^ 60
    → (cells' : List ℕ) × ((store cells 0 ((get_or cells 0 0 + 1) % word64) >>= λ counted.
          store counted (get_or counted 0 0) id)
        ≡ ok cells')
      × Written alloc (id ∷ []) cells cells'
push-Written alloc id [] sized room small = absurd (omega arith)
push-Written alloc id (h ∷ t) sized room small = (
  suc h ∷ set t h id,
  push_cells h id t (omega arith) (omega arith),
  (omega (arith, length-set t h id), omega arith, take-set_end h id t (omega arith)),
)

-- `mdb_midl_append` adds one ID at the end.
pub midl_append-Appended :
    (os : Allocator) (ids : Idl) (id : ℕ)
    → IsValid ids
    → ids.alloc + um_max < 2 ^ 60
    → Appended ids (id ∷ []) (count ids) (midl_append os ids id)
unfolding midl_append
midl_append-Appended os ids id v small =
    Appended-bind ids (id ∷ []) 1 (count ids) _ _
      (test-Room os ids 1 (count ids) um_max v small (omega arith) (leb ids.alloc (count ids))
        (λ t. leb→le _ _ t) (λ t. ground arith))
      λ room w same fits narrow.
        let (cells, e, (sized, counted, added)) =
          push-Written room.alloc id room.cells w.sized fits narrow in
        (
          record room { cells = cells },
          >>=-after (store room.cells 0 ((count room + 1) % word64))
              (λ counted. store counted (get_or counted 0 0) id)
              (λ cells. ok (record room { cells = cells })) e,
          record { sized = sized; fits = omega arith },
          added,
          refl,
        )
