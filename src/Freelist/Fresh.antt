-- ===== src/Freelist/Fresh.antt =====
-- The pages that are handed out are no longer in the list, and the others are kept.
use dlmdb.Base.{
  ℕ, suc, ◌+◌, ◌-◌, ◌≤◌, ◌<◌, ◌≡◌, List, length, get_or, Result, ok, err, enomem, map_full, ◌⊎◌,
}
use dlmdb.Freelist.{Pool, take_range}
use dlmdb.Freelist.Ranges.{IsDescending, source}

-- The reclaimed pages are in descending order and lie before the end of the map in use.
pub record IsPool (pool : Pool) : Type 0 where
  pub descending : IsDescending pool.mop
  pub inside : (i : ℕ) → i < length pool.mop → get_or pool.mop i 0 < pool.next_pgno

abbrev pub IsOut : List ℕ → ℕ → ℕ → Type 0
IsOut mop num pgno =
    (i : ℕ) → i < length mop → (get_or mop i 0 < pgno) ⊎ (pgno + num ≤ get_or mop i 0)

-- The pages are reclaimed ones or new ones.
abbrev pub Comes : Pool → ℕ → ℕ → Type 0
Comes pool num pgno =
    ((k : ℕ) → k < num → (i : ℕ) × (i < length pool.mop) × (get_or pool.mop i 0 ≡ pgno + k))
    ⊎ (pool.next_pgno ≤ pgno)

-- Both lists have the same pages but for the `num` pages from `pgno` on.
abbrev pub IsRest : List ℕ → List ℕ → ℕ → ℕ → Type 0
IsRest mop rest num pgno =
    ((k : ℕ) → k < length rest → (i : ℕ) × (i < length mop) × (get_or rest k 0 ≡ get_or mop i 0))
    × ((i : ℕ)
        → i < length mop
        → ((pgno ≤ get_or mop i 0) × (get_or mop i 0 < pgno + num))
          ⊎ ((k : ℕ) × (k < length rest) × (get_or rest k 0 ≡ get_or mop i 0)))

-- What an allocation may do.
abbrev pub Allocated : Pool → ℕ → Result (Pool × ℕ) → Type 0
Allocated pool num (err e) = (e ≡ enomem) ⊎ (e ≡ map_full)
Allocated pool num (ok out) =
    IsPool out.0
    × Comes pool num out.1
    × IsOut out.0.mop num out.1
    × IsRest pool.mop out.0.mop num out.1
    × (out.1 + num ≤ out.0.next_pgno)
    × (pool.next_pgno ≤ out.0.next_pgno)

module _ (pool : Pool) (num i : ℕ) (w : IsPool pool) (pos : 0 < num) (fits : num ≤ suc i)
    (inside : i < length pool.mop)
    (range : get_or pool.mop (i - (num - 1)) 0 ≡ get_or pool.mop i 0 + (num - 1)) where
  abbrev rest : List ℕ
  rest = take_range pool.mop num i

  abbrev from : ℕ → ℕ
  from k = source num (suc i - num) k
