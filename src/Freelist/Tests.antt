-- ===== src/Freelist/Tests.antt =====
-- Runs on a list of four reclaimed pages, and the theorem on it.
use dlmdb.Base.{◌≡◌, refl, [], ◌∷◌, true, false, ok, Allocator}
use dlmdb.Freelist.{Pool, alloc_pages}

abbrev roomy : Allocator
roomy = record { grant = λ n. true; junk = λ i. 0 }

-- Pages 4 and 5 are adjacent.
abbrev pool : Pool
pool = record { mop = 9 ∷ 5 ∷ 4 ∷ 2 ∷ []; next_pgno = 12; maxpg = 100; psize = 4096 }

-- Two pages come from the list, three from the end of the map.
two_run : alloc_pages roomy false pool 2 ≡ ok (record pool { mop = 9 ∷ 2 ∷ [] }, 4)
unfolding alloc_pages
two_run = refl

three_run : alloc_pages roomy false pool 3 ≡ ok (record pool { next_pgno = 15 }, 12)
unfolding alloc_pages
three_run = refl
