-- ===== src/NodeSearch/Tests.antt =====
-- Searches among the keys 3, 5 and 8, and the theorem on one of them.
use Prim.Native.Nat.{Ordering, compare}
use dlmdb.Base.{ℕ, zero, suc, ◌≤◌, ◌<◌, ◌≡◌, ◌≢◌, refl, true, false, Result, ok, err, fault, arith}
use dlmdb.NodeSearch.{node_search}
use dlmdb.NodeSearch.Split.{IsOrdered, Searched, node_search-Searched}

abbrev probe : ℕ → ℕ → Result Ordering
probe key zero = ok (compare key 3)
probe key (suc zero) = ok (compare key 5)
probe key (suc (suc zero)) = ok (compare key 8)
probe key (suc (suc (suc i))) = err fault

equal_run : node_search (probe 5) true 3 ≡ ok (1, true)
unfolding node_search
equal_run = refl

last_run : node_search (probe 9) true 3 ≡ ok (3, false)
unfolding node_search
last_run = refl

empty_run : node_search (probe 9) true 0 ≡ ok (0, false)
unfolding node_search
empty_run = refl

probe_readable : (i : ℕ) → 0 ≤ i → i < 3 → (c : Ordering) × (probe 6 i ≡ ok c)
probe_readable zero h k = (Ordering.gt, refl)
probe_readable (suc zero) h k = (Ordering.gt, refl)
probe_readable (suc (suc zero)) h k = (Ordering.lt, refl)
probe_readable (suc (suc (suc i))) h k = absurd (omega arith)

probe_left :
    (i j : ℕ) → 0 ≤ i → i < j → j < 3 → probe 6 j ≢ ok Ordering.lt → probe 6 i ≡ ok Ordering.gt
probe_left zero j h less k ne = refl
probe_left (suc zero) j h less k ne = refl
probe_left (suc (suc i)) j h less k ne = absurd (omega arith)

probe_right :
    (i j : ℕ) → 0 ≤ i → i < j → j < 3 → probe 6 i ≢ ok Ordering.gt → probe 6 j ≡ ok Ordering.lt
probe_right zero j h less k ne = absurd (ne refl)
probe_right (suc zero) j h less k ne = absurd (ne refl)
probe_right (suc (suc i)) j h less k ne = absurd (omega arith)

probe-IsOrdered : IsOrdered (probe 6) 0 3
probe-IsOrdered = record { readable = probe_readable; left_of = probe_left; right_of = probe_right }

node_search-Searched_example : Searched (probe 6) 0 3 (node_search (probe 6) true 3)
node_search-Searched_example = node_search-Searched (probe 6) true 3 (omega arith) probe-IsOrdered
