-- ===== src/Pages/Tests.antt =====
-- Runs on a page of 64 bytes with two nodes of eight bytes, and the theorems on it.
use dlmdb.Base.{
  ℕ, zero, suc, ◌+◌, ◌≤◌, ◌<◌, ◌≡◌, ◌≢◌, refl, [], ◌∷◌, arith, ok, inl, inr, ◌⊎◌, replicate, ◌++◌,
}
use dlmdb.Pages.{SlotPage, insert_slot, remove_slot}
use dlmdb.Pages.Shift.{skip}
use dlmdb.Pages.Layout.{slot_at, node_byte, IsLaid}
use dlmdb.Pages.Insert.{with_size, insert_slot-IsLaid}
use dlmdb.Pages.Remove.{remove_slot-IsLaid}

abbrev page : SlotPage
page = record {
  lower = 20;
  upper = 48;
  ptrs = 56 ∷ 48 ∷ 0 ∷ 0 ∷ [];
  mem = replicate 48 0 ++ replicate 8 2 ++ replicate 8 1;
}

abbrev eight : ℕ → ℕ
eight k = 8

page_behind : (k : ℕ) → k < 2 → 48 ≤ slot_at page k
page_behind zero h = omega arith
page_behind (suc zero) h = omega arith
page_behind (suc (suc k)) h = absurd (omega arith)

page_inside : (k : ℕ) → k < 2 → slot_at page k + 8 ≤ 64
page_inside zero h = omega arith
page_inside (suc zero) h = omega arith
page_inside (suc (suc k)) h = absurd (omega arith)

page_apart :
    (k : ℕ)
    → k < 2
    → (l : ℕ) → l < 2
    → k ≢ l
    → (slot_at page k + 8 ≤ slot_at page l) ⊎ (slot_at page l + 8 ≤ slot_at page k)
page_apart zero h zero i ne = absurd (ne refl)
page_apart zero h (suc zero) i ne = inr (omega arith)
page_apart (suc zero) h zero i ne = inl (omega arith)
page_apart (suc zero) h (suc zero) i ne = absurd (ne refl)
page_apart k h (suc (suc l)) i ne = absurd (omega arith)
page_apart (suc (suc k)) h l i ne = absurd (omega arith)

page-IsLaid : IsLaid page 2 eight
page-IsLaid = record {
  slots = refl;
  room = omega arith;
  free = omega arith;
  top = omega arith;
  small = omega arith;
  full = λ k h. omega arith;
  behind = page_behind;
  inside = page_inside;
  apart = page_apart;
}

insert_slot-IsLaid_example :
    (out : SlotPage) × (insert_slot page 1 10 ≡ ok (out, 38))
    × IsLaid out 3 (with_size eight 1 10)
    × (slot_at out 1 ≡ 38)
    × ((j b : ℕ) → j < 2 → node_byte out (skip 1 j) b ≡ node_byte page j b)
insert_slot-IsLaid_example =
    insert_slot-IsLaid page 2 1 10 eight page-IsLaid (omega arith) (omega arith) (omega arith)
      (omega arith)

remove_slot-IsLaid_example :
    (out : SlotPage) × (remove_slot page 0 8 ≡ ok out)
    × IsLaid out 1 (λ k. 8)
    × ((k b : ℕ) → k < 1 → b < 8 → node_byte out k b ≡ node_byte page (skip 0 k) b)
remove_slot-IsLaid_example = remove_slot-IsLaid page 2 0 eight page-IsLaid (omega arith)
