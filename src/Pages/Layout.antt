-- ===== src/Pages/Layout.antt =====
-- The well-formedness of a page of nodes.
use dlmdb.Base.{ℕ, ◌+◌, ◌*◌, ◌≤◌, ◌<◌, ◌≡◌, ◌≢◌, ◌⊎◌, length, get_or}
use dlmdb.Pages.{SlotPage, page_hdr, word16}

abbrev pub slot_at : SlotPage → ℕ → ℕ
slot_at mp k = get_or mp.ptrs k 0

-- The byte `b` of the node in slot `k`.
abbrev pub node_byte : SlotPage → ℕ → ℕ → ℕ
node_byte mp k b = get_or mp.mem (slot_at mp k + b) 0

-- `n` nodes of the sizes `size` stand behind `upper` and do not overlap, and the slots stand before it.
pub record IsLaid (mp : SlotPage) (n : ℕ) (size : ℕ → ℕ) : Type 0 where
  pub slots : mp.lower ≡ page_hdr + 2 * n
  pub room : n ≤ length mp.ptrs
  pub free : mp.lower ≤ mp.upper
  pub top : mp.upper ≤ length mp.mem
  pub small : length mp.mem < word16
  pub full : (k : ℕ) → k < n → 0 < size k
  pub behind : (k : ℕ) → k < n → mp.upper ≤ slot_at mp k
  pub inside : (k : ℕ) → k < n → slot_at mp k + size k ≤ length mp.mem
  pub apart :
      (k : ℕ)
      → k < n
      → (l : ℕ) → l < n
      → k ≢ l
      → (slot_at mp k + size k ≤ slot_at mp l) ⊎ (slot_at mp l + size l ≤ slot_at mp k)
