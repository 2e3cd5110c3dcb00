-- ===== src/Pages/Remove.antt =====
-- Taking a slot out of a page and closing the gap that its node leaves.
use dlmdb.Base.{
  length-overwrite, overwrite_nil, ℕ, ◌+◌, ◌-◌, ◌%◌, ◌≤◌, ◌<◌, ◌≡◌, ◌≢◌, refl, sym, ap, ◌∙◌, true,
  false, if◌then◌else◌, ltb, leb, ◌==◌, length, get_or, take, drop, arith, ok, inl, inr, ◌⊎◌,
  overwrite, copy_in, length-take, ◌>>=◌, Bool-cases,
}
use dlmdb.Pages.{SlotPage, word16, num_slots, slots_down, raise_slots, remove_slot}
use dlmdb.Pages.Shift.{
  skip, slots_down-skip, length-slots_down, length-raise_slots, raise_slots_get, move_in,
  move_behind,
}
use dlmdb.Pages.Layout.{slot_at, node_byte, IsLaid}

-- Where the bytes at `at` stand after a gap of `delta` bytes at `ofs` has been closed.
abbrev pub raised : ℕ → ℕ → ℕ → ℕ
raised ofs delta at = if ltb at ofs then at + delta else at

-- The page without the slot.
abbrev pub without_slot : SlotPage → ℕ → ℕ → ℕ → SlotPage
without_slot mp n indx node_size =
    let ofs = get_or mp.ptrs indx 0 in
    record {
      lower = mp.lower - 2;
      upper = mp.upper + node_size;
      ptrs = raise_slots (n - 1) ofs node_size (slots_down mp.ptrs indx (n - 1 - indx));
      mem = overwrite mp.mem (mp.upper + node_size) (take (ofs - mp.upper) (drop mp.upper mp.mem));
    }

skip_ne : (indx j : ℕ) → skip indx j ≢ indx
skip_ne indx j e = ground arith

skip_lt : (indx j n : ℕ) → j < n - 1 → skip indx j < n
skip_lt indx j n h = ground arith

skip_inj : (indx j i : ℕ) → skip indx j ≡ skip indx i → j ≡ i
skip_inj indx j i e = ground arith

module _ (mp : SlotPage) (n indx : ℕ) (size : ℕ → ℕ) (w : IsLaid mp n size) (there : indx < n) where
  abbrev gap : ℕ
  gap = size indx

  abbrev out : SlotPage
  out = without_slot mp n indx gap

  gap_fits : slot_at mp indx + gap < word16
  gap_fits = omega (arith, w.inside indx there, w.small)

  -- A node that is kept is below the gap or above it.
  sides :
      (k : ℕ)
      → k < n - 1
      → (slot_at mp (skip indx k) + size (skip indx k) ≤ slot_at mp indx)
        ⊎ (slot_at mp indx + gap ≤ slot_at mp (skip indx k))
  sides k less = w.apart (skip indx k) (skip_lt indx k n less) indx there (skip_ne indx k)

  new_slot :
      (k : ℕ) → k < n - 1 → slot_at out k ≡ raised (slot_at mp indx) gap (slot_at mp (skip indx k))
  new_slot k less =
      let ofs = slot_at mp indx in
      let down = slots_down mp.ptrs indx (n - 1 - indx) in
      let same : get_or down k 0 ≡ slot_at mp (skip indx k) =
        slots_down-skip mp.ptrs indx (n - 1 - indx) k (omega (arith, w.room)) (omega arith) in
      raise_slots_get (n - 1) ofs gap down k less
        (omega (arith, length-slots_down mp.ptrs indx (n - 1 - indx), w.room))
      ∙ ground (arith, same, gap_fits)

  size_mem : length out.mem ≡ length mp.mem
  size_mem =
      length-overwrite mp.mem (mp.upper + gap)
        (take (slot_at mp indx - mp.upper) (drop mp.upper mp.mem))

  -- A byte below the gap and one above it.
  byte_moved :
      (at b : ℕ)
      → mp.upper ≤ at
      → at + b < slot_at mp indx
      → get_or out.mem (at + gap + b) 0 ≡ get_or mp.mem (at + b) 0
  byte_moved at b low less =
      ap (λ i. get_or out.mem i 0) {x = at + gap + b} {y = mp.upper + gap + (at + b - mp.upper)}
        (omega arith)
      ∙ move_in mp.mem mp.upper gap (slot_at mp indx - mp.upper) (at + b - mp.upper)
          (omega (arith, w.inside indx there, w.behind indx there)) (omega arith)
      ∙ ap (λ i. get_or mp.mem i 0) {x = mp.upper + (at + b - mp.upper)} {y = at + b} (omega arith)

  byte_kept : (i : ℕ) → slot_at mp indx + gap ≤ i → get_or out.mem i 0 ≡ get_or mp.mem i 0
  byte_kept i above =
      move_behind mp.mem mp.upper gap (slot_at mp indx - mp.upper) i
        (omega (arith, w.behind indx there))

  kept_byte :
      (k b : ℕ)
      → k < n - 1
      → b < size (skip indx k)
      → node_byte out k b ≡ node_byte mp (skip indx k) b
  kept_byte k b less inner =
      ap (λ at. get_or out.mem (at + b) 0) (new_slot k less) ∙ elim (sides k less) [
        | inl below ↦
            let moved : raised (slot_at mp indx) gap (slot_at mp (skip indx k))
                ≡ slot_at mp (skip indx k) + gap =
              ground arith in
            ap (λ at. get_or out.mem (at + b) 0) moved
            ∙ byte_moved (slot_at mp (skip indx k)) b
                (w.behind (skip indx k) (skip_lt indx k n less)) (omega arith)
        | inr above ↦
            let stays : raised (slot_at mp indx) gap (slot_at mp (skip indx k))
                ≡ slot_at mp (skip indx k) =
              ground arith in
            ap (λ at. get_or out.mem (at + b) 0) stays
            ∙ byte_kept (slot_at mp (skip indx k) + b) (omega arith)
      ]

  without_slot-IsLaid : IsLaid out (n - 1) (λ k. size (skip indx k))
  without_slot-IsLaid = record {
    slots = omega (arith, w.slots);
    room = omega (
      arith,
      w.room,
      length-raise_slots (n - 1) (slot_at mp indx) gap (slots_down mp.ptrs indx (n - 1 - indx)),
      length-slots_down mp.ptrs indx (n - 1 - indx),
    );
    free = omega (arith, w.free);
    top = omega (arith, w.behind indx there, w.inside indx there, size_mem);
    small = omega (arith, w.small, size_mem);
    full = λ k less. w.full (skip indx k) (skip_lt indx k n less);
    behind = λ k less. ground (
      arith,
      new_slot k less,
      sides k less,
      w.full (skip indx k) (skip_lt indx k n less),
      w.behind indx there,
      w.behind (skip indx k) (skip_lt indx k n less),
    );
    inside = λ k less. ground (
      arith,
      new_slot k less,
      sides k less,
      size_mem,
      w.inside (skip indx k) (skip_lt indx k n less),
      w.inside indx there,
    );
    apart = λ k less l before ne. ground (
      arith,
      new_slot k less,
      new_slot l before,
      sides k less,
      sides l before,
      w.full (skip indx k) (skip_lt indx k n less),
      w.full (skip indx l) (skip_lt indx l n before),
      w.apart (skip indx k) (skip_lt indx k n less) (skip indx l) (skip_lt indx l n before)
          (λ e. ne (skip_inj indx k l e)),
    );
  }

  -- The moving of the bytes, done or not.
  mem_run :
      (if slot_at mp indx - mp.upper == 0
        then ok mp.mem
        else copy_in mp.mem
            (mp.upper + gap)
            (take (slot_at mp indx - mp.upper) (drop mp.upper mp.mem)))
      ≡ ok out.mem
  mem_run = elim (Bool-cases (slot_at mp indx - mp.upper == 0)) [
    | inl still ↦
        let nothing : slot_at mp indx - mp.upper ≡ 0 = ground arith in
        rw (still, nothing) (ap ok (sym (overwrite_nil mp.mem (mp.upper + gap))))
    | inr moves ↦
        let fits : ltb (length mp.mem)
              (mp.upper + gap + length (take (slot_at mp indx - mp.upper) (drop mp.upper mp.mem)))
            ≡ false =
          ground (
            arith,
            length-take (slot_at mp indx - mp.upper) (drop mp.upper mp.mem),
            w.inside indx there,
            w.behind indx there,
          ) in
        rw (moves, fits) refl
  ]

  remove_run : remove_slot mp indx gap ≡ ok out
  unfolding remove_slot
  remove_run =
      let number : num_slots mp ≡ n = omega (arith, w.slots) in
      let whole : gap % word16 ≡ gap = omega (arith, gap_fits) in
      let top : (mp.upper + gap) % word16 ≡ mp.upper + gap =
        omega (arith, w.behind indx there, gap_fits) in
      let sized : (gap == gap) ≡ true = ground arith in
      let placed : leb n indx ≡ false = ground arith in
      let room : ltb (length mp.ptrs) n ≡ false = ground (arith, w.room) in
      let low : ltb (get_or mp.ptrs indx 0) mp.upper ≡ false =
        ground (arith, w.behind indx there) in
      simp (number, whole, top, sized, placed, room, low)
        (ap
          (λ r. r >>= λ mem.
            ok
              (record { lower = mp.lower - 2; upper = mp.upper + gap; ptrs = out.ptrs; mem = mem }))
          mem_run)

-- On a well-formed page of `n` nodes and for an index below `n` with its node's size, removing the slot
-- succeeds without an access outside the page: the page is well-formed with one node less, and every byte
-- of every other node is read as before through the slot's new number.
pub remove_slot-IsLaid :
    (mp : SlotPage) (n indx : ℕ) (size : ℕ → ℕ)
    → IsLaid mp n size
    → indx < n
    → (out : SlotPage) × (remove_slot mp indx (size indx) ≡ ok out)
      × IsLaid out (n - 1) (λ k. size (skip indx k))
      × ((k b : ℕ)
          → k < n - 1
          → b < size (skip indx k)
          → node_byte out k b ≡ node_byte mp (skip indx k) b)
remove_slot-IsLaid mp n indx size w there = (
  out mp n indx size w there,
  remove_run mp n indx size w there,
  without_slot-IsLaid mp n indx size w there,
  kept_byte mp n indx size w there,
)
