-- ===== src/Pages.antt =====
-- mdb.c, the layout of a page of nodes: an array of offsets that grows up behind the header, and the nodes
-- themselves, which grow down from the page's end. `mp_lower` and `mp_upper` bound the free space between.
-- `PAGEBASE` is 0 as in a release build.
pub mod Shift
pub mod Layout
pub mod Insert
pub mod Remove
mod Tests
use dlmdb.Base.{
  ℕ, zero, suc, ◌+◌, ◌-◌, ◌*◌, ◌/◌, ◌%◌, ◌^◌, List, [], ◌∷◌, Bool, true, false, not, ◌||◌,
  if◌then◌else◌, ltb, leb, ◌==◌, length, get_or, set, take, drop, Result, ok, err, fault, ◌>>=◌,
  overwrite, store, copy_in,
}

-- `ptrs` is the array `mp_ptrs` with the room behind it, `mem` the bytes of the page: slots and nodes are
-- apart because `lower` never passes `upper`.
pub record SlotPage : Type 0 where
  pub lower : ℕ
  pub upper : ℕ
  pub ptrs : List ℕ
  pub mem : List ℕ

-- `PAGEHDRSZ`
abbrev pub page_hdr : ℕ
page_hdr = 16

-- `indx_t` has 16 bits.
abbrev pub word16 : ℕ
word16 = 2 ^ 16

-- `NUMKEYS`
abbrev pub num_slots : SlotPage → ℕ
num_slots mp = (mp.lower - page_hdr) / 2

-- `SIZELEFT`
abbrev pub size_left : SlotPage → ℕ
size_left mp = (mp.upper + word16 - mp.lower) % word16

-- `for (i = numkeys; i > indx; --i) ptrs[i] = ptrs[i - 1];`
pub slots_up : List ℕ → ℕ → ℕ → List ℕ
slots_up ptrs indx zero = ptrs
slots_up ptrs indx (suc i) = elim (ltb indx (suc i)) [
  | true ↦ slots_up (set ptrs (suc i) (get_or ptrs i 0)) indx i
  | false ↦ ptrs
]

-- A failed `mdb_cassert` is a `fault`. The result is the page with the offset of the new node.
pub insert_slot : SlotPage → ℕ → ℕ → Result (SlotPage × ℕ)
unfolding slots_up
insert_slot mp indx node_size =
    let numkeys = num_slots mp in
    let delta = node_size % word16 in
    let ofs = (mp.upper + word16 - delta) % word16 in
    if not (node_size == delta)
      || ltb numkeys indx
      || ltb ofs (mp.lower + 2)
      || leb (length mp.ptrs) numkeys
    then err fault
    else ok (
      record mp {
        ptrs = set (slots_up mp.ptrs indx numkeys) indx ofs;
        upper = ofs;
        lower = (mp.lower + 2) % word16;
      },
      ofs,
    )

-- `for (i = indx; i + 1 < numkeys; ++i) ptrs[i] = ptrs[i + 1];`, with the rounds that are left.
pub slots_down : List ℕ → ℕ → ℕ → List ℕ
slots_down ptrs i zero = ptrs
slots_down ptrs i (suc rounds) = slots_down (set ptrs i (get_or ptrs (suc i) 0)) (suc i) rounds

-- The offsets of the first `count` slots that are below `ofs`, moved up by `delta`.
pub raise_slots : ℕ → ℕ → ℕ → List ℕ → List ℕ
raise_slots zero ofs delta ptrs = ptrs
raise_slots (suc count) ofs delta [] = []
raise_slots (suc count) ofs delta (ptr ∷ ptrs) =
    (if ltb ptr ofs then (ptr + delta) % word16 else ptr) ∷ raise_slots count ofs delta ptrs

pub remove_slot : SlotPage → ℕ → ℕ → Result SlotPage
unfolding slots_down raise_slots overwrite
remove_slot mp indx node_size =
    let numkeys = num_slots mp in
    let delta = node_size % word16 in
    if not (node_size == delta)
      || leb numkeys indx
      || ltb (length mp.ptrs) numkeys
      || ltb (get_or mp.ptrs indx 0) mp.upper
    then err fault
    else do
      let ofs = get_or mp.ptrs indx 0
      let moved = raise_slots (numkeys - 1) ofs delta (slots_down mp.ptrs indx (numkeys - 1 - indx))
      let span = ofs - mp.upper
      mem ←
          if span == 0
          then ok mp.mem
          else copy_in mp.mem (mp.upper + delta) (take span (drop mp.upper mp.mem))
      ok (record {
        lower = mp.lower - 2;
        upper = (mp.upper + delta) % word16;
        ptrs = moved;
        mem = mem;
      })
