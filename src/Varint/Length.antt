-- ===== src/Varint/Length.antt =====
-- How many groups `mdb_varint_length` counts: as many as the value needs, and no more.
use mathlib.Core.Logic.{dif_pos, dif_neg}
use mathlib.Core.WellFounded.{Acc}
use native.Mathlib.Bridge.{le_prop}
use dlmdb.Base.{ℕ, zero, suc, ◌+◌, ◌/◌, ◌^◌, ◌≤◌, ◌<◌, ◌≡◌, lt_wf, dec_lt, arith}
use dlmdb.Varint.{length_loop, varint_length, shift_shrinks}

-- `groups` is the least number of groups of seven bits that hold `value`, and at least 1.
pub record IsWidth (value groups : ℕ) : Type 0 where
  pub positive : 1 ≤ groups
  pub holds : value < 128 ^ groups
  pub least : (k : ℕ) → value < 128 ^ suc k → groups ≤ suc k

loop_holds :
    (value len : ℕ) (w : Acc ◌<◌ value)
    → (m : ℕ) × (length_loop value len w ≡ len + m) × (value < 128 ^ suc m)
unfolding length_loop
loop_holds value len (Acc.intro _ smaller) = elim (dec_lt value 128) [
  | yes small ↦ (0, rw (dif_pos (dec_lt value 128) le_prop small) (omega arith), omega arith)
  | no large ↦
      let ih =
        loop_holds (value / 128) (len + 1) (smaller (value / 128) (shift_shrinks value large)) in
      (suc ih.0, rw (dif_neg (dec_lt value 128) large) (omega (arith, ih.1)), omega (arith, ih.2))
]

loop_least :
    (k value len : ℕ) (w : Acc ◌<◌ value) → value < 128 ^ suc k → length_loop value len w ≤ len + k
unfolding length_loop
loop_least zero value len (Acc.intro _ smaller) h = ground arith
loop_least (suc k) value len (Acc.intro _ smaller) h = elim (dec_lt value 128) [
  | yes small ↦ rw (dif_pos (dec_lt value 128) le_prop small) (omega arith)
  | no large ↦ rw (dif_neg (dec_lt value 128) large) (
      omega (
        arith,
        loop_least k (value / 128) (len + 1) (smaller (value / 128) (shift_shrinks value large))
            (omega arith),
      ))
]

pub varint_length-IsWidth : (value : ℕ) → IsWidth value (varint_length value)
unfolding varint_length
varint_length-IsWidth value =
    let held = loop_holds value 1 (lt_wf.apply value) in
    record {
      positive = omega (arith, held.1);
      holds = let e : varint_length value ≡ suc held.0 = omega (arith, held.1) in rw e held.2;
      least = λ k h. omega (arith, loop_least k value 1 (lt_wf.apply value) h);
    }
