-- ===== src/Varint.antt =====
-- mdb.c, `mdb_varint_length`, `mdb_varint_encode` and `mdb_varint_decode`: a shared-prefix length as
-- groups of seven bits, the highest group first, each byte but the last with its top bit set. A byte
-- string is a list of numbers below 256.
pub mod Length
pub mod RoundTrip
mod Tests
use Prim.Native.Nat.{bit_or}
use mathlib.Core.Logic.{dite}
use mathlib.Core.WellFounded.{Acc}
use dlmdb.Base.{
  ℕ, zero, suc, ◌+◌, ◌*◌, ◌/◌, ◌%◌, ◌<◌, List, [], ◌∷◌, Option, none, some, if◌then◌else◌, ◌==◌,
  word64, lt_wf, dec_lt, arith, length,
}

-- `MDB_VARINT_MAX`
abbrev pub varint_max : ℕ
varint_max = 9

pub shift_shrinks : (v : ℕ) → ¬ (v < 128) → v / 128 < v
shift_shrinks v h = omega arith

-- `while (value >= 0x80) { value >>= 7; len++; }`
unfoldable pub length_loop : (value len : ℕ) → Acc ◌<◌ value → ℕ
length_loop value len (Acc.intro _ smaller) =
    dite (dec_lt value 128) (λ _. len)
      (λ more. length_loop (value / 128) (len + 1) (smaller _ (shift_shrinks value more)))

unfoldable pub varint_length : ℕ → ℕ
unfolding length_loop lt_wf dec_lt
varint_length value = length_loop value 1 (lt_wf.apply value)

-- `while (idx) { dest[--idx] = value & 0x7f; value >>= 7; }`: `tail` is dest[idx..len).
unfoldable pub fill : ℕ → ℕ → List ℕ → List ℕ
fill zero value tail = tail
fill (suc idx) value tail = fill idx (value / 128) ((value % 128) ∷ tail)

-- `for (i = 0; i + 1 < len; ++i) dest[i] |= 0x80;`
unfoldable pub mark : List ℕ → List ℕ
mark [] = []
mark (b ∷ []) = b ∷ []
mark (b ∷ c ∷ bs) = bit_or b 0x80 ∷ mark (c ∷ bs)

-- The bytes that are written; the C function returns how many.
unfoldable pub varint_encode : ℕ → List ℕ
unfolding varint_length fill mark
varint_encode value = mark (fill (varint_length value) value [])

-- `value << 7 | (byte & 0x7f)`: the two parts have no bit in common, so the `|` is a sum.
abbrev pub add_group : ℕ → ℕ → ℕ
add_group value byte = value * 128 % word64 + byte % 128

-- `rounds` is `MDB_VARINT_MAX - consumed`; the list is src[consumed..available).
unfoldable pub decode_loop : ℕ → ℕ → ℕ → List ℕ → Option (ℕ × ℕ)
decode_loop zero value consumed src = none
decode_loop (suc rounds) value consumed [] = none
decode_loop (suc rounds) value consumed (byte ∷ src) =
    let value' = add_group value byte in
    let rest = decode_loop rounds value' (consumed + 1) src in
    if byte / 128 % 2 == 0 then some (value', consumed + 1) else rest

-- The value and the number of bytes consumed; `none` is `MDB_CORRUPTED`.
unfoldable pub varint_decode : List ℕ → Option (ℕ × ℕ)
unfolding decode_loop
varint_decode src = decode_loop varint_max 0 0 src
