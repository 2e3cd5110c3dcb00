-- ===== src/Compare/Integer.antt =====
-- mdb.c, the comparison of integers in byte strings on a little-endian machine: `mdb_cmp_long`,
-- `mdb_cmp_int`, and `mdb_cmp_cint` for any alignment.
pub mod Value
use Prim.Native.Nat.{compare, Ordering}
use dlmdb.Base.{
  ℕ, zero, suc, ◌+◌, ◌*◌, ◌/◌, List, [], ◌∷◌, length, get_or, take, Result, ok, err, fault,
}
use dlmdb.Compare.{or_else}

-- The number that bytes stand for, the lowest first.
abbrev pub le_value : List ℕ → ℕ
le_value [] = 0
le_value (x ∷ a) = x + 256 * le_value a

-- Of the eight bytes of a `mdb_size_t`.
pub cmp_long : List ℕ → List ℕ → Ordering
cmp_long a b = compare (le_value (take 8 a)) (le_value (take 8 b))

-- Of the four bytes of an `unsigned int`.
pub cmp_int : List ℕ → List ℕ → Ordering
cmp_int a b = compare (le_value (take 4 a)) (le_value (take 4 b))

-- The `unsigned short` at a position.
abbrev pub short_at : List ℕ → ℕ → ℕ
short_at a p = get_or a p 0 + 256 * get_or a (suc p) 0

-- `do x = *--u - *--c; while (!x && u > a)` on strings of one length, which is even, with `rounds` as many
-- shorts as lie below the one that is compared.
pub cint_loop : ℕ → List ℕ → List ℕ → Ordering
cint_loop zero a b = compare (short_at a 0) (short_at b 0)
cint_loop (suc rounds) a b =
    or_else (compare (short_at a (suc rounds + suc rounds)) (short_at b (suc rounds + suc rounds)))
      (cint_loop rounds a b)

-- The first round is done for an empty string too, and reads before it.
pub cmp_cint : List ℕ → List ℕ → Result Ordering
unfolding cint_loop
cmp_cint a b = elim (length a / 2) [ zero ↦ err fault | suc rounds ↦ ok (cint_loop rounds a b) ]
