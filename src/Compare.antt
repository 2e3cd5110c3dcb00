-- ===== src/Compare.antt =====
-- mdb.c, the key comparison functions on byte strings: `mdb_cmp_memn`, `mdb_cmp_memn_with_skip` and
-- `mdb_cmp_memnr`. Callers look at the sign of the result only, which is an `Ordering`.
pub mod Order
pub mod Reverse
pub mod Integer
mod Tests
use Prim.Native.Nat.{compare, Ordering}
use dlmdb.Base.{
  ℕ, zero, suc, ◌+◌, ◌-◌, ◌%◌, List, [], ◌∷◌, if◌then◌else◌, ltb, leb, ◌==◌, word32, length, drop,
  get_or,
}

-- `diff ? diff : next`
abbrev pub or_else : Ordering → Ordering → Ordering
or_else Ordering.lt next = Ordering.lt
or_else Ordering.eq next = next
or_else Ordering.gt next = Ordering.gt

-- The C library's `memcmp` on the first `n` bytes; every call is within both strings.
unfoldable pub memcmp : List ℕ → List ℕ → ℕ → Ordering
memcmp [] b n = Ordering.eq
memcmp (x ∷ a) [] n = Ordering.eq
memcmp (x ∷ a) (y ∷ b) zero = Ordering.eq
memcmp (x ∷ a) (y ∷ b) (suc n) = or_else (compare x y) (memcmp a b n)

-- `unsigned int len` takes the low 32 bits of a size.
unfoldable pub cmp_memn : List ℕ → List ℕ → Ordering
unfolding memcmp
cmp_memn a b =
    let len = (if ltb (length b) (length a) then length b else length a) % word32 in
    or_else (memcmp a b len) (compare (length a) (length b))

unfoldable pub cmp_memn_with_skip : List ℕ → List ℕ → ℕ → Ordering
unfolding memcmp
cmp_memn_with_skip a b skip =
    let minlen = if ltb (length a) (length b) then length a else length b in
    if leb minlen skip
    then compare (length a) (length b)
    else or_else (memcmp (drop skip a) (drop skip b) (minlen - skip))
        (compare (length a) (length b))

-- `while (p1 > p1_lim) { diff = *--p1 - *--p2; if (diff) return diff; }`: `rounds` is `p1 - p1_lim`,
-- and `p`, `q` are the distances of `p1`, `p2` from the starts of the strings.
unfoldable pub memnr_loop : ℕ → ℕ → ℕ → List ℕ → List ℕ → Ordering
memnr_loop zero p q a b = Ordering.eq
memnr_loop (suc rounds) p q a b =
    or_else (compare (get_or a (p - 1) 0) (get_or b (q - 1) 0))
      (memnr_loop rounds (p - 1) (q - 1) a b)

unfoldable pub cmp_memnr : List ℕ → List ℕ → Ordering
unfolding memnr_loop
cmp_memnr a b =
    let limit = if ltb (length b) (length a) then length a - length b else 0 in
    or_else (memnr_loop (length a - limit) (length a) (length b) a b)
      (compare (length a) (length b))
