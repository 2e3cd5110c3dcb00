-- ===== src/Base/Words.antt =====
-- Machine words: `size_t`, `MDB_ID` and `uint64_t` are native numbers below 2 ^ 64, `unsigned` is one
-- below 2 ^ 32, and the recursion principle of loops whose counter falls.
use Prim.Native.Nat.{ℕ, zero, suc, ◌+◌, ◌-◌, ◌%◌, ◌^◌, ◌<◌}
use mathlib.Core.Path.{◌≡◌}
use mathlib.Core.WellFounded.{Acc, WellFounded}
use native.Mathlib.Omega.{arith}
use dlmdb.Base.Tests.{ltb, if◌then◌else◌}

abbrev pub word64 : ℕ
word64 = 2 ^ 64

abbrev pub word32 : ℕ
word32 = 2 ^ 32

-- `P_INVALID`, no page's number.
abbrev pub p_invalid : ℕ
p_invalid = word64 - 1

-- A value passed as `int` and then added to a `size_t`: cut to 32 bits, sign-extended.
unfoldable pub int_arg : ℕ → ℕ
int_arg x = let w = x % word32 in if ltb w (2 ^ 31) then w else w + (word64 - word32)

pub int_arg_small : (x : ℕ) → x < 2 ^ 31 → int_arg x ≡ x
unfolding int_arg
int_arg_small x h = ground arith

Acc-below : (k n : ℕ) → n < k → Acc ◌<◌ n
Acc-below zero n h = elim h [ ]
Acc-below (suc k) n h = Acc.intro n (λ m hm. Acc-below k m (omega arith))

unfoldable pub lt_wf : WellFounded ◌<◌
unfolding Acc-below
lt_wf = record { apply = λ n. Acc-below (suc n) n (omega arith) }
