-- ===== src/Counted/Update/Shifts.antt =====
-- Counts that change by a signed amount.
use dlmdb.Base.{
  ℕ, zero, suc, ◌+◌, ◌^◌, ◌<◌, ◌≤◌, ◌≡◌, refl, List, [], ◌∷◌, some, true, ◌&&◌, leb, Bool-cases,
  inl, inr, set, get_elem?, arith, ℤ, pos, negsuc, ◌+ℤ◌, is_zero, int64, clamp, sub_nat,
}
use dlmdb.Counted.{Node, Page, node_get_count, node_set_count}
use dlmdb.Counted.Sums.{sum}
use dlmdb.Counted.Update.{count_diff}

-- `b` is `a` moved by `delta`.
abbrev pub Shifts : ℤ → ℕ → ℕ → Type 0
Shifts (pos d) a b = b ≡ a + d
Shifts (negsuc d) a b = a ≡ b + suc d

-- How far it may grow.
abbrev pub grow : ℤ → ℕ
grow (pos d) = d
grow (negsuc d) = 0

-- The largest `int64_t`, and one more.
abbrev pub int64_end : ℕ
int64_end = 2 ^ 63

int64_small : (n : ℕ) → n < int64_end → int64 n ≡ pos n
int64_small n h = ground arith

pub clamp-Shifts :
    (delta : ℤ) (a b : ℕ)
    → Shifts delta a b
    → a < int64_end
    → b < int64_end
    → clamp (int64 a +ℤ delta) ≡ b
clamp-Shifts (pos d) a b e h k = rw (int64_small a h) (omega arith)
clamp-Shifts (negsuc d) a b e h k = rw (int64_small a h) (ground arith)

sub_nat-Shifts : (a b : ℕ) → Shifts (sub_nat b a) a b
sub_nat-Shifts a b = elim (Bool-cases (leb a b)) [
  | inl e ↦ rw e (ground arith)
  | inr e ↦ rw e (ground arith)
]

pub count_diff-Shifts : (a b : ℕ) → a < int64_end → b < int64_end → Shifts (count_diff b a) a b
count_diff-Shifts a b h k = rw (int64_small a h, int64_small b k) (sub_nat-Shifts a b)

pub Shifts-grow : (delta : ℤ) (a b : ℕ) → Shifts delta a b → grow delta ≤ b
Shifts-grow (pos d) a b e = omega arith
Shifts-grow (negsuc d) a b e = omega arith

pub Shifts-le : (delta : ℤ) (a b : ℕ) → Shifts delta a b → b ≤ a + grow delta
Shifts-le (pos d) a b e = omega arith
Shifts-le (negsuc d) a b e = omega arith

pub Shifts-zero : (delta : ℤ) (a b : ℕ) → Shifts delta a b → is_zero delta ≡ true → b ≡ a
Shifts-zero (pos zero) a b e z = omega arith
Shifts-zero (pos (suc d)) a b e z = cc
Shifts-zero (negsuc d) a b e z = cc

pub sum-set :
    (weight : Node → ℕ) (nodes : List Node) (k : ℕ) (old new : Node)
    → get_elem? nodes k ≡ some old
    → sum weight (set nodes k new) + weight old ≡ sum weight nodes + weight new
sum-set weight [] k old new e = cc
sum-set weight (n ∷ nodes) zero old new e =
    let same : weight n ≡ weight old = cc in omega (arith, same)
sum-set weight (n ∷ nodes) (suc k) old new e = omega (arith, sum-set weight nodes k old new e)

pub Shifts-sum : (delta : ℤ) (a b x y : ℕ) → Shifts delta a b → x + a ≡ y + b → Shifts delta y x
Shifts-sum (pos d) a b x y e s = omega arith
Shifts-sum (negsuc d) a b x y e s = omega arith

pub get_count-set_count :
    (page : Page) (node : Node) (value : ℕ)
    → page.branch && page.counted ≡ true
    → node_get_count page (node_set_count page node value) ≡ value
get_count-set_count page node value e = rw (e) refl

pub sum-le :
    (weight : Node → ℕ) (nodes : List Node) (k : ℕ) (node : Node)
    → get_elem? nodes k ≡ some node
    → weight node ≤ sum weight nodes
sum-le weight [] k node e = cc
sum-le weight (n ∷ nodes) zero node e =
    let same : weight n ≡ weight node = cc in omega (arith, same)
sum-le weight (n ∷ nodes) (suc k) node e = omega (arith, sum-le weight nodes k node e)

pub Shifts-cong :
    (delta : ℤ) (a b a' b' : ℕ) → Shifts delta a b → a' ≡ a → b' ≡ b → Shifts delta a' b'
Shifts-cong (pos d) a b a' b' e p q = omega arith
Shifts-cong (negsuc d) a b a' b' e p q = omega arith

pub Shifts-same : (delta : ℤ) (a b : ℕ) → Shifts delta a a → Shifts delta b b
Shifts-same (pos d) a b e = omega arith
Shifts-same (negsuc d) a b e = omega arith
