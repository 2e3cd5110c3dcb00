-- ===== src/Compare/Integer/Value.antt =====
-- `mdb_cmp_cint` is the order of the numbers that the strings stand for.
use Prim.Native.Nat.{compare, Ordering}
use dlmdb.Base.{
  ℕ, zero, suc, ◌+◌, ◌*◌, ◌/◌, ◌<◌, ◌≡◌, refl, sym, ap, ◌∙◌, List, [], ◌∷◌, length, All, arith,
  take, Result, ok, err, fault,
}
use dlmdb.Compare.{or_else}
use dlmdb.Compare.Integer.{le_value, short_at, cint_loop, cmp_cint, cmp_long, cmp_int}

or_else_assoc : (x y z : Ordering) → or_else (or_else x y) z ≡ or_else x (or_else y z)
or_else_assoc Ordering.lt y z = refl
or_else_assoc Ordering.eq y z = refl
or_else_assoc Ordering.gt y z = refl

-- The lowest short decides last.
loop_front :
    (n x y x' y' : ℕ) (a b : List ℕ)
    → cint_loop (suc n) (x ∷ y ∷ a) (x' ∷ y' ∷ b)
      ≡ or_else (cint_loop n a b) (compare (x + 256 * y) (x' + 256 * y'))
unfolding cint_loop
loop_front zero x y x' y' a b = refl
loop_front (suc m) x y x' y' a b =
    let twice : suc (suc m) + suc (suc m) ≡ suc (suc (suc m + suc m)) = omega arith in
    let at = ap (λ k. compare (short_at (x ∷ y ∷ a) k) (short_at (x' ∷ y' ∷ b) k)) twice in
    ap (λ c. or_else c (cint_loop (suc m) (x ∷ y ∷ a) (x' ∷ y' ∷ b))) at
    ∙ ap (or_else (compare (short_at a (suc m + suc m)) (short_at b (suc m + suc m))))
        (loop_front m x y x' y' a b)
    ∙ sym (
        or_else_assoc (compare (short_at a (suc m + suc m)) (short_at b (suc m + suc m)))
          (cint_loop m a b) (compare (x + 256 * y) (x' + 256 * y')))

compare_digits :
    (x y x' y' v w : ℕ)
    → x < 256
    → y < 256
    → x' < 256
    → y' < 256
    → or_else (compare v w) (compare (x + 256 * y) (x' + 256 * y'))
      ≡ compare (x + 256 * (y + 256 * v)) (x' + 256 * (y' + 256 * w))
compare_digits x y x' y' v w hx hy hx' hy' = ground arith

abbrev pub IsByte : ℕ → Type 0
IsByte x = x < 256

cint_loop-value :
    (n : ℕ) (a b : List ℕ)
    → All IsByte a
    → All IsByte b
    → length a ≡ suc n + suc n
    → length b ≡ suc n + suc n
    → cint_loop n a b ≡ compare (le_value a) (le_value b)
cint_loop-value n [] b ha hb la lb = absurd (omega arith)
cint_loop-value n (x ∷ []) b ha hb la lb = absurd (omega arith)
cint_loop-value n (x ∷ y ∷ a) [] ha hb la lb = absurd (omega arith)
cint_loop-value n (x ∷ y ∷ a) (x' ∷ []) ha hb la lb = absurd (omega arith)
cint_loop-value zero (x ∷ y ∷ z ∷ a) (x' ∷ y' ∷ b) ha hb la lb = absurd (omega arith)
cint_loop-value zero (x ∷ y ∷ []) (x' ∷ y' ∷ z' ∷ b) ha hb la lb = absurd (omega arith)
cint_loop-value zero (x ∷ y ∷ []) (x' ∷ y' ∷ []) (hx, (hy, ha)) (hx', (hy', hb)) la lb =
    unfold cint_loop in compare_digits x y x' y' 0 0 hx hy hx' hy'
cint_loop-value (suc n) (x ∷ y ∷ a) (x' ∷ y' ∷ b) (hx, (hy, ha)) (hx', (hy', hb)) la lb =
    loop_front n x y x' y' a b
    ∙ ap (λ c. or_else c (compare (x + 256 * y) (x' + 256 * y')))
        (cint_loop-value n a b ha hb (omega arith) (omega arith))
    ∙ compare_digits x y x' y' (le_value a) (le_value b) hx hy hx' hy'

pub cmp_cint-value :
    (n : ℕ) (a b : List ℕ)
    → All IsByte a
    → All IsByte b
    → length a ≡ suc n + suc n
    → length b ≡ suc n + suc n
    → cmp_cint a b ≡ ok (compare (le_value a) (le_value b))
unfolding cmp_cint
cmp_cint-value n a b ha hb la lb =
    let half : length a / 2 ≡ suc n = omega arith in
    ap
      (λ k. elim k as (λ _. Result Ordering) [
        | zero ↦ err fault
        | suc rounds ↦ ok (cint_loop rounds a b)
      ])
      half
    ∙ ap ok (cint_loop-value n a b ha hb la lb)

take_full : (n : ℕ) (a : List ℕ) → length a ≡ n → take n a ≡ a
take_full zero [] e = refl
take_full zero (x ∷ a) e = absurd (omega arith)
take_full (suc n) [] e = refl
take_full (suc n) (x ∷ a) e = ap (λ l. x ∷ l) (take_full n a (omega arith))

-- On strings of eight bytes `mdb_cmp_cint` and `mdb_cmp_long` give the same order.
pub cmp_cint-cmp_long :
    (a b : List ℕ)
    → All IsByte a
    → All IsByte b
    → length a ≡ 8
    → length b ≡ 8
    → cmp_cint a b ≡ ok (cmp_long a b)
unfolding cmp_long
cmp_cint-cmp_long a b ha hb la lb =
    cmp_cint-value 3 a b ha hb la lb ∙ sym (rw (take_full 8 a la, take_full 8 b lb) refl)

-- On strings of four bytes `mdb_cmp_cint` and `mdb_cmp_int` give the same order.
pub cmp_cint-cmp_int :
    (a b : List ℕ)
    → All IsByte a
    → All IsByte b
    → length a ≡ 4
    → length b ≡ 4
    → cmp_cint a b ≡ ok (cmp_int a b)
unfolding cmp_int
cmp_cint-cmp_int a b ha hb la lb =
    cmp_cint-value 1 a b ha hb la lb ∙ sym (rw (take_full 4 a la, take_full 4 b lb) refl)
