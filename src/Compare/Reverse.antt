-- ===== src/Compare/Reverse.antt =====
-- `mdb_cmp_memnr` is the lexicographic order of the reversed strings.
use Prim.Native.Nat.{compare}
use mathlib.Core.List.{reverse, reverse-append}
use dlmdb.Base.{
  ℕ, zero, suc, ◌-◌, ◌≤◌, ◌<◌, ◌≡◌, refl, sym, ap, ◌∙◌, List, [], ◌∷◌, ◌++◌, if◌then◌else◌, ltb,
  length, length-append, get_or, take, min, arith,
}
use dlmdb.Compare.{or_else, memcmp, memnr_loop, cmp_memnr}
use dlmdb.Compare.Order.{lex, memcmp-lex, memcmp_zero}

take-suc : (p : ℕ) (a : List ℕ) → p < length a → take (suc p) a ≡ take p a ++ (get_or a p 0 ∷ [])
take-suc p [] h = absurd (omega arith)
take-suc zero (x ∷ a) h = refl
take-suc (suc p) (x ∷ a) h = ap (λ l. x ∷ l) (take-suc p a (omega arith))

take_all : (a : List ℕ) → take (length a) a ≡ a
take_all [] = refl
take_all (x ∷ a) = ap (λ l. x ∷ l) (take_all a)

length-reverse : (a : List ℕ) → length (reverse a) ≡ length a
length-reverse [] = refl
length-reverse (x ∷ a) =
    rw (reverse-append (x ∷ []) a)
      (omega (arith, length-append (reverse a) (x ∷ []), length-reverse a))

reverse-take :
    (p : ℕ) (a : List ℕ)
    → p < length a
    → reverse (take (suc p) a) ≡ get_or a p 0 ∷ reverse (take p a)
reverse-take p a h = ap reverse (take-suc p a h) ∙ reverse-append (take p a) (get_or a p 0 ∷ [])

suc-sub-one : (p : ℕ) → suc p - 1 ≡ p
suc-sub-one p = omega arith

memnr_loop-memcmp :
    (n p q : ℕ) (a b : List ℕ)
    → n ≤ p
    → n ≤ q
    → p ≤ length a
    → q ≤ length b
    → memnr_loop n p q a b ≡ memcmp (reverse (take p a)) (reverse (take q b)) n
unfolding memnr_loop memcmp
memnr_loop-memcmp zero p q a b np nq pa qb =
    sym (memcmp_zero (reverse (take p a)) (reverse (take q b)))
memnr_loop-memcmp (suc n) zero q a b np nq pa qb = absurd (omega arith)
memnr_loop-memcmp (suc n) (suc p) zero a b np nq pa qb = absurd (omega arith)
memnr_loop-memcmp (suc n) (suc p) (suc q) a b np nq pa qb =
    rw
      (reverse-take p a (omega arith), reverse-take q b (omega arith), suc-sub-one p, suc-sub-one q)
      (ap (or_else (compare (get_or a p 0) (get_or b q 0)))
        (memnr_loop-memcmp n p q a b (omega arith) (omega arith) (omega arith) (omega arith)))

-- `mdb_cmp_memnr` compares the strings read from their ends, and a string that ends another comes
-- first.
pub cmp_memnr-lex : (a b : List ℕ) → cmp_memnr a b ≡ lex (reverse a) (reverse b)
unfolding cmp_memnr
cmp_memnr-lex a b =
    let limit = if ltb (length b) (length a) then length a - length b else 0 in
    let rounds : length a - limit ≡ min (length a) (length b) = ground arith in
    let step : memnr_loop (length a - limit) (length a) (length b) a b
        ≡ memcmp (reverse a) (reverse b) (length a - limit) =
      memnr_loop-memcmp (length a - limit) (length a) (length b) a b (omega arith)
        (omega (arith, rounds)) (omega arith) (omega arith)
      ∙ ap (λ l. memcmp (reverse l) (reverse (take (length b) b)) (length a - limit)) (take_all a)
      ∙ ap (λ l. memcmp (reverse a) (reverse l) (length a - limit)) (take_all b) in
    rw step (
      ap (or_else (memcmp (reverse a) (reverse b) (length a - limit))) (
        sym (
          ap (λ n. compare n (length (reverse b))) (length-reverse a)
          ∙ ap (compare (length a)) (length-reverse b)))
      ∙ memcmp-lex (reverse a) (reverse b) (length a - limit)
          (rw (length-reverse a, length-reverse b) rounds))
