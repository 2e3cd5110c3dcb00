-- ===== src/Compare/Order.antt =====
-- The comparison functions against the lexicographic order of byte strings.
use Prim.Native.Nat.{compare, Ordering}
use dlmdb.Base.{
  ℕ, zero, suc, ◌-◌, ◌≤◌, ◌<◌, ◌≡◌, refl, sym, ap, ◌∙◌, List, [], ◌∷◌, ◌++◌, if◌then◌else◌, ltb,
  word32, length, drop, take, take-append-drop, length-drop, min, arith,
}
use dlmdb.Compare.{or_else, memcmp, cmp_memn, cmp_memn_with_skip}

-- A proper prefix comes before what it begins.
pub lex : List ℕ → List ℕ → Ordering
lex [] [] = Ordering.eq
lex [] (y ∷ b) = Ordering.lt
lex (x ∷ a) [] = Ordering.gt
lex (x ∷ a) (y ∷ b) = or_else (compare x y) (lex a b)

pub flip : Ordering → Ordering
flip Ordering.lt = Ordering.gt
flip Ordering.eq = Ordering.eq
flip Ordering.gt = Ordering.lt

pub memcmp_zero : (a b : List ℕ) → memcmp a b 0 ≡ Ordering.eq
unfolding memcmp
memcmp_zero [] b = refl
memcmp_zero (x ∷ a) [] = refl
memcmp_zero (x ∷ a) (y ∷ b) = refl

pub memcmp-cons :
    (x y : ℕ) (a b : List ℕ) (n : ℕ)
    → memcmp (x ∷ a) (y ∷ b) (suc n) ≡ or_else (compare x y) (memcmp a b n)
unfolding memcmp
memcmp-cons x y a b n = refl

-- `memcmp` over the shorter length and then the lengths is the lexicographic order.
pub memcmp-lex :
    (a b : List ℕ) (n : ℕ)
    → n ≡ min (length a) (length b)
    → or_else (memcmp a b n) (compare (length a) (length b)) ≡ lex a b
unfolding memcmp lex
memcmp-lex [] [] n e = refl
memcmp-lex [] (y ∷ b) n e = ground arith
memcmp-lex (x ∷ a) [] n e = ground arith
memcmp-lex (x ∷ a) (y ∷ b) zero e = absurd (omega arith)
memcmp-lex (x ∷ a) (y ∷ b) (suc n) e = ground (arith, memcmp-lex a b n (omega arith))

-- `mdb_cmp_memn` is the lexicographic order on strings of less than 4 GB.
pub cmp_memn-lex : (a b : List ℕ) → length a < word32 → length b < word32 → cmp_memn a b ≡ lex a b
unfolding cmp_memn
cmp_memn-lex a b ha hb = memcmp-lex a b _ (ground arith)

pub lex-flip : (a b : List ℕ) → lex b a ≡ flip (lex a b)
unfolding lex flip
lex-flip [] [] = refl
lex-flip [] (y ∷ b) = refl
lex-flip (x ∷ a) [] = refl
lex-flip (x ∷ a) (y ∷ b) = ground (arith, lex-flip a b)

pub lex_eq : (a b : List ℕ) → lex a b ≡ Ordering.eq → a ≡ b
unfolding lex
lex_eq [] [] e = refl
lex_eq [] (y ∷ b) e = cc
lex_eq (x ∷ a) [] e = cc
lex_eq (x ∷ a) (y ∷ b) e = ground (arith, lex_eq a b)

pub lex_trans :
    (a b c : List ℕ) → lex a b ≡ Ordering.lt → lex b c ≡ Ordering.lt → lex a c ≡ Ordering.lt
unfolding lex
lex_trans [] [] c p q = cc
lex_trans [] (y ∷ b) [] p q = cc
lex_trans [] (y ∷ b) (z ∷ c) p q = refl
lex_trans (x ∷ a) [] c p q = cc
lex_trans (x ∷ a) (y ∷ b) [] p q = cc
lex_trans (x ∷ a) (y ∷ b) (z ∷ c) p q = ground (arith, lex_trans a b c)

pub lex_refl : (a : List ℕ) → lex a a ≡ Ordering.eq
unfolding lex
lex_refl [] = refl
lex_refl (x ∷ a) = ground (arith, lex_refl a)

-- Bytes that both strings begin with do not decide.
pub lex-append : (p a b : List ℕ) → lex (p ++ a) (p ++ b) ≡ lex a b
unfolding lex
lex-append [] a b = refl
lex-append (x ∷ p) a b = ground (arith, lex-append p a b)

pub lex-drop :
    (skip : ℕ) (a b : List ℕ)
    → take skip a ≡ take skip b
    → lex (drop skip a) (drop skip b) ≡ lex a b
lex-drop skip a b e =
    sym (lex-append (take skip a) (drop skip a) (drop skip b))
    ∙ ap (λ l. lex l (take skip a ++ drop skip b)) (take-append-drop skip a)
    ∙ ap (λ l. lex a (l ++ drop skip b)) e
    ∙ ap (lex a) (take-append-drop skip b)

-- The order of keys: reversing the arguments reverses the answer, only equal strings compare equal,
-- and it is transitive.
pub record IsStrictOrder (cmp : List ℕ → List ℕ → Ordering) : Type 0 where
  pub same : (a : List ℕ) → cmp a a ≡ Ordering.eq
  pub only_same : (a b : List ℕ) → cmp a b ≡ Ordering.eq → a ≡ b
  pub flipped : (a b : List ℕ) → cmp b a ≡ flip (cmp a b)
  pub transitive :
      (a b c : List ℕ) → cmp a b ≡ Ordering.lt → cmp b c ≡ Ordering.lt → cmp a c ≡ Ordering.lt

pub lex-IsStrictOrder : IsStrictOrder lex
lex-IsStrictOrder = record {
  same = lex_refl;
  only_same = lex_eq;
  flipped = lex-flip;
  transitive = lex_trans;
}

-- Where the strings agree on all of the shorter one, their lengths decide.
lex-agree :
    (m : ℕ) (a b : List ℕ)
    → take m a ≡ take m b
    → min (length a) (length b) ≤ m
    → compare (length a) (length b) ≡ lex a b
unfolding lex
lex-agree m [] [] e h = refl
lex-agree m [] (y ∷ b) e h = ground arith
lex-agree m (x ∷ a) [] e h = ground arith
lex-agree zero (x ∷ a) (y ∷ b) e h = absurd (omega arith)
lex-agree (suc m) (x ∷ a) (y ∷ b) e h = ground (arith, lex-agree m a b)

compare_sub : (s m n : ℕ) → s ≤ m → s ≤ n → compare (m - s) (n - s) ≡ compare m n
compare_sub s m n h k = ground arith

pub memcmp_rest :
    (s n : ℕ) (a b : List ℕ)
    → take s a ≡ take s b
    → n ≡ min (length a) (length b)
    → s ≤ n
    → or_else (memcmp (drop s a) (drop s b) (n - s)) (compare (length a) (length b)) ≡ lex a b
memcmp_rest s n a b e h le =
    ap (or_else (memcmp (drop s a) (drop s b) (n - s))) (
      sym (
        rw (length-drop s a, length-drop s b)
          (compare_sub s (length a) (length b) (omega arith) (omega arith))))
    ∙ memcmp-lex (drop s a) (drop s b) (n - s) (rw (length-drop s a, length-drop s b) (omega arith))
    ∙ lex-drop s a b e

-- With a skip inside the part on which the two strings agree, `mdb_cmp_memn_with_skip` gives the
-- answer of `mdb_cmp_memn`.
pub cmp_memn_with_skip-cmp_memn :
    (a b : List ℕ) (skip : ℕ)
    → take skip a ≡ take skip b
    → length a < word32
    → length b < word32
    → cmp_memn_with_skip a b skip ≡ cmp_memn a b
unfolding cmp_memn_with_skip
cmp_memn_with_skip-cmp_memn a b skip e ha hb = ground (
  arith,
  cmp_memn-lex a b ha hb,
  lex-agree skip a b e,
  memcmp_rest skip (if ltb (length a) (length b) then length a else length b) a b e,
)
