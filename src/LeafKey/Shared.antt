-- ===== src/LeafKey/Shared.antt =====
-- `mdb_leaf_shared_prefix` gives the length of the longest common prefix.
use dlmdb.Base.{
  ℕ, zero, suc, ◌≤◌, ◌<◌, ◌≡◌, ◌≢◌, refl, sym, ap, ◌∙◌, List, [], ◌∷◌, ◌++◌, length, drop, take,
  take-append-drop, get_or, get_or-take, arith, ℕ_discrete, eq→==, ne→==,
}
use dlmdb.LeafKey.{leaf_shared_prefix}

-- `n` is the length of the longest common prefix of `a` and `b`.
pub record IsShared (a b : List ℕ) (n : ℕ) : Type 0 where
  pub in_left : n ≤ length a
  pub in_right : n ≤ length b
  pub agree : take n a ≡ take n b
  pub maximal : n < length a → n < length b → get_or a n 0 ≢ get_or b n 0

IsShared-cons :
    (x y n : ℕ) (a b : List ℕ) → x ≡ y → IsShared a b n → IsShared (x ∷ a) (y ∷ b) (suc n)
IsShared-cons x y n a b e h = record {
  in_left = omega (arith, h.in_left);
  in_right = omega (arith, h.in_right);
  agree = cc (h.agree);
  maximal = λ p q. h.maximal (omega arith) (omega arith);
}

pub leaf_shared_prefix-IsShared : (a b : List ℕ) → IsShared a b (leaf_shared_prefix a b)
unfolding leaf_shared_prefix
leaf_shared_prefix-IsShared [] b = record {
  in_left = omega arith;
  in_right = omega arith;
  agree = refl;
  maximal = λ p q. absurd (omega arith);
}
leaf_shared_prefix-IsShared (x ∷ a) [] = record {
  in_left = omega arith;
  in_right = omega arith;
  agree = refl;
  maximal = λ p q. absurd (omega arith);
}
leaf_shared_prefix-IsShared (x ∷ a) (y ∷ b) = elim (ℕ_discrete x y) [
  | yes e ↦
      rw (eq→== x y e)
        (IsShared-cons x y (leaf_shared_prefix a b) a b e (leaf_shared_prefix-IsShared a b))
  | no d ↦
      rw (ne→== x y d)
        (record { in_left = omega arith; in_right = omega arith; agree = refl; maximal = λ p q. d })
]

agree_below : (n m : ℕ) (a b : List ℕ) → take n a ≡ take n b → m < n → get_or a m 0 ≡ get_or b m 0
agree_below n m a b e h =
    sym (get_or-take n m a 0 h) ∙ ap (λ l. get_or l m 0) e ∙ get_or-take n m b 0 h

not_below : (a b : List ℕ) (m n : ℕ) → IsShared a b m → IsShared a b n → ¬ (m < n)
not_below a b m n p q h =
    p.maximal (omega (arith, q.in_left)) (omega (arith, q.in_right)) (agree_below n m a b q.agree h)

-- Only one number is the length of the longest common prefix.
pub IsShared-unique : (a b : List ℕ) (m n : ℕ) → IsShared a b m → IsShared a b n → m ≡ n
IsShared-unique a b m n p q = omega (arith, not_below a b m n p q, not_below a b n m q p)

-- The prefix of the trunk and the rest of the key make the key.
pub shared_split : (a b : List ℕ) (n : ℕ) → IsShared a b n → take n a ++ drop n b ≡ b
shared_split a b n h = ap (λ l. l ++ drop n b) h.agree ∙ take-append-drop n b

-- A prefix of `a`, followed by bytes that do not go on as `a` does, shares just that prefix with `a`.
pub IsShared-append :
    (a suffix : List ℕ) (n : ℕ)
    → n ≤ length a
    → (0 < length suffix → n < length a → get_or a n 0 ≢ get_or suffix 0 0)
    → IsShared a (take n a ++ suffix) n
IsShared-append a suffix zero h d = record {
  in_left = omega arith;
  in_right = omega arith;
  agree = refl;
  maximal = λ p q. d q p;
}
IsShared-append [] suffix (suc n) h d = absurd (omega arith)
IsShared-append (x ∷ a) suffix (suc n) h d =
    IsShared-cons x x n a (take n a ++ suffix) refl
      (IsShared-append a suffix n (omega arith) (λ p q. d p (omega arith)))
