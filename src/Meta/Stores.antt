-- ===== src/Meta/Stores.antt =====
-- Two meta pages of which one is the newer, and the writing of the other.
use dlmdb.Base.{
  ℕ, suc, ◌%◌, ◌<◌, ◌≡◌, ◌≢◌, refl, sym, ap, ◌∙◌, true, false, ltb, ◌==◌, arith, Bool-cases, inl,
  inr, ℕ_discrete,
}
use dlmdb.Meta.{Meta, MetaEnv, meta_at, put_meta, pick_meta}

turn : (n : ℕ) → (suc n % 2 == 0) ≢ (n % 2 == 0)
turn n same = ground arith

module _ {Db : Type 0} where
  -- The snapshot `n` is on the page of its parity, and the other page is older.
  pub record Alternates (env : MetaEnv Db) (n : ℕ) : Type 0 where
    pub newer : (meta_at env (n % 2)).txnid ≡ n
    pub older : (meta_at env (suc n % 2)).txnid < n
    pub current : env.prev ≡ false

  pub put_self : (env : MetaEnv Db) (i : ℕ) (m : Meta Db) → meta_at (put_meta env i m) i ≡ m
  put_self env i m = elim (Bool-cases (i == 0)) [
    | inl first ↦ rw first refl
    | inr second ↦ rw second refl
  ]

  pub put_other :
      (env : MetaEnv Db) (i j : ℕ) (m : Meta Db)
      → (i == 0) ≢ (j == 0)
      → meta_at (put_meta env i m) j ≡ meta_at env j
  put_other env i j m apart = elim (Bool-cases (i == 0)) [
    | inl first ↦ elim (Bool-cases (j == 0)) [
      | inl also ↦ absurd (apart (first ∙ sym also))
      | inr other ↦ rw (first, other) refl
    ]
    | inr second ↦ elim (Bool-cases (j == 0)) [
      | inl other ↦ rw (second, other) refl
      | inr also ↦ absurd (apart (second ∙ sym also))
    ]
  ]

  put_prev : (env : MetaEnv Db) (i : ℕ) (m : Meta Db) → (put_meta env i m).prev ≡ env.prev
  put_prev env i m = elim (Bool-cases (i == 0)) [
    | inl first ↦ rw first refl
    | inr second ↦ rw second refl
  ]

  -- The two pages by the parity of the snapshot.
  even_pages :
      (env : MetaEnv Db) (n : ℕ)
      → n % 2 ≡ 0
      → (meta_at env (n % 2) ≡ env.meta0) × (meta_at env (suc n % 2) ≡ env.meta1)
  even_pages env n even =
      let here : (n % 2 == 0) ≡ true = ground arith in
      let there : (suc n % 2 == 0) ≡ false = ground arith in ((rw here refl), (rw there refl))

  odd_pages :
      (env : MetaEnv Db) (n : ℕ)
      → n % 2 ≢ 0
      → (meta_at env (n % 2) ≡ env.meta1) × (meta_at env (suc n % 2) ≡ env.meta0)
  odd_pages env n odd =
      let here : (n % 2 == 0) ≡ false = ground arith in
      let there : (suc n % 2 == 0) ≡ true = ground arith in ((rw here refl), (rw there refl))

  pick_first :
      (env : MetaEnv Db)
      → env.prev ≡ false
      → env.meta1.txnid < env.meta0.txnid
      → pick_meta env ≡ env.meta0
  unfolding pick_meta
  pick_first env current less =
      let test : ltb env.meta0.txnid env.meta1.txnid ≡ false = ground arith in
      simp (test, current) refl

  pick_second :
      (env : MetaEnv Db)
      → env.prev ≡ false
      → env.meta0.txnid < env.meta1.txnid
      → pick_meta env ≡ env.meta1
  unfolding pick_meta
  pick_second env current less =
      let test : ltb env.meta0.txnid env.meta1.txnid ≡ true = ground arith in
      simp (test, current) refl

  -- The newer page is the one that is picked.
  pub pick-newer :
      (env : MetaEnv Db) (n : ℕ) → Alternates env n → pick_meta env ≡ meta_at env (n % 2)
  pick-newer env n a = elim (ℕ_discrete (n % 2) 0) [
    | yes even ↦
        let (here, there) = even_pages env n even in
        let newer = ap (λ m. m.txnid) here in
        let older = ap (λ m. m.txnid) there in
        pick_first env a.current (omega (arith, a.newer, a.older, newer, older)) ∙ sym here
    | no odd ↦
        let (here, there) = odd_pages env n odd in
        let newer = ap (λ m. m.txnid) here in
        let older = ap (λ m. m.txnid) there in
        pick_second env a.current (omega (arith, a.newer, a.older, newer, older)) ∙ sym here
  ]

  -- The older page may change as long as it stays older.
  pub put_older :
      (env : MetaEnv Db) (n : ℕ) (m : Meta Db)
      → Alternates env n
      → m.txnid < n
      → Alternates (put_meta env (suc n % 2) m) n
        × (pick_meta (put_meta env (suc n % 2) m) ≡ pick_meta env)
  put_older env n m a less =
      let out = put_meta env (suc n % 2) m in
      let newer = put_other env (suc n % 2) (n % 2) m (turn n) in
      let older = put_self env (suc n % 2) m in
      let b : Alternates out n = record {
        newer = ap (λ x. x.txnid) newer ∙ a.newer;
        older = omega (arith, ap (λ x. x.txnid) older);
        current = put_prev env (suc n % 2) m ∙ a.current;
      } in
      (b, pick-newer out n b ∙ newer ∙ sym (pick-newer env n a))

  -- Once it has the next number it is the newer one.
  pub put_newer :
      (env : MetaEnv Db) (n : ℕ) (m : Meta Db)
      → Alternates env n
      → m.txnid ≡ suc n
      → Alternates (put_meta env (suc n % 2) m) (suc n)
        × (pick_meta (put_meta env (suc n % 2) m) ≡ m)
  put_newer env n m a next =
      let out = put_meta env (suc n % 2) m in
      let newer = put_self env (suc n % 2) m in
      let twice : suc (suc n) % 2 ≡ n % 2 = omega arith in
      let older = ap (meta_at out) twice ∙ put_other env (suc n % 2) (n % 2) m (turn n) in
      let b : Alternates out (suc n) = record {
        newer = ap (λ x. x.txnid) newer ∙ next;
        older = omega (arith, ap (λ x. x.txnid) older, a.newer);
        current = put_prev env (suc n % 2) m ∙ a.current;
      } in
      (b, pick-newer out (suc n) b ∙ newer)
