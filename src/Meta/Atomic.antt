-- ===== src/Meta/Atomic.antt =====
-- What a commit leaves in the two meta pages, at whatever field its writes stop.
use mathlib.Core.Path.{subst}
use dlmdb.Base.{
  ℕ, zero, suc, ◌-◌, ◌%◌, ◌≡◌, refl, sym, ap, ◌∙◌, [], ◌∷◌, Bool, true, false, if◌then◌else◌, take,
  Option, none, some, arith, inl, inr, ◌⊎◌, Code,
}
use dlmdb.Meta.{
  Store, Meta, MetaEnv, Commit, Calls, meta_at, put_meta, pick_meta, store_all, new_mapsize,
  meta_stores, back_stores, map_result, file_result, write_meta,
}
use dlmdb.Meta.Stores.{Alternates, put_older, put_newer}

take_nil : {A : Type 0} (k : ℕ) → take {A = A} k [] ≡ []
take_nil zero = refl
take_nil (suc k) = refl

module _ {Db : Type 0} where
  -- The meta page of a commit.
  abbrev pub new_meta : MetaEnv Db → Commit Db → Meta Db
  new_meta env txn = record {
    mapsize = new_mapsize env (txn.txnid % 2);
    free_db = txn.free_db;
    main_db = txn.main_db;
    last_pg = txn.next_pgno - 1;
    txnid = txn.txnid;
  }

  -- The new snapshot with the last page of an older one.
  abbrev pub behind : MetaEnv Db → Commit Db → Meta Db
  behind env txn = record (new_meta env txn) { last_pg = (meta_at env (txn.txnid % 2)).last_pg }

  -- What a write that stops after `k` stores and a write back that stops after `b` leave.
  abbrev pub left_over : MetaEnv Db → Commit Db → ℕ → ℕ → Meta Db
  left_over env txn k b =
      let old = meta_at env (txn.txnid % 2) in
      store_all (store_all old (take k (meta_stores env txn))) (take b (back_stores env txn old))

  -- Its number is the old one, or it is complete, or the write arrived whole and the write back stopped
  -- before the number.
  Left : MetaEnv Db → Commit Db → ℕ → Meta Db → Type 0
  Left env txn b m =
      (m.txnid ≡ (meta_at env (txn.txnid % 2)).txnid)
      ⊎ (m ≡ new_meta env txn)
      ⊎ ((b ≡ 4) × (m ≡ behind env txn))

  -- A write that stopped early.
  early-Left :
      (env : MetaEnv Db) (txn : Commit Db) (m : Meta Db) (b : ℕ)
      → m.txnid ≡ (meta_at env (txn.txnid % 2)).txnid
      → Left env txn b (store_all m (take b (back_stores env txn (meta_at env (txn.txnid % 2)))))
  unfolding Left
  early-Left env txn m zero e = inl e
  early-Left env txn m (suc zero) e = inl e
  early-Left env txn m (suc (suc zero)) e = inl e
  early-Left env txn m (suc (suc (suc zero))) e = inl e
  early-Left env txn m (suc (suc (suc (suc zero)))) e = inl e
  early-Left env txn m (suc (suc (suc (suc (suc b))))) e = inl (
      ap
        (λ l.
          (store_all m (
            Store.set_mapsize (new_mapsize env (txn.txnid % 2))
            ∷ Store.set_free_db txn.free_db
            ∷ Store.set_main_db txn.main_db
            ∷ Store.set_last_pg (meta_at env (txn.txnid % 2)).last_pg
            ∷ Store.set_txnid (meta_at env (txn.txnid % 2)).txnid
            ∷ l)).txnid)
        (take_nil b))

  -- A write that arrived whole.
  whole-Left :
      (env : MetaEnv Db) (txn : Commit Db) (b : ℕ)
      → Left env txn b (
          store_all (new_meta env txn) (take b (back_stores env txn (meta_at env (txn.txnid % 2)))))
  unfolding Left
  whole-Left env txn zero = inr (inl refl)
  whole-Left env txn (suc zero) = inr (inl refl)
  whole-Left env txn (suc (suc zero)) = inr (inl refl)
  whole-Left env txn (suc (suc (suc zero))) = inr (inl refl)
  whole-Left env txn (suc (suc (suc (suc zero)))) = inr (inr (refl, refl))
  whole-Left env txn (suc (suc (suc (suc (suc b))))) = inl (
      ap
        (λ l.
          (store_all (new_meta env txn) (
            Store.set_mapsize (new_mapsize env (txn.txnid % 2))
            ∷ Store.set_free_db txn.free_db
            ∷ Store.set_main_db txn.main_db
            ∷ Store.set_last_pg (meta_at env (txn.txnid % 2)).last_pg
            ∷ Store.set_txnid (meta_at env (txn.txnid % 2)).txnid
            ∷ l)).txnid)
        (take_nil b))

  left_over-Left :
      (env : MetaEnv Db) (txn : Commit Db) (k b : ℕ) → Left env txn b (left_over env txn k b)
  left_over-Left env txn zero b = early-Left env txn (meta_at env (txn.txnid % 2)) b refl
  left_over-Left env txn (suc zero) b = early-Left env txn _ b refl
  left_over-Left env txn (suc (suc zero)) b = early-Left env txn _ b refl
  left_over-Left env txn (suc (suc (suc zero))) b = early-Left env txn _ b refl
  left_over-Left env txn (suc (suc (suc (suc zero)))) b = early-Left env txn _ b refl
  left_over-Left env txn (suc (suc (suc (suc (suc k))))) b =
      subst
        (λ l. Left env txn b (
          store_all (store_all (new_meta env txn) l)
            (take b (back_stores env txn (meta_at env (txn.txnid % 2))))))
        (sym (take_nil k)) (whole-Left env txn b)

  -- What a commit leaves: the new snapshot, or an error and one of the two, or the new one with an old
  -- last page if the write back stopped at its number.
  abbrev pub Written : MetaEnv Db → Commit Db → ℕ → ℕ → MetaEnv Db × Option Code → Type 0
  Written env txn n restored (out, none) =
      Alternates out (suc n) × (pick_meta out ≡ new_meta env txn) × (out.committed ≡ suc n)
  Written env txn n restored (out, some code) =
      (out.fatal ≡ true)
      × ((Alternates out n × (pick_meta out ≡ pick_meta env))
          ⊎ (Alternates out (suc n) × (pick_meta out ≡ new_meta env txn))
          ⊎ ((restored ≡ 4) × Alternates out (suc n) × (pick_meta out ≡ behind env txn)))

  module _ (env : MetaEnv Db) (txn : Commit Db) (n : ℕ) (a : Alternates env n)
      (follows : txn.txnid ≡ suc n) where
    toggle : txn.txnid % 2 ≡ suc n % 2
    toggle = ap (λ t. t % 2) follows

    -- The other page with the new number.
    replaced :
        (m : Meta Db)
        → m.txnid ≡ txn.txnid
        → Alternates (put_meta env (txn.txnid % 2) m) (suc n)
          × (pick_meta (put_meta env (txn.txnid % 2) m) ≡ m)
    replaced m same =
        subst (λ i. Alternates (put_meta env i m) (suc n) × (pick_meta (put_meta env i m) ≡ m))
          (sym toggle) (put_newer env n m a (same ∙ follows))

    unchanged :
        (m : Meta Db)
        → m.txnid ≡ (meta_at env (txn.txnid % 2)).txnid
        → Alternates (put_meta env (txn.txnid % 2) m) n
          × (pick_meta (put_meta env (txn.txnid % 2) m) ≡ pick_meta env)
    unchanged m same =
        subst
          (λ i. Alternates (put_meta env i m) n × (pick_meta (put_meta env i m) ≡ pick_meta env))
          (sym toggle)
          (put_older env n m a
            (omega (arith, same, a.older, ap (λ i. (meta_at env i).txnid) toggle)))

    -- The flag and the number of the lock file do not matter.
    Alternates-fatal :
        (out : MetaEnv Db) (m : ℕ) → Alternates out m → Alternates (record out { fatal = true }) m
    Alternates-fatal out m b = record { newer = b.newer; older = b.older; current = b.current }

    Alternates-committed :
        (out : MetaEnv Db) (m c : ℕ)
        → Alternates out m
        → Alternates (record out { committed = c }) m
    Alternates-committed out m c b = record {
      newer = b.newer;
      older = b.older;
      current = b.current;
    }

    pick_fatal : (out : MetaEnv Db) → pick_meta (record out { fatal = true }) ≡ pick_meta out
    unfolding pick_meta
    pick_fatal out = refl

    pick_committed :
        (out : MetaEnv Db) (c : ℕ) → pick_meta (record out { committed = c }) ≡ pick_meta out
    unfolding pick_meta
    pick_committed out c = refl

    map-Written :
        (restored : ℕ) (o : Option Code)
        → Written env txn n restored
            (map_result (put_meta env (txn.txnid % 2) (new_meta env txn)) txn.txnid o)
    map-Written restored none =
        let out = put_meta env (txn.txnid % 2) (new_meta env txn) in
        let complete = replaced (new_meta env txn) refl in
        (
          Alternates-committed out (suc n) txn.txnid complete.0,
          pick_committed out txn.txnid ∙ complete.1,
          follows,
        )
    map-Written restored (some code) =
        let out = put_meta env (txn.txnid % 2) (new_meta env txn) in
        let complete = replaced (new_meta env txn) refl in
        (refl, inr (inl (Alternates-fatal out (suc n) complete.0, pick_fatal out ∙ complete.1)))

    failed-Written :
        (m : Meta Db) (restored : ℕ) (code : Code)
        → Left env txn restored m
        → Written env txn n restored
            (record (put_meta env (txn.txnid % 2) m) { fatal = true }, some code)
    unfolding Left
    failed-Written m restored code (inl old) =
        let out = put_meta env (txn.txnid % 2) m in
        let (b, picked) = unchanged m old in
        (refl, inl (Alternates-fatal out n b, pick_fatal out ∙ picked))
    failed-Written m restored code (inr (inl new)) =
        let out = put_meta env (txn.txnid % 2) m in
        let (b, picked) = replaced m (ap (λ x. x.txnid) new) in
        (refl, inr (inl (Alternates-fatal out (suc n) b, pick_fatal out ∙ picked ∙ new)))
    failed-Written m restored code (inr (inr (short, torn))) =
        let out = put_meta env (txn.txnid % 2) m in
        let (b, picked) = replaced m (ap (λ x. x.txnid) torn) in
        (refl, inr (inr (short, Alternates-fatal out (suc n) b, pick_fatal out ∙ picked ∙ torn)))

    file-Written :
        (calls : Calls) (o : Option Code)
        → Written env txn n calls.restored (file_result env txn calls o)
    file-Written calls none = map-Written calls.restored none
    file-Written calls (some code) =
        failed-Written (left_over env txn calls.reached calls.restored) calls.restored code
          (left_over-Left env txn calls.reached calls.restored)

  -- For two meta pages of which the one with the parity of the snapshot `n` is the newer, and the commit
  -- of the transaction `n + 1`: if it succeeds, the page that is picked afterwards is the complete new one.
  -- If a system call fails, at whatever field the write and the write back stopped, the environment is
  -- marked as broken, and the page that is picked is the one before the commit or the complete new one,
  -- or, only if the write back stopped just before the number, the new one with the last page that the
  -- overwritten meta page had. In each case the pages alternate again.
  pub write_meta-Written :
      (env : MetaEnv Db) (txn : Commit Db) (n : ℕ) (writemap sync : Bool) (calls : Calls)
      → Alternates env n
      → txn.txnid ≡ suc n
      → Written env txn n calls.restored (write_meta env txn writemap sync calls)
  unfolding write_meta
  write_meta-Written env txn n true sync calls a follows =
      map-Written env txn n a follows calls.restored (if sync then calls.msync else none)
  write_meta-Written env txn n false sync calls a follows =
      file-Written env txn n a follows calls calls.pwrite
