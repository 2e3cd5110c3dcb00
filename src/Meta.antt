-- ===== src/Meta.antt =====
-- mdb.c, the two meta pages and the commit of a transaction: mdb_env_pick_meta and mdb_env_write_meta. `Db`
-- is MDB_db, which these functions copy only.
pub mod Stores
pub mod Atomic
mod Tests
use dlmdb.Base.{
  ℕ, zero, suc, ◌+◌, ◌-◌, ◌%◌, List, [], ◌∷◌, Bool, true, false, not, ◌&&◌, if◌then◌else◌, ltb, leb,
  ◌==◌, take, length, Option, none, some, Result, ok, err, Code,
}

-- The fields in their order in the file.
pub record Meta (Db : Type 0) : Type 0 where
  pub mapsize : ℕ
  pub free_db : Db
  pub main_db : Db
  pub last_pg : ℕ
  pub txnid : ℕ

-- `fatal` is `MDB_FATAL_ERROR` and `prev` is `MDB_PREVSNAPSHOT`; `committed` is `mti_txnid`.
pub record MetaEnv (Db : Type 0) : Type 0 where
  pub meta0 : Meta Db
  pub meta1 : Meta Db
  pub mapsize : ℕ
  pub committed : ℕ
  pub fatal : Bool
  pub prev : Bool

-- What a commit takes from the transaction.
pub record Commit (Db : Type 0) : Type 0 where
  pub txnid : ℕ
  pub free_db : Db
  pub main_db : Db
  pub next_pgno : ℕ

-- A store to one field.
pub data Store (Db : Type 0) : Type 0 where
  set_mapsize set_last_pg set_txnid : ℕ → Store Db
  set_free_db set_main_db : Db → Store Db

-- How the system calls end. `reached` stores of the write arrive in the file; on a failure the old
-- transaction number is written back, of which `restored` stores arrive.
pub record Calls : Type 0 where
  pub msync : Option Code
  pub pwrite : Option Code
  pub reached : ℕ
  pub restored : ℕ

module _ {Db : Type 0} where
  abbrev pub meta_at : MetaEnv Db → ℕ → Meta Db
  meta_at env i = if i == 0 then env.meta0 else env.meta1

  abbrev pub put_meta : MetaEnv Db → ℕ → Meta Db → MetaEnv Db
  put_meta env i m = if i == 0 then record env { meta0 = m } else record env { meta1 = m }

  pub pick_meta : MetaEnv Db → Meta Db
  pick_meta env =
      if ltb env.meta0.txnid env.meta1.txnid
      then (if env.prev then env.meta0 else env.meta1)
      else (if env.prev then env.meta1 else env.meta0)

  abbrev pub store_one : Meta Db → Store Db → Meta Db
  store_one m (Store.set_mapsize x) = record m { mapsize = x }
  store_one m (Store.set_free_db x) = record m { free_db = x }
  store_one m (Store.set_main_db x) = record m { main_db = x }
  store_one m (Store.set_last_pg x) = record m { last_pg = x }
  store_one m (Store.set_txnid x) = record m { txnid = x }

  abbrev pub store_all : Meta Db → List (Store Db) → Meta Db
  store_all m [] = m
  store_all m (s ∷ stores) = store_all (store_one m s) stores

  -- The map size of the other meta page, or a larger one that is configured.
  abbrev pub new_mapsize : MetaEnv Db → ℕ → ℕ
  new_mapsize env toggle =
      let mapsize = (meta_at env ((toggle + 1) % 2)).mapsize in
      if ltb mapsize env.mapsize then env.mapsize else mapsize

  abbrev pub meta_stores : MetaEnv Db → Commit Db → List (Store Db)
  meta_stores env txn =
      Store.set_mapsize (new_mapsize env (txn.txnid % 2))
      ∷ Store.set_free_db txn.free_db
      ∷ Store.set_main_db txn.main_db
      ∷ Store.set_last_pg (txn.next_pgno - 1)
      ∷ Store.set_txnid txn.txnid
      ∷ []

  -- The same data with the number and the last page that the meta page had.
  abbrev pub back_stores : MetaEnv Db → Commit Db → Meta Db → List (Store Db)
  back_stores env txn old =
      Store.set_mapsize (new_mapsize env (txn.txnid % 2))
      ∷ Store.set_free_db txn.free_db
      ∷ Store.set_main_db txn.main_db
      ∷ Store.set_last_pg old.last_pg
      ∷ Store.set_txnid old.txnid
      ∷ []

  -- The end of a commit through the map, with what `msync` gives.
  abbrev pub map_result : MetaEnv Db → ℕ → Option Code → MetaEnv Db × Option Code
  map_result written number (some code) = (record written { fatal = true }, some code)
  map_result written number none = (record written { committed = number }, none)

  -- A commit through a write to the file, with what `pwrite` gives.
  abbrev pub file_result : MetaEnv Db → Commit Db → Calls → Option Code → MetaEnv Db × Option Code
  file_result env txn calls none =
      let old = meta_at env (txn.txnid % 2) in
      (
        record (put_meta env (txn.txnid % 2) (store_all old (meta_stores env txn))) {
          committed = txn.txnid;
        },
        none,
      )
  file_result env txn calls (some code) =
      let old = meta_at env (txn.txnid % 2) in
      let torn = store_all old (take calls.reached (meta_stores env txn)) in
      let left = store_all torn (take calls.restored (back_stores env txn old)) in
      (record (put_meta env (txn.txnid % 2) left) { fatal = true }, some code)

  -- `writemap` is that the map is writable or in memory, `sync` that the change is to be synced. `none` is
  -- `MDB_SUCCESS`.
  pub write_meta : MetaEnv Db → Commit Db → Bool → Bool → Calls → MetaEnv Db × Option Code
  write_meta env txn writemap sync calls =
      if writemap
      then (let old = meta_at env (txn.txnid % 2) in
          map_result (put_meta env (txn.txnid % 2) (store_all old (meta_stores env txn))) txn.txnid
            (if sync then calls.msync else none))
      else file_result env txn calls calls.pwrite
