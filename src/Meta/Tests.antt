-- ===== src/Meta/Tests.antt =====
-- Commits of the transaction 5 over the snapshots 4 and 3, and the theorem on a write that stops early.
use dlmdb.Base.{ℕ, ◌*◌, ◌≡◌, refl, true, false, none, some, problem, arith}
use dlmdb.Meta.{Meta, MetaEnv, Commit, Calls, pick_meta, write_meta}
use dlmdb.Meta.Stores.{Alternates}
use dlmdb.Meta.Atomic.{Written, write_meta-Written}

abbrev snapshot : ℕ → Meta ℕ
snapshot n = record { mapsize = 4096; free_db = 0; main_db = 10 * n; last_pg = n; txnid = n }

abbrev env : MetaEnv ℕ
env = record {
  meta0 = snapshot 4;
  meta1 = snapshot 3;
  mapsize = 8192;
  committed = 4;
  fatal = false;
  prev = false;
}

abbrev txn : Commit ℕ
txn = record { txnid = 5; free_db = 1; main_db = 50; next_pgno = 8 }

abbrev broken : Calls
broken = record { msync = none; pwrite = some problem; reached = 3; restored = 2 }

-- The whole write arrives and fails, and the write back stops before the number: the page that is picked
-- has the number and the data of the new snapshot, and the last page of the snapshot 3.
short_run :
    pick_meta (write_meta env txn false true (record broken { reached = 5; restored = 4 })).0
    ≡ record { mapsize = 8192; free_db = 1; main_db = 50; last_pg = 3; txnid = 5 }
unfolding pick_meta write_meta
short_run = refl

env-Alternates : Alternates env 4
env-Alternates = record { newer = refl; older = omega arith; current = refl }

-- The page 1 is overwritten.
write_run :
    pick_meta (write_meta env txn true false broken).0
    ≡ record { mapsize = 8192; free_db = 1; main_db = 50; last_pg = 7; txnid = 5 }
unfolding pick_meta write_meta
write_run = refl

write_meta-Written_example : Written env txn 4 2 (write_meta env txn false true broken)
write_meta-Written_example = write_meta-Written env txn 4 false true broken env-Alternates refl
