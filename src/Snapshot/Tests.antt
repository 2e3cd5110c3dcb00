-- ===== src/Snapshot/Tests.antt =====
-- A run of one reader and the writer, and the theorems on it.
use dlmdb.Base.{List, ℕ, ◌<◌, ◌≡◌, refl, [], ◌∷◌, false, none, some, get_elem?, arith}
use dlmdb.Snapshot.{Phase, Reader, no_txnid, put_slot, claim_slot}
use dlmdb.Snapshot.Steps.{Scan, Env, advance, reset_slot, load_pid, fetch_round, Step, Run, opened}
use dlmdb.Snapshot.Claim.{claim_slot-kept}
use dlmdb.Snapshot.Safe.{Run-reused}

abbrev reader : ℕ → Phase → Reader
reader txnid phase = record { pid = 1; txnid = txnid; phase = phase }

abbrev with_readers : List Reader → Env
with_readers readers = record {
  readers = readers;
  committed = 5;
  writer = none;
  oldest = 0;
  last = 0;
  reused = [];
  scan = none;
}

abbrev with_reader : Reader → Env
with_reader r = with_readers (r ∷ [])

abbrev scanning : ℕ → ℕ → List Reader → Scan
scanning todo pid seen = record { todo = todo; pid = pid; seen = seen }

-- The reader reads the snapshot 5, and the writer scans the table.
abbrev scanned : Scan → Env
scanned s = record (with_reader (reader 5 Phase.active)) { writer = some 6; scan = some s }

-- The writer takes the pages that the transaction 3 freed.
abbrev final : Env
final = record (scanned (scanning 0 0 (reader 5 Phase.active ∷ []))) {
  oldest = 5;
  last = 3;
  reused = 3 ∷ [];
}

second_run :
    claim_slot (reader 5 Phase.active ∷ []) 4 2
    ≡ some
        (reader 5 Phase.active ∷ record { pid = 2; txnid = no_txnid; phase = Phase.waiting } ∷ [])
unfolding claim_slot
second_run = refl

one_ne : ◌≡◌ {A = ℕ} 1 0 → ⊥
one_ne e = omega arith

-- The reader claims a slot and chooses its snapshot.
reading : Run 4 (opened 5) (with_reader (reader 5 Phase.active))
unfolding advance put_slot
reading =
    Run.next
      (Run.next
        (Run.next
          (Run.next (Run.next Run.here (Step.publish (opened 5) (omega arith)))
            (Step.own (with_reader reset_slot) 0 1 reset_slot refl refl one_ne))
          (Step.read (with_reader (reader no_txnid Phase.waiting)) 0 (reader no_txnid Phase.waiting)
            refl))
        (Step.read (with_reader (reader no_txnid (Phase.loaded 5))) 0
          (reader no_txnid (Phase.loaded 5)) refl))
      (Step.read (with_reader (reader 5 Phase.stored)) 0 (reader 5 Phase.stored) refl)

run : Run 4 (opened 5) final
unfolding load_pid fetch_round
run =
    Run.next
      (Run.next
        (Run.next
          (Run.next (Run.next reading (Step.begin (with_reader (reader 5 Phase.active)) refl)) (
            Step.scan_start (record (with_reader (reader 5 Phase.active)) { writer = some 6 }) 6
              refl))
          (Step.scan_pid (scanned (scanning 1 0 [])) (scanning 1 0 []) 0 (reader 5 Phase.active)
            refl refl refl refl))
        (Step.scan_txnid (scanned (scanning 1 1 [])) (scanning 1 1 []) 0 (reader 5 Phase.active)
          refl refl one_ne refl))
      (Step.fetching (scanned (scanning 0 0 (reader 5 Phase.active ∷ [])))
        (scanning 0 0 (reader 5 Phase.active ∷ [])) 6 false (some 3) refl refl refl)

Run-reused_example : 3 < 5
Run-reused_example = Run-reused 4 5 final 0 0 3 (reader 5 Phase.active) run refl refl refl

claim_slot-kept_example :
    get_elem?
      (reader 5 Phase.active ∷ record { pid = 2; txnid = no_txnid; phase = Phase.waiting } ∷ [])
      0
    ≡ some (reader 5 Phase.active)
claim_slot-kept_example =
    claim_slot-kept (reader 5 Phase.active ∷ []) 4 2 0 (reader 5 Phase.active) second_run refl
      one_ne
