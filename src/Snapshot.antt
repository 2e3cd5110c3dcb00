-- ===== src/Snapshot.antt =====
-- mdb.c, readers and the reuse of pages: the reader table, the oldest snapshot that is still read, and what
-- mdb_page_alloc takes from the free list. The environment has a lock file and is not read-only.
pub mod Oldest
pub mod Steps
pub mod Claim
pub mod Invariant
pub mod Scanning
pub mod Safe
mod Tests
use dlmdb.Base.{
  ℕ, zero, suc, ◌+◌, ◌-◌, List, [], ◌∷◌, Bool, true, false, not, ◌&&◌, if◌then◌else◌, ltb, leb,
  ◌==◌, word64, length, Option, none, some, Result, ok, err, get_elem?, set,
}

-- Where a reader's thread stands: its slot is free, or taken with no snapshot; it has loaded `mti_txnid`; it
-- has stored it in its slot; it has found it unchanged and reads the snapshot.
pub data Phase : Type 0 where
  idle waiting stored active : Phase
  loaded : ℕ → Phase

-- A slot of the reader table, with the phase of its thread.
pub record Reader : Type 0 where
  pub pid : ℕ
  pub txnid : ℕ
  pub phase : Phase

-- `(txnid_t)-1`
abbrev pub no_txnid : ℕ
no_txnid = word64 - 1

-- The readers from the last slot to the first.
pub oldest_loop : List Reader → ℕ → ℕ
oldest_loop [] oldest = oldest
oldest_loop (r ∷ readers) oldest =
    let rest = oldest_loop readers oldest in
    if r.pid == 0 then rest else if ltb r.txnid rest then r.txnid else rest

-- `none` is an environment without a lock file.
pub find_oldest : Option (List Reader) → ℕ → ℕ
unfolding oldest_loop
find_oldest none txnid = txnid - 1
find_oldest (some readers) txnid = oldest_loop readers (txnid - 1)

-- Whether a record is too recent to be fetched, with `oldest` and `found_old` afterwards.
pub too_recent : List Reader → ℕ → ℕ → Bool → ℕ → Bool × ℕ × Bool
unfolding find_oldest
too_recent readers txnid oldest found_old last =
    if leb oldest last
    then (if found_old
        then (true, oldest, true)
        else (let looked = find_oldest (some readers) txnid in (leb looked last, looked, true)))
    else (false, oldest, found_old)

-- One round of the loop that fetches records of the free list: the record taken, if any, and the boundary
-- `me_pgoldest`. `found` is the key that the cursor gives from `last + 1` on.
pub fetch : List Reader → ℕ → ℕ → Bool → ℕ → Option ℕ → Option ℕ × ℕ
unfolding too_recent
fetch readers txnid oldest found_old last found =
    let before = too_recent readers txnid oldest found_old (last + 1) in
    if before.0 then (none, before.1) else elim found [
      | none ↦ (none, before.1)
      | some key ↦
          let behind = too_recent readers txnid before.1 before.2 key in
          if behind.0 then (none, behind.1) else (some key, behind.1)
    ]

-- The first slot without a process, or the one behind the last.
pub free_slot : List Reader → ℕ
free_slot [] = 0
free_slot (r ∷ readers) = let rest = free_slot readers in if r.pid == 0 then 0 else suc rest

pub put_slot : List Reader → ℕ → Reader → List Reader
put_slot [] i r = r ∷ []
put_slot (x ∷ readers) zero r = r ∷ readers
put_slot (x ∷ readers) (suc i) r = x ∷ put_slot readers i r

-- `none` is `MDB_READERS_FULL`.
pub claim_slot : List Reader → ℕ → ℕ → Option (List Reader)
unfolding free_slot put_slot
claim_slot readers maxreaders pid =
    let i = free_slot readers in
    if i == maxreaders
    then none
    else some (put_slot readers i (record { pid = pid; txnid = no_txnid; phase = Phase.waiting }))
