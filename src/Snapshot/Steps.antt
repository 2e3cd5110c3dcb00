-- ===== src/Snapshot/Steps.antt =====
-- The steps of readers and of the one writer, in any order. A step is one load or store of a field of the
-- reader table or of `mti_txnid`, with what its thread computes from it, so that steps of others may fall
-- between any two of them; only the search for a free slot, which a mutex keeps other claims out of, is
-- left to chance: a claim takes any slot without a process, or the one behind the last.
use dlmdb.Base.{
  ℕ, suc, ◌+◌, ◌<◌, ◌≡◌, ◌≢◌, List, [], ◌∷◌, Bool, if◌then◌else◌, ◌==◌, Option, none, some,
  get_elem?, set, length,
}
use dlmdb.Snapshot.{Phase, Reader, no_txnid, fetch, put_slot}

-- The writer's scan of the reader table in `mdb_find_oldest`: the slots below `todo` are left, `pid` is what
-- has been loaded of the slot `todo - 1`, or 0, and `seen` is what has been loaded of the slots behind.
pub record Scan : Type 0 where
  pub todo : ℕ
  pub pid : ℕ
  pub seen : List Reader

-- `committed` is `mti_txnid`, `oldest` and `last` are `me_pgoldest` and `me_pglast`, `writer` is the
-- transaction of the writer. `reused` is not in the program: the transactions whose freed pages have been
-- taken for reuse.
pub record Env : Type 0 where
  pub readers : List Reader
  pub committed : ℕ
  pub writer : Option ℕ
  pub oldest : ℕ
  pub last : ℕ
  pub reused : List ℕ
  pub scan : Option Scan

-- The next access of `do r->mr_txnid = ti->mti_txnid; while (r->mr_txnid != ti->mti_txnid);`.
unfoldable pub advance : ℕ → Reader → Reader
advance committed r = elim r.phase [
  | Phase.idle ↦ r
  | Phase.waiting ↦ record r { phase = Phase.loaded committed }
  | Phase.loaded txnid ↦ record r { txnid = txnid; phase = Phase.stored }
  | Phase.stored ↦ record r { phase = if r.txnid == committed then Phase.active else Phase.waiting }
  | Phase.active ↦ r
]

-- The end of a reader's transaction, and the release of its slot.
abbrev pub end_read : Reader → Reader
end_read r = record r { txnid = no_txnid; phase = Phase.waiting }

abbrev pub release_slot : Reader → Reader
release_slot r = record r { pid = 0; phase = Phase.idle }

-- A slot without a process that is not yet given one, and the store of its process.
abbrev pub reset_slot : Reader
reset_slot = record { pid = 0; txnid = no_txnid; phase = Phase.idle }

abbrev pub own_slot : Reader → ℕ → Reader
own_slot r pid = record r { pid = pid; phase = Phase.waiting }

-- `--i` and the load of `mr_pid`: a slot without a process is done with.
unfoldable pub load_pid : Scan → ℕ → Reader → Scan
load_pid s i r =
    if r.pid == 0
    then record { todo = i; pid = 0; seen = record r { pid = 0 } ∷ s.seen }
    else record s { pid = r.pid }

-- The load of `mr_txnid`.
abbrev pub load_txnid : Scan → ℕ → Reader → Scan
load_txnid s i r = record { todo = i; pid = 0; seen = record r { pid = s.pid } ∷ s.seen }

-- A round of fetching, in which `mdb_find_oldest` has seen `seen`. The rest of the round is the writer's own.
unfoldable pub fetch_round : Env → List Reader → ℕ → Bool → Option ℕ → Env
unfolding fetch
fetch_round e seen txnid found_old found =
    let out = fetch seen txnid e.oldest found_old e.last found in
    elim out.0 [
      | none ↦ record e { oldest = out.1 }
      | some key ↦ record e { oldest = out.1; last = key; reused = key ∷ e.reused }
    ]

-- `mdb_txn_end` of the writer, after a commit or not.
abbrev pub end_write : Env → Env
end_write e = record e { writer = none; last = 0; scan = none }

-- A slot is released by its thread, or by the check of the reader table when its process is dead. A scan
-- has no effect on others, so a round that does not need one may follow one all the same.
pub data Step (maxreaders : ℕ) : Env → Env → Type 0 where
  reset :
      (e : Env) (i : ℕ) (r : Reader)
      → get_elem? e.readers i ≡ some r
      → r.pid ≡ 0
      → Step maxreaders e (record e { readers = set e.readers i reset_slot })
  publish :
      (e : Env)
      → length e.readers < maxreaders
      → Step maxreaders e (record e { readers = put_slot e.readers (length e.readers) reset_slot })
  own :
      (e : Env) (i pid : ℕ) (r : Reader)
      → get_elem? e.readers i ≡ some r
      → r ≡ reset_slot
      → pid ≢ 0
      → Step maxreaders e (record e { readers = set e.readers i (own_slot r pid) })
  read :
      (e : Env) (i : ℕ) (r : Reader)
      → get_elem? e.readers i ≡ some r
      → Step maxreaders e (record e { readers = set e.readers i (advance e.committed r) })
  finish :
      (e : Env) (i : ℕ) (r : Reader)
      → get_elem? e.readers i ≡ some r
      → r.phase ≡ Phase.active
      → Step maxreaders e (record e { readers = set e.readers i (end_read r) })
  release :
      (e : Env) (i : ℕ) (r : Reader)
      → get_elem? e.readers i ≡ some r
      → Step maxreaders e (record e { readers = set e.readers i (release_slot r) })
  begin :
      (e : Env) → e.writer ≡ none → Step maxreaders e (record e { writer = some (e.committed + 1) })
  scan_start :
      (e : Env) (txnid : ℕ)
      → e.writer ≡ some txnid
      → Step maxreaders e
          (record e { scan = some (record { todo = length e.readers; pid = 0; seen = [] }) })
  scan_pid :
      (e : Env) (s : Scan) (i : ℕ) (r : Reader)
      → e.scan ≡ some s
      → s.todo ≡ suc i
      → s.pid ≡ 0
      → get_elem? e.readers i ≡ some r
      → Step maxreaders e (record e { scan = some (load_pid s i r) })
  scan_txnid :
      (e : Env) (s : Scan) (i : ℕ) (r : Reader)
      → e.scan ≡ some s
      → s.todo ≡ suc i
      → s.pid ≢ 0
      → get_elem? e.readers i ≡ some r
      → Step maxreaders e (record e { scan = some (load_txnid s i r) })
  fetching :
      (e : Env) (s : Scan) (txnid : ℕ) (found_old : Bool) (found : Option ℕ)
      → e.writer ≡ some txnid
      → e.scan ≡ some s
      → s.todo ≡ 0
      → Step maxreaders e (fetch_round e s.seen txnid found_old found)
  commit :
      (e : Env) (txnid : ℕ)
      → e.writer ≡ some txnid
      → Step maxreaders e (end_write (record e { committed = txnid }))
  abort : (e : Env) → Step maxreaders e (end_write e)

pub data Run (maxreaders : ℕ) (start : Env) : Env → Type 0 where
  here : Run maxreaders start start
  next : {e e' : Env} → Run maxreaders start e → Step maxreaders e e' → Run maxreaders start e'

-- An environment that has just been opened at the snapshot `committed`.
abbrev pub opened : ℕ → Env
opened committed = record {
  readers = [];
  committed = committed;
  writer = none;
  oldest = 0;
  last = 0;
  reused = [];
  scan = none;
}
