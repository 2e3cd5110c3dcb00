-- ===== src/Snapshot/Scanning.antt =====
-- The steps of the writer's scan and its rounds of fetching keep the invariant.
use mathlib.Core.Path.{subst}
use dlmdb.Base.{
  some_inj, ℕ, suc, ◌-◌, ◌≤◌, ◌≡◌, ◌≢◌, refl, sym, ◌∙◌, ◌∷◌, Bool, ◌==◌, ap, ℕ_discrete, Option,
  none, some, get_elem?, arith, inl, inr, Bool-cases,
}
use dlmdb.Snapshot.{Phase, Reader, oldest_loop, find_oldest, fetch}
use dlmdb.Snapshot.Oldest.{IsBelow, Fetched, fetch-Fetched, loop_free, loop_taken}
use dlmdb.Snapshot.Steps.{Scan, Env, load_pid, load_txnid, fetch_round}
use dlmdb.Snapshot.Invariant.{IsActive, ScanBelow, IsSafe, ==→eq}

pub active_ne : Phase.active ≡ Phase.idle → ⊥
active_ne e = cc

Fetched-IsSafe :
    (e : Env) (out : Option ℕ × ℕ)
    → IsSafe e
    → Fetched e.readers IsActive e.committed out
    → IsSafe (elim out.0 as (λ _. Env) [
      | none ↦ record e { oldest = out.1 }
      | some key ↦ record e { oldest = out.1; last = key; reused = key ∷ e.reused }
    ])
Fetched-IsSafe e (none, oldest) s below = record {
  owned = s.owned;
  below = below;
  past = s.past;
  writing = s.writing;
  scanned = s.scanned;
}
Fetched-IsSafe e (some key, oldest) s (below, less) = record {
  owned = s.owned;
  below = below;
  past = (
    (omega (arith, below.0), λ i r at le active. omega (arith, below.1 i r at le active)),
    s.past,
  );
  writing = s.writing;
  scanned = s.scanned;
}

scanned-IsBelow :
    (e : Env) (s : Scan)
    → IsSafe e
    → e.scan ≡ some s
    → IsBelow e.readers IsActive e.committed s.todo (oldest_loop s.seen e.committed)
scanned-IsBelow e s safe now = subst (ScanBelow e.readers e.committed) now safe.scanned

pub fetch-IsSafe :
    (e : Env) (s : Scan) (txnid : ℕ) (found_old : Bool) (found : Option ℕ)
    → IsSafe e
    → e.writer ≡ some txnid
    → e.scan ≡ some s
    → s.todo ≡ 0
    → IsSafe (fetch_round e s.seen txnid found_old found)
unfolding fetch_round find_oldest
fetch-IsSafe e s txnid found_old found safe busy now done =
    let mine : e.committed ≡ txnid - 1 = omega (arith, safe.writing txnid busy) in
    let looked =
      subst (λ from. IsBelow e.readers IsActive e.committed from (oldest_loop s.seen e.committed))
        done (scanned-IsBelow e s safe now) in
    Fetched-IsSafe e (fetch s.seen txnid e.oldest found_old e.last found) safe (
      subst (λ c. Fetched e.readers IsActive c (fetch s.seen txnid e.oldest found_old e.last found))
        (sym mine)
        (fetch-Fetched e.readers s.seen IsActive txnid
          (subst (λ c. IsBelow e.readers IsActive c 0 (oldest_loop s.seen c)) mine looked) e.oldest
          found_old e.last found
          (subst (λ c. IsBelow e.readers IsActive c 0 e.oldest) mine safe.below)))

pub scan-IsSafe :
    (e : Env) (s : Scan)
    → IsSafe e
    → ScanBelow e.readers e.committed (some s)
    → IsSafe (record e { scan = some s })
scan-IsSafe e s safe below = record {
  owned = safe.owned;
  below = safe.below;
  past = safe.past;
  writing = safe.writing;
  scanned = below;
}

-- One more slot that the scan has passed.
passed-IsBelow :
    (e : Env) (i o p : ℕ) (r : Reader)
    → IsBelow e.readers IsActive e.committed (suc i) o
    → get_elem? e.readers i ≡ some r
    → p ≤ o
    → (IsActive r → p ≤ r.txnid)
    → IsBelow e.readers IsActive e.committed i p
passed-IsBelow e i o p r (le, held) at less here = (
  omega (arith, le, less),
  λ k x there more active. elim (ℕ_discrete i k) [
    | yes same ↦
        let reader : r ≡ x = some_inj (sym at ∙ ap (get_elem? e.readers) same ∙ there) in
        subst (λ y. IsActive y → p ≤ y.txnid) reader here active
    | no other ↦ omega (arith, less, held k x there (omega arith) active)
  ],
)

pub pid-IsSafe :
    (e : Env) (s : Scan) (i : ℕ) (r : Reader)
    → IsSafe e
    → e.scan ≡ some s
    → s.todo ≡ suc i
    → get_elem? e.readers i ≡ some r
    → IsSafe (record e { scan = some (load_pid s i r) })
unfolding load_pid
pid-IsSafe e s i r safe now todo at =
    let old = scanned-IsBelow e s safe now in
    elim (Bool-cases (r.pid == 0)) [
      | inr taken ↦ rw taken (scan-IsSafe e (record s { pid = r.pid }) safe old)
      | inl free ↦
          let seen = record r { pid = 0 } in
          let same = loop_free seen s.seen e.committed refl in
          rw free (
            scan-IsSafe e (record { todo = i; pid = 0; seen = seen ∷ s.seen }) safe
              (passed-IsBelow e i (oldest_loop s.seen e.committed)
                (oldest_loop (seen ∷ s.seen) e.committed) r
                (subst
                  (λ t. IsBelow e.readers IsActive e.committed t (oldest_loop s.seen e.committed))
                  todo old)
                at (omega (arith, same))
                (λ active. absurd (
                  safe.owned i r at (λ idle. active_ne (sym active ∙ idle)) (==→eq r.pid 0 free)))))
    ]

pub txnid-IsSafe :
    (e : Env) (s : Scan) (i : ℕ) (r : Reader)
    → IsSafe e
    → e.scan ≡ some s
    → s.todo ≡ suc i
    → s.pid ≢ 0
    → get_elem? e.readers i ≡ some r
    → IsSafe (record e { scan = some (load_txnid s i r) })
txnid-IsSafe e s i r safe now todo pid at =
    let seen = record r { pid = s.pid } in
    let (less, here) = loop_taken seen s.seen e.committed pid in
    scan-IsSafe e (load_txnid s i r) safe (
      passed-IsBelow e i (oldest_loop s.seen e.committed) (oldest_loop (seen ∷ s.seen) e.committed)
        r
        (subst (λ t. IsBelow e.readers IsActive e.committed t (oldest_loop s.seen e.committed)) todo
          (scanned-IsBelow e s safe now))
        at less (λ active. here))
