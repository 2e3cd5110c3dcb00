-- ===== src/Snapshot/Safe.antt =====
-- No page is reused while a reader may still read it.
use mathlib.Core.Path.{subst}
use dlmdb.Base.{
  some_inj, ℕ, zero, suc, ◌<◌, ◌≡◌, refl, sym, ◌∙◌, List, [], ◌∷◌, length, get_elem?-lt, some,
  get_elem?, set, arith, All,
}
use dlmdb.Snapshot.{Phase, Reader, put_slot}
use dlmdb.Snapshot.Oldest.{loop-le}
use dlmdb.Snapshot.Steps.{
  Env, advance, end_read, release_slot, reset_slot, own_slot, Step, Run, opened,
}
use dlmdb.Snapshot.Invariant.{
  IsSafe, All-map, set-Each, put_last-Each, change-IsSafe, advance-Fits, reset-Fits,
}
use dlmdb.Snapshot.Scanning.{active_ne, fetch-IsSafe, scan-IsSafe, pid-IsSafe, txnid-IsSafe}

Step-IsSafe : {maxreaders : ℕ} {e e' : Env} → Step maxreaders e e' → IsSafe e → IsSafe e'
Step-IsSafe (Step.reset e i r at free) s =
    change-IsSafe e (set e.readers i reset_slot) i reset_slot s (reset-Fits e i)
      (set-Each e.readers i reset_slot)
Step-IsSafe (Step.publish e room) s =
    change-IsSafe e (put_slot e.readers (length e.readers) reset_slot) (length e.readers) reset_slot
      s (reset-Fits e (length e.readers)) (put_last-Each e.readers reset_slot)
Step-IsSafe (Step.own e i pid r at fresh ne) s =
    change-IsSafe e (set e.readers i (own_slot r pid)) i (own_slot r pid) s
      (λ used. ne, λ o le before active. cc) (set-Each e.readers i (own_slot r pid))
Step-IsSafe (Step.read e i r at) s =
    change-IsSafe e (set e.readers i (advance e.committed r)) i (advance e.committed r) s
      (advance-Fits e i r s at) (set-Each e.readers i (advance e.committed r))
Step-IsSafe (Step.finish e i r at active) s =
    change-IsSafe e (set e.readers i (end_read r)) i (end_read r) s
      (λ used. s.owned i r at (λ idle. active_ne (sym active ∙ idle)), λ o le before again. cc)
      (set-Each e.readers i (end_read r))
Step-IsSafe (Step.release e i r at) s =
    change-IsSafe e (set e.readers i (release_slot r)) i (release_slot r) s
      (λ used. absurd (used refl), λ o le before again. cc) (set-Each e.readers i (release_slot r))
Step-IsSafe (Step.begin e free) s = record {
  owned = s.owned;
  below = s.below;
  past = s.past;
  writing = λ t h. omega (arith, some_inj h);
  scanned = s.scanned;
}
Step-IsSafe (Step.scan_start e txnid busy) s =
    scan-IsSafe e (record { todo = length e.readers; pid = 0; seen = [] }) s
      (
        loop-le [] e.committed,
        λ i r at past active. absurd (omega (arith, past, get_elem?-lt e.readers i r at)),
      )
Step-IsSafe (Step.scan_pid e s i r now todo fresh at) safe = pid-IsSafe e s i r safe now todo at
Step-IsSafe (Step.scan_txnid e s i r now todo pid at) safe =
    txnid-IsSafe e s i r safe now todo pid at
Step-IsSafe (Step.fetching e s txnid found_old found busy now done) safe =
    fetch-IsSafe e s txnid found_old found safe busy now done
Step-IsSafe (Step.commit e txnid busy) s =
    let later : txnid ≡ suc e.committed = s.writing txnid busy in
    record {
      owned = s.owned;
      below = (omega (arith, s.below.0, later), s.below.1);
      past = All-map _ _ e.reused (λ t h. (omega (arith, h.0, later), h.1)) s.past;
      writing = λ t h. cc;
      scanned = tt;
    }
Step-IsSafe (Step.abort e) s = record {
  owned = s.owned;
  below = s.below;
  past = s.past;
  writing = λ t h. cc;
  scanned = tt;
}

Run-IsSafe : {maxreaders : ℕ} {start e : Env} → Run maxreaders start e → IsSafe start → IsSafe e
Run-IsSafe Run.here s = s
Run-IsSafe (Run.next run step) s = Step-IsSafe step (Run-IsSafe run s)

opened-IsSafe : (committed : ℕ) → IsSafe (opened committed)
opened-IsSafe committed = record {
  owned = λ i r at. cc;
  below = (omega arith, λ i r at le active. cc);
  past = tt;
  writing = λ t h. cc;
  scanned = tt;
}

All-elem : (P : ℕ → Type 0) (xs : List ℕ) (i x : ℕ) → All P xs → get_elem? xs i ≡ some x → P x
All-elem P [] i x h at = cc
All-elem P (y ∷ xs) zero x (h, hs) at = subst P (some_inj at) h
All-elem P (y ∷ xs) (suc i) x (h, hs) at = All-elem P xs i x hs at

-- After any interleaving of the loads and stores by which readers claim and release slots and choose a
-- snapshot, and by which the writer scans the reader table, from an environment that has just been opened: a transaction whose freed pages have been taken for reuse is older than the snapshot of every
-- reader that is reading, so that no reader can reach such a page.
pub Run-reused :
    (maxreaders committed : ℕ) (e : Env) (i k t : ℕ) (r : Reader)
    → Run maxreaders (opened committed) e
    → get_elem? e.reused k ≡ some t
    → get_elem? e.readers i ≡ some r
    → r.phase ≡ Phase.active
    → t < r.txnid
Run-reused maxreaders committed e i k t r run freed at active =
    let safe = Run-IsSafe run (opened-IsSafe committed) in
    (All-elem _ e.reused k t safe.past freed).1 i r at (omega arith) active
