-- ===== src/Snapshot/Invariant.antt =====
-- What holds of the reader table and of the writer's scan of it, and that a change of one slot keeps it.
use mathlib.Core.Path.{subst}
use dlmdb.Base.{
  some_inj, ℕ, zero, suc, ◌≤◌, ◌≡◌, ◌≢◌, refl, List, [], ◌∷◌, true, ◌==◌, length, Option, none,
  some, get_elem?, set, arith, inl, inr, Bool-cases, All,
}
use dlmdb.Snapshot.{Phase, Reader, oldest_loop, put_slot}
use dlmdb.Snapshot.Oldest.{IsBelow}
use dlmdb.Snapshot.Steps.{Scan, Env, advance, reset_slot}

abbrev pub IsActive : Reader → Type 0
IsActive r = r.phase ≡ Phase.active

-- A slot in use has a process.
abbrev pub IsOwned : Reader → Type 0
IsOwned r = r.phase ≢ Phase.idle → r.pid ≢ 0

abbrev pub Each : List Reader → (ℕ → Reader → Type 0) → Type 0
Each readers P = (i : ℕ) (r : Reader) → get_elem? readers i ≡ some r → P i r

-- The oldest snapshot that a scan has seen is below the active readers of the slots that it has passed.
abbrev pub ScanBelow : List Reader → ℕ → Option Scan → Type 0
ScanBelow readers committed none = Unit
ScanBelow readers committed (some s) =
    IsBelow readers IsActive committed s.todo (oldest_loop s.seen committed)

pub record IsSafe (e : Env) : Type 0 where
  pub owned : Each e.readers (λ i. IsOwned)
  pub below : IsBelow e.readers IsActive e.committed 0 e.oldest
  pub past : All (λ t. IsBelow e.readers IsActive e.committed 0 (suc t)) e.reused
  pub writing : (t : ℕ) → e.writer ≡ some t → t ≡ suc e.committed
  pub scanned : ScanBelow e.readers e.committed e.scan

pub All-map :
    {A : Type 0} (P Q : A → Type 0) (xs : List A) → ((x : A) → P x → Q x) → All P xs → All Q xs
All-map P Q [] f h = tt
All-map P Q (x ∷ xs) f (h, hs) = (f x h, All-map P Q xs f hs)

pub set-Each :
    (readers : List Reader) (i : ℕ) (r : Reader) (P : ℕ → Reader → Type 0)
    → P i r
    → Each readers P
    → Each (set readers i r) P
set-Each [] i r P new old j x at = cc
set-Each (y ∷ readers) zero r P new old zero x at = subst (P 0) (some_inj at) new
set-Each (y ∷ readers) zero r P new old (suc j) x at = old (suc j) x at
set-Each (y ∷ readers) (suc i) r P new old zero x at = old zero x at
set-Each (y ∷ readers) (suc i) r P new old (suc j) x at =
    set-Each readers i r (λ k. P (suc k)) new (λ k. old (suc k)) j x at

pub put_last-Each :
    (readers : List Reader) (r : Reader) (P : ℕ → Reader → Type 0)
    → P (length readers) r
    → Each readers P
    → Each (put_slot readers (length readers) r) P
unfolding put_slot
put_last-Each [] r P new old zero x at = subst (P 0) (some_inj at) new
put_last-Each [] r P new old (suc j) x at = cc
put_last-Each (y ∷ readers) r P new old zero x at = old zero x at
put_last-Each (y ∷ readers) r P new old (suc j) x at =
    put_last-Each readers r (λ k. P (suc k)) new (λ k. old (suc k)) j x at

-- A reader that may stand in the slot `i`: it is owned, and no boundary is above it that was not above
-- the reader of the slot before.
abbrev pub Fits : Env → ℕ → Reader → Type 0
Fits e i r =
    IsOwned r
    × ((o : ℕ)
        → o ≤ e.committed
        → ((q : Reader) → get_elem? e.readers i ≡ some q → IsActive q → o ≤ q.txnid)
        → IsActive r
        → o ≤ r.txnid)

moved-ScanBelow :
    (e : Env) (readers : List Reader)
    → ((from o : ℕ)
        → IsBelow e.readers IsActive e.committed from o
        → IsBelow readers IsActive e.committed from o)
    → (o : Option Scan) → ScanBelow e.readers e.committed o
    → ScanBelow readers e.committed o
moved-ScanBelow e readers move none h = tt
moved-ScanBelow e readers move (some s) h = move s.todo (oldest_loop s.seen e.committed) h

pub change-IsSafe :
    (e : Env) (readers : List Reader) (i : ℕ) (r : Reader)
    → IsSafe e
    → Fits e i r
    → ((P : ℕ → Reader → Type 0) → P i r → Each e.readers P → Each readers P)
    → IsSafe (record e { readers = readers })
change-IsSafe e readers i r s (own, low) each =
    let move : (from o : ℕ)
        → IsBelow e.readers IsActive e.committed from o
        → IsBelow readers IsActive e.committed from o =
      λ from o (le, held). (
        le,
        each (λ k x. from ≤ k → IsActive x → o ≤ x.txnid)
            (λ more. low o le (λ q at. held i q at more)) held,
      ) in
    record {
      owned = each (λ k. IsOwned) own s.owned;
      below = move 0 e.oldest s.below;
      past = All-map _ _ e.reused (λ t h. move 0 (suc t) h) s.past;
      writing = s.writing;
      scanned = moved-ScanBelow e readers move e.scan s.scanned;
    }

waiting_ne : Phase.waiting ≡ Phase.active → ⊥
waiting_ne e = cc

pub ==→eq : (a b : ℕ) → (a == b) ≡ true → a ≡ b
==→eq a b h = ground arith

advance_parts :
    (e : Env) (i pid txnid : ℕ) (phase : Phase)
    → Fits e i (record { pid = pid; txnid = txnid; phase = phase })
    → Fits e i (advance e.committed (record { pid = pid; txnid = txnid; phase = phase }))
unfolding advance
advance_parts e i pid txnid Phase.idle fits = fits
advance_parts e i pid txnid Phase.waiting (own, low) =
    (λ used. own (λ f. cc), λ o le before active. cc)
advance_parts e i pid txnid (Phase.loaded seen) (own, low) =
    (λ used. own (λ f. cc), λ o le before active. cc)
advance_parts e i pid txnid Phase.active fits = fits
advance_parts e i pid txnid Phase.stored (own, low) = (
  λ used. own (λ f. cc),
  λ o le before active. elim (Bool-cases (txnid == e.committed)) [
    | inl same ↦ omega (arith, ==→eq txnid e.committed same, le)
    | inr other ↦ absurd (waiting_ne (rw other at active))
  ],
)

pub advance-Fits :
    (e : Env) (i : ℕ) (r : Reader)
    → IsSafe e
    → get_elem? e.readers i ≡ some r
    → Fits e i (advance e.committed r)
advance-Fits e i r s at =
    advance_parts e i r.pid r.txnid r.phase
      (s.owned i r at, λ o le before active. before r at active)

pub reset-Fits : (e : Env) (i : ℕ) → Fits e i reset_slot
reset-Fits e i = (λ used. absurd (used refl), λ o le before active. cc)
