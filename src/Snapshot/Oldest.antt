-- ===== src/Snapshot/Oldest.antt =====
-- The boundary of the free list is below every snapshot that a reader holds.
use dlmdb.Base.{
  ◌==◌, refl, ℕ, ◌+◌, ◌-◌, ◌≤◌, ◌<◌, ◌≡◌, ◌≢◌, List, [], ◌∷◌, Bool, true, false, if◌then◌else◌, leb,
  Option, none, some, get_elem?, arith, inl, inr, Bool-cases,
}
use dlmdb.Snapshot.{Reader, oldest_loop, find_oldest, too_recent, fetch}

pub loop-le : (readers : List Reader) (oldest : ℕ) → oldest_loop readers oldest ≤ oldest
unfolding oldest_loop
loop-le [] oldest = omega arith
loop-le (r ∷ readers) oldest = ground (arith, loop-le readers oldest)

-- One more slot that a scan has seen: a slot without a process does not count.
pub loop_free :
    (r : Reader) (readers : List Reader) (oldest : ℕ)
    → r.pid ≡ 0
    → oldest_loop (r ∷ readers) oldest ≡ oldest_loop readers oldest
unfolding oldest_loop
loop_free r readers oldest free = let test : (r.pid == 0) ≡ true = ground arith in rw test refl

pub loop_taken :
    (r : Reader) (readers : List Reader) (oldest : ℕ)
    → r.pid ≢ 0
    → (oldest_loop (r ∷ readers) oldest ≤ oldest_loop readers oldest)
      × (oldest_loop (r ∷ readers) oldest ≤ r.txnid)
unfolding oldest_loop
loop_taken r readers oldest taken = (ground arith, ground arith)

-- A boundary is safe for a transaction when the last committed snapshot and every snapshot in the slots of
-- the reader table from `from` on that `Held` picks are at least it.
abbrev pub IsBelow : List Reader → (Reader → Type 0) → ℕ → ℕ → ℕ → Type 0
IsBelow readers Held last_committed from oldest =
    (oldest ≤ last_committed)
    × ((i : ℕ) (r : Reader) → get_elem? readers i ≡ some r → from ≤ i → Held r → oldest ≤ r.txnid)

-- A test leaves a boundary of that kind, and passes no record that is at least as recent.
abbrev pub Tested : List Reader → (Reader → Type 0) → ℕ → ℕ → Bool × ℕ × Bool → Type 0
Tested readers Held last_committed last out =
    IsBelow readers Held last_committed 0 out.1 × (out.0 ≡ false → last < out.1)

-- What a round of fetching gives: the boundary is of that kind again, and a record that is taken is
-- below it.
abbrev pub Fetched : List Reader → (Reader → Type 0) → ℕ → Option ℕ × ℕ → Type 0
Fetched readers Held last_committed (none, oldest) = IsBelow readers Held last_committed 0 oldest
Fetched readers Held last_committed (some key, oldest) =
    IsBelow readers Held last_committed 0 oldest × (key < oldest)

-- `seen` is what a scan of the table has seen of the slots, one after the other, and `looked` that the
-- oldest snapshot among these is such a boundary for the table as it is now.
module _ (readers seen : List Reader) (Held : Reader → Type 0) (txnid : ℕ)
    (looked : IsBelow readers Held (txnid - 1) 0 (find_oldest (some seen) txnid)) where
  recent-Tested :
      (oldest : ℕ) (found_old : Bool) (last : ℕ)
      → IsBelow readers Held (txnid - 1) 0 oldest
      → leb oldest last ≡ true
      → Tested readers Held (txnid - 1) last (too_recent seen txnid oldest found_old last)
  unfolding too_recent
  recent-Tested oldest true last below recent = rw recent (below, λ e. cc)
  recent-Tested oldest false last below recent = rw recent (looked, λ e. ground arith)

  too_recent-Tested :
      (oldest : ℕ) (found_old : Bool) (last : ℕ)
      → IsBelow readers Held (txnid - 1) 0 oldest
      → Tested readers Held (txnid - 1) last (too_recent seen txnid oldest found_old last)
  unfolding too_recent
  too_recent-Tested oldest found_old last below = elim (Bool-cases (leb oldest last)) [
    | inr old ↦ rw old (below, λ e. ground arith)
    | inl recent ↦ recent-Tested oldest found_old last below recent
  ]

  fetch_found :
      (oldest : ℕ) (found_old : Bool) (found : Option ℕ)
      → IsBelow readers Held (txnid - 1) 0 oldest
      → Fetched readers Held (txnid - 1) (elim found as (λ _. Option ℕ × ℕ) [
        | none ↦ (none, oldest)
        | some key ↦
            let behind = too_recent seen txnid oldest found_old key in
            if behind.0 then (none, behind.1) else (some key, behind.1)
      ])
  fetch_found oldest found_old none below = below
  fetch_found oldest found_old (some key) below =
      let (limit, less) = too_recent-Tested oldest found_old key below in
      elim (Bool-cases (too_recent seen txnid oldest found_old key).0) [
        | inl stop ↦ rw stop limit
        | inr go ↦ rw go (limit, less go)
      ]

  pub fetch-Fetched :
      (oldest : ℕ) (found_old : Bool) (last : ℕ) (found : Option ℕ)
      → IsBelow readers Held (txnid - 1) 0 oldest
      → Fetched readers Held (txnid - 1) (fetch seen txnid oldest found_old last found)
  unfolding fetch
  fetch-Fetched oldest found_old last found below =
      let (limit, less) = too_recent-Tested oldest found_old (last + 1) below in
      elim (Bool-cases (too_recent seen txnid oldest found_old (last + 1)).0) [
        | inl stop ↦ rw stop limit
        | inr go ↦ rw go (
            fetch_found (too_recent seen txnid oldest found_old (last + 1)).1
              (too_recent seen txnid oldest found_old (last + 1)).2 found limit)
      ]
