-- ===== src/Snapshot/Claim.antt =====
-- Claiming a slot of the reader table.
use dlmdb.Base.{
  some_inj, ℕ, zero, suc, ◌≡◌, ◌≢◌, sym, ap, ◌∙◌, List, [], ◌∷◌, false, ◌==◌, some, get_elem?, inl,
  inr, Bool-cases, ne→==,
}
use dlmdb.Snapshot.{Phase, Reader, no_txnid, free_slot, put_slot, claim_slot}

-- The free slot is not one that has a process.
free_kept :
    (readers : List Reader) (i : ℕ) (r new : Reader)
    → get_elem? readers i ≡ some r
    → r.pid ≢ 0
    → get_elem? (put_slot readers (free_slot readers) new) i ≡ some r
unfolding free_slot put_slot
free_kept [] i r new at used = cc
free_kept (x ∷ readers) zero r new at used =
    let same : x.pid ≡ r.pid = ap (λ z. z.pid) (some_inj at) in
    let busy : (x.pid == 0) ≡ false = ne→== x.pid 0 (λ e. used (sym same ∙ e)) in rw busy at
free_kept (x ∷ readers) (suc i) r new at used = elim (Bool-cases (x.pid == 0)) [
  | inl free ↦ rw free at
  | inr busy ↦ rw busy (free_kept readers i r new at used)
]

pub claim_slot-put :
    (readers : List Reader) (maxreaders pid : ℕ) {claimed : List Reader}
    → claim_slot readers maxreaders pid ≡ some claimed
    → put_slot readers
        (free_slot readers)
        (record { pid = pid; txnid = no_txnid; phase = Phase.waiting })
      ≡ claimed
unfolding claim_slot
claim_slot-put readers maxreaders pid {claimed} found =
    elim (Bool-cases (free_slot readers == maxreaders)) [
      | inl full ↦ let none_left = rw full at found in cc
      | inr spare ↦ some_inj (rw spare at found)
    ]

-- Claiming a slot keeps every slot that has a process.
pub claim_slot-kept :
    (readers : List Reader) (maxreaders pid i : ℕ) (r : Reader) {claimed : List Reader}
    → claim_slot readers maxreaders pid ≡ some claimed
    → get_elem? readers i ≡ some r
    → r.pid ≢ 0
    → get_elem? claimed i ≡ some r
claim_slot-kept readers maxreaders pid i r found at used =
    sym (ap (λ l. get_elem? l i) (claim_slot-put readers maxreaders pid found))
    ∙ free_kept readers i r _ at used
