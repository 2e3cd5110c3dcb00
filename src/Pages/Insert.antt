-- ===== src/Pages/Insert.antt =====
-- A new slot, with room for its node.
use mathlib.Core.Path.{subst}
use dlmdb.Base.{
  ℕ, zero, suc, ◌+◌, ◌-◌, ◌%◌, ◌≤◌, ◌<◌, ◌≡◌, ◌≢◌, refl, sym, ap, ◌∙◌, List, true, false,
  if◌then◌else◌, ltb, leb, ◌==◌, length, get_or, set, arith, ok, ℕ_discrete, dec_lt, inl, inr, ◌⊎◌,
  length-set,
}
use dlmdb.Pages.{SlotPage, word16, num_slots, slots_up, insert_slot}
use dlmdb.Pages.Shift.{
  get_or-set_self, get_or-set_ne, length-slots_up, slots_up_kept, slots_up_moved, skip,
}
use dlmdb.Pages.Layout.{slot_at, node_byte, IsLaid}

-- The sizes of the nodes with the new one.
abbrev pub with_size : (ℕ → ℕ) → ℕ → ℕ → ℕ → ℕ
with_size size indx node_size k =
    if ltb k indx then size k else if k == indx then node_size else size (k - 1)

-- Every slot is the new one or comes from an old one.
abbrev pub Origin : List ℕ → (ℕ → ℕ) → ℕ → ℕ → ℕ → ℕ → ℕ → Type 0
Origin ptrs size n indx ofs node_size k =
    (k ≡ indx)
    ⊎ ((j : ℕ) × (j < n)
        × (skip indx j ≡ k)
        × (get_or (set (slots_up ptrs indx n) indx ofs) k 0 ≡ get_or ptrs j 0)
        × (with_size size indx node_size k ≡ size j))

Origin-before :
    (ptrs : List ℕ) (size : ℕ → ℕ) (n indx ofs node_size k : ℕ)
    → indx ≤ n
    → k < indx
    → Origin ptrs size n indx ofs node_size k
Origin-before ptrs size n indx ofs node_size k most before = inr (
  k,
  omega arith,
  ground arith,
  get_or-set_ne (slots_up ptrs indx n) indx k ofs (λ e. omega arith)
      ∙ slots_up_kept ptrs indx n k (inl (omega arith)),
  ground arith,
)

Origin-behind :
    (ptrs : List ℕ) (size : ℕ → ℕ) (n indx ofs node_size k : ℕ)
    → n < length ptrs
    → suc k ≤ n
    → indx < suc k
    → Origin ptrs size n indx ofs node_size (suc k)
Origin-behind ptrs size n indx ofs node_size k inside le behind =
    let not_before : ltb (suc k) indx ≡ false = ground arith in
    let not_here : (suc k == indx) ≡ false = ground arith in
    inr (
      k,
      omega arith,
      ground arith,
      get_or-set_ne (slots_up ptrs indx n) indx (suc k) ofs (λ e. omega arith)
          ∙ slots_up_moved ptrs indx n k inside (omega arith) (omega arith),
      rw (not_before, not_here) (ap size {x = suc k - 1} {y = k} (omega arith)),
    )

Origin-of :
    (ptrs : List ℕ) (size : ℕ → ℕ) (n indx ofs node_size k : ℕ)
    → n < length ptrs
    → indx ≤ n
    → k ≤ n
    → Origin ptrs size n indx ofs node_size k
Origin-of ptrs size n indx ofs node_size zero inside most le = elim (ℕ_discrete 0 indx) [
  | yes here ↦ inl here
  | no other ↦ Origin-before ptrs size n indx ofs node_size 0 most (omega arith)
]
Origin-of ptrs size n indx ofs node_size (suc k) inside most le = elim (ℕ_discrete (suc k) indx) [
  | yes here ↦ inl here
  | no other ↦ elim (dec_lt (suc k) indx) [
    | yes before ↦ Origin-before ptrs size n indx ofs node_size (suc k) most before
    | no behind ↦ Origin-behind ptrs size n indx ofs node_size k inside le (omega arith)
  ]
]

replace3 :
    (P : ℕ → ℕ → ℕ → Type 0) {a a' b b' c c' : ℕ} → a ≡ a' → b ≡ b' → c ≡ c' → P a b c → P a' b' c'
replace3 P {a} {a'} {b} {b'} {c} {c'} e f g h =
    subst (λ x. P x b' c') e (subst (λ y. P a y c') f (subst (λ z. P a b z) g h))

skip_ne : (indx j : ℕ) → skip indx j ≢ indx
skip_ne indx j e = ground arith

skip_inj : (indx j i : ℕ) → skip indx j ≡ skip indx i → j ≡ i
skip_inj indx j i e = ground arith

skip_lt : (indx j n : ℕ) → j < n → skip indx j < suc n
skip_lt indx j n h = ground arith

-- The page with the new slot.
abbrev pub with_slot : SlotPage → ℕ → ℕ → ℕ → SlotPage
with_slot mp n indx node_size = record {
  lower = mp.lower + 2;
  upper = mp.upper - node_size;
  ptrs = set (slots_up mp.ptrs indx n) indx (mp.upper - node_size);
  mem = mp.mem;
}

module _ (mp : SlotPage) (n indx node_size : ℕ) (size : ℕ → ℕ) (w : IsLaid mp n size)
    (most : indx ≤ n) (spare : n < length mp.ptrs) (some_size : 0 < node_size)
    (fits : mp.lower + 2 + node_size ≤ mp.upper) where
  new_slot : slot_at (with_slot mp n indx node_size) indx ≡ mp.upper - node_size
  new_slot =
      get_or-set_self (slots_up mp.ptrs indx n) indx (mp.upper - node_size)
        (omega (arith, length-slots_up mp.ptrs indx n))

  new_size : with_size size indx node_size indx ≡ node_size
  new_size = ground arith

  -- What holds of the new slot and of every old one holds of every slot.
  each :
      (P : ℕ → ℕ → ℕ → Type 0)
      → P indx (mp.upper - node_size) node_size
      → ((j : ℕ) → j < n → P (skip indx j) (slot_at mp j) (size j))
      → (k : ℕ) → k < suc n
      → P k (slot_at (with_slot mp n indx node_size) k) (with_size size indx node_size k)
  each P new old k less =
      elim (Origin-of mp.ptrs size n indx (mp.upper - node_size) node_size k spare most
        (omega arith)) [
          | inl here ↦
              replace3 P (sym here)
                (sym new_slot ∙ ap (slot_at (with_slot mp n indx node_size)) (sym here))
                (sym new_size ∙ ap (with_size size indx node_size) (sym here)) new
          | inr (j, before, number, slot, same) ↦
              replace3 P number (sym slot) (sym same) (old j before)
        ]

  new_apart :
      (k : ℕ)
      → k < suc n
      → indx ≢ k
      → (mp.upper - node_size + node_size ≤ slot_at (with_slot mp n indx node_size) k)
        ⊎ (slot_at (with_slot mp n indx node_size) k + with_size size indx node_size k
            ≤ mp.upper - node_size)
  new_apart =
      each
        (λ k at room.
          indx ≢ k → (mp.upper - node_size + node_size ≤ at) ⊎ (at + room ≤ mp.upper - node_size))
        (λ ne. absurd (ne refl)) (λ j before ne. inl (omega (arith, w.behind j before)))

  old_apart :
      (i : ℕ)
      → i < n
      → (k : ℕ) → k < suc n
      → skip indx i ≢ k
      → (slot_at mp i + size i ≤ slot_at (with_slot mp n indx node_size) k)
        ⊎ (slot_at (with_slot mp n indx node_size) k + with_size size indx node_size k
            ≤ slot_at mp i)
  old_apart i first =
      each
        (λ k at room. skip indx i ≢ k → (slot_at mp i + size i ≤ at) ⊎ (at + room ≤ slot_at mp i))
        (λ ne. inr (omega (arith, w.behind i first)))
        (λ j before ne. w.apart i first j before (λ e. ne (ap (skip indx) e)))

  with_slot-IsLaid : IsLaid (with_slot mp n indx node_size) (suc n) (with_size size indx node_size)
  with_slot-IsLaid = record {
    slots = omega (arith, w.slots);
    room = omega (
      arith,
      length-set (slots_up mp.ptrs indx n) indx (mp.upper - node_size),
      length-slots_up mp.ptrs indx n,
    );
    free = omega arith;
    top = omega (arith, w.top);
    small = w.small;
    full = each (λ k at room. 0 < room) some_size (λ j before. w.full j before);
    behind =
        each (λ k at room. mp.upper - node_size ≤ at) (omega arith)
          (λ j before. omega (arith, w.behind j before));
    inside =
        each (λ k at room. at + room ≤ length mp.mem) (omega (arith, w.top))
          (λ j before. w.inside j before);
    apart =
        each
          (λ k at room.
            (l : ℕ)
            → l < suc n
            → k ≢ l
            → (at + room ≤ slot_at (with_slot mp n indx node_size) l)
              ⊎ (slot_at (with_slot mp n indx node_size) l + with_size size indx node_size l ≤ at))
          new_apart old_apart;
  }

  old_slot : (j : ℕ) → j < n → slot_at (with_slot mp n indx node_size) (skip indx j) ≡ slot_at mp j
  old_slot j before =
      each (λ k at room. skip indx j ≡ k → at ≡ slot_at mp j) (λ e. absurd (skip_ne indx j e))
        (λ i first e. ap (slot_at mp) (sym (skip_inj indx j i e))) (skip indx j)
        (skip_lt indx j n before) refl

  insert_run :
      insert_slot mp indx node_size ≡ ok (with_slot mp n indx node_size, mp.upper - node_size)
  unfolding insert_slot
  insert_run =
      let number : num_slots mp ≡ n = omega (arith, w.slots) in
      let whole : node_size % word16 ≡ node_size = omega (arith, w.top, w.small) in
      let ofs : (mp.upper + word16 - node_size) % word16 ≡ mp.upper - node_size =
        omega (arith, w.top, w.small) in
      let lower : (mp.lower + 2) % word16 ≡ mp.lower + 2 = omega (arith, w.top, w.small) in
      let sized : (node_size == node_size) ≡ true = ground arith in
      let placed : ltb n indx ≡ false = ground arith in
      let kept : ltb (mp.upper - node_size) (mp.lower + 2) ≡ false = ground arith in
      let spare : leb (length mp.ptrs) n ≡ false = ground arith in
      simp (number, whole, ofs, lower, sized, placed, kept, spare) refl

-- On a well-formed page of `n` nodes with a spare slot and with `node_size + 2` bytes free, and for an
-- index up to `n`, inserting a slot for a node of a size other than 0 succeeds: the page is well-formed
-- with the new node's size at the index, the new node begins at the offset returned, and every byte of
-- every other node is read as before through the slot's new number.
pub insert_slot-IsLaid :
    (mp : SlotPage) (n indx node_size : ℕ) (size : ℕ → ℕ)
    → IsLaid mp n size
    → indx ≤ n
    → n < length mp.ptrs
    → 0 < node_size
    → mp.lower + 2 + node_size ≤ mp.upper
    → (out : SlotPage) × (insert_slot mp indx node_size ≡ ok (out, mp.upper - node_size))
      × IsLaid out (suc n) (with_size size indx node_size)
      × (slot_at out indx ≡ mp.upper - node_size)
      × ((j b : ℕ) → j < n → node_byte out (skip indx j) b ≡ node_byte mp j b)
insert_slot-IsLaid mp n indx node_size size w most spare some_size fits = (
  with_slot mp n indx node_size,
  insert_run mp n indx node_size size w most spare some_size fits,
  with_slot-IsLaid mp n indx node_size size w most spare some_size fits,
  new_slot mp n indx node_size size w most spare some_size fits,
  λ j b before.
      ap (λ at. get_or mp.mem (at + b) 0)
        (old_slot mp n indx node_size size w most spare some_size fits j before),
)
