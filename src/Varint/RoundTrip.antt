-- ===== src/Varint/RoundTrip.antt =====
-- What `mdb_varint_encode` writes, and that `mdb_varint_decode` reads it back.
use Prim.Native.Nat.{bit_or}
use mathlib.Core.List.{append_assoc}
use dlmdb.Base.{
  ℕ, zero, suc, ◌+◌, ◌-◌, ◌/◌, ◌%◌, ◌^◌, ◌≤◌, ◌<◌, ◌≡◌, refl, sym, ap, ◌∙◌, List, [], ◌∷◌, ◌++◌,
  none, some, ◌==◌, Bool, true, ◌&&◌, word64, arith, dec_lt, length, length-append, All, All-append,
}
use dlmdb.Varint.{varint_length, fill, mark, varint_encode, decode_loop, varint_decode}
use dlmdb.Varint.Length.{varint_length-IsWidth}

-- `byte | 0x80` on seven bits, checked on every value.
or_table : ℕ → Bool
or_table zero = true
or_table (suc n) = (bit_or n 0x80 == n + 128) && or_table n

or_table_sound : (n b : ℕ) → or_table n ≡ true → b < n → bit_or b 0x80 ≡ b + 128
unfolding or_table
or_table_sound zero b h lt = elim lt [ ]
or_table_sound (suc n) b h lt = ground (arith, or_table_sound n b)

pub set_top_bit : (b : ℕ) → b < 128 → bit_or b 0x80 ≡ b + 128
unfolding or_table
set_top_bit b h = or_table_sound 128 b refl h

-- The `k` groups of `value` before its last one, each with the top bit set.
pub heads : ℕ → ℕ → List ℕ
heads zero value = []
heads (suc k) value = heads k (value / 128) ++ ((value % 128 + 128) ∷ [])

mark-fill :
    (k value b : ℕ) (tail : List ℕ)
    → b < 128
    → mark (fill k value (b ∷ tail)) ≡ heads k value ++ mark (b ∷ tail)
unfolding mark fill heads
mark-fill zero value b tail h = refl
mark-fill (suc k) value b tail h =
    mark-fill k (value / 128) (value % 128) (b ∷ tail) (omega arith)
    ∙ rw (set_top_bit (value % 128) (omega arith), append_assoc)

pub varint_encode-heads :
    (value k : ℕ)
    → varint_length value ≡ suc k
    → varint_encode value ≡ heads k (value / 128) ++ ((value % 128) ∷ [])
unfolding varint_encode
varint_encode-heads value k e =
    rw e (unfold fill mark in mark-fill k (value / 128) (value % 128) [] (omega arith))

pub length-heads : (k value : ℕ) → length (heads k value) ≡ k
unfolding heads
length-heads zero value = refl
length-heads (suc k) value = omega (
  arith,
  length-append (heads k (value / 128)) ((value % 128 + 128) ∷ []),
  length-heads k (value / 128),
)

-- One round over a leading byte, and over the last one.
decode_loop_head :
    (value rounds k : ℕ) (src : List ℕ)
    → value < word64
    → decode_loop (suc rounds) (value / 128) k ((value % 128 + 128) ∷ src)
      ≡ decode_loop rounds value (suc k) src
unfolding decode_loop
decode_loop_head value rounds k src fits = ground arith

decode_loop_last :
    (value rounds k : ℕ) (src : List ℕ)
    → value < word64
    → decode_loop (suc rounds) (value / 128) k ((value % 128) ∷ src) ≡ some (value, suc k)
unfolding decode_loop
decode_loop_last value rounds k src fits = ground arith

-- `k` rounds over the leading groups leave their value, and no wrap happened.
pub decode_loop-heads :
    (k value rounds total : ℕ) (src : List ℕ)
    → total ≡ k + rounds
    → value < 128 ^ k
    → value < word64
    → decode_loop total 0 0 (heads k value ++ src) ≡ decode_loop rounds value k src
unfolding heads
decode_loop-heads zero value rounds total src e h fits =
    let none_left : value ≡ 0 = omega arith in
    let all_left : total ≡ rounds = omega arith in rw (none_left, all_left)
decode_loop-heads (suc k) value rounds total src e h fits = rw append_assoc (
    decode_loop-heads k (value / 128) (suc rounds) total ((value % 128 + 128) ∷ src) (omega arith)
      (omega arith) (omega arith)
    ∙ decode_loop_head value rounds k src fits)

decode-encode_at :
    (value k : ℕ) (rest : List ℕ)
    → varint_length value ≡ suc k
    → k ≤ 8
    → value < 2 ^ 63
    → value < 128 ^ suc k
    → varint_decode (varint_encode value ++ rest) ≡ some (value, suc k)
unfolding varint_decode
decode-encode_at value k rest e short h held =
    rw (varint_encode-heads value k e, append_assoc)
      (decode_loop-heads k (value / 128) (suc (8 - k)) 9 ((value % 128) ∷ rest) (omega arith)
          (omega arith) (omega arith)
        ∙ decode_loop_last value (8 - k) k rest (omega arith))

-- Reading back gives the value and the number of bytes written, whatever bytes follow, for every
-- value below 2 ^ 63.
pub decode-encode :
    (value : ℕ) (rest : List ℕ)
    → value < 2 ^ 63
    → varint_decode (varint_encode value ++ rest) ≡ some (value, varint_length value)
decode-encode value rest h =
    let w = varint_length-IsWidth value in
    let e : varint_length value ≡ suc (varint_length value - 1) = omega (arith, w.positive) in
    decode-encode_at value (varint_length value - 1) rest e (omega (arith, w.least 8 (omega arith)))
      h (rw e at w.holds)
    ∙ ap (λ n. some (value, n)) (sym e)

fits_more : (k m value : ℕ) → m ≤ k → value < 128 ^ m → value < 128 ^ k
fits_more zero m value h fits = let e : m ≡ 0 = omega arith in rw e at fits
fits_more (suc k) m value h fits = elim (dec_lt m (suc k)) [
  | yes below ↦ omega (arith, fits_more k m value (omega arith) fits)
  | no at_end ↦ let e : m ≡ suc k = omega arith in rw e at fits
]

pub length-varint_encode : (value : ℕ) → length (varint_encode value) ≡ varint_length value
length-varint_encode value =
    let w = varint_length-IsWidth value in
    let e : varint_length value ≡ suc (varint_length value - 1) = omega (arith, w.positive) in
    ap length (varint_encode-heads value (varint_length value - 1) e)
    ∙ length-append (heads (varint_length value - 1) (value / 128)) ((value % 128) ∷ [])
    ∙ omega (arith, length-heads (varint_length value - 1) (value / 128), w.positive)

-- A value from 2 ^ 63 on is written in ten bytes, which cannot be read back.
pub decode-encode_top :
    (value : ℕ) (rest : List ℕ)
    → 2 ^ 63 ≤ value
    → value < word64
    → (length (varint_encode value) ≡ 10) × (varint_decode (varint_encode value ++ rest) ≡ none)
unfolding varint_decode
decode-encode_top value rest lo hi =
    let w = varint_length-IsWidth value in
    let e : varint_length value ≡ 10 = elim (dec_lt 9 (varint_length value)) [
      | yes wide ↦ omega (arith, w.least 9 (omega arith))
      | no narrow ↦
          absurd (omega (arith, fits_more 9 (varint_length value) value (omega arith) w.holds))
    ] in
    (
      length-varint_encode value ∙ e,
      rw (varint_encode-heads value 9 e, append_assoc)
          (decode_loop-heads 9 (value / 128) 0 9 ((value % 128) ∷ rest) (omega arith) (omega arith)
            (omega arith)),
    )

abbrev pub IsByte : ℕ → Type 0
IsByte b = b < 256

heads-IsByte : (k value : ℕ) → All IsByte (heads k value)
unfolding heads
heads-IsByte zero value = tt
heads-IsByte (suc k) value =
    All-append IsByte (heads k (value / 128)) ((value % 128 + 128) ∷ [])
      (heads-IsByte k (value / 128)) (omega arith)

pub varint_encode-IsByte : (value : ℕ) → All IsByte (varint_encode value)
varint_encode-IsByte value =
    let w = varint_length-IsWidth value in
    let e : varint_length value ≡ suc (varint_length value - 1) = omega (arith, w.positive) in
    rw (varint_encode-heads value (varint_length value - 1) e) (
      All-append IsByte (heads (varint_length value - 1) (value / 128)) ((value % 128) ∷ [])
        (heads-IsByte (varint_length value - 1) (value / 128)) (omega arith))

-- A header of one byte stands for itself.
pub varint_encode-byte : (b : ℕ) → b < 128 → varint_encode b ≡ b ∷ []
unfolding heads
varint_encode-byte b h =
    let w = varint_length-IsWidth b in
    let e : varint_length b ≡ 1 = omega (arith, w.positive, w.least 0 (omega arith)) in
    varint_encode-heads b 0 e ∙ ap (λ n. n ∷ []) (omega arith)

pub varint_decode-byte : (b : ℕ) (bs : List ℕ) → b < 128 → varint_decode (b ∷ bs) ≡ some (b, 1)
unfolding varint_decode decode_loop
varint_decode-byte b bs h = ground arith
