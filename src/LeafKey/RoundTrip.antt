-- ===== src/LeafKey/RoundTrip.antt =====
-- `mdb_leaf_decode_key` reads back what `mdb_leaf_encode_key` stored.
use dlmdb.Base.{
  ℕ, ◌+◌, ◌^◌, ◌≤◌, ◌<◌, ◌≡◌, ◌≢◌, refl, sym, ap, ◌∙◌, List, [], ◌∷◌, ◌++◌, none, some, Bool, true,
  false, length, drop, take, get_or, All, arith, ok, length-append, take-append_exact,
  drop-append_exact, get_or-append_exact, get_or-drop, length-drop, length-take,
}
use dlmdb.Varint.{varint_length, varint_encode, varint_decode}
use dlmdb.Varint.RoundTrip.{
  decode-encode, length-varint_encode, IsByte, varint_encode-IsByte, varint_decode-byte,
}
use dlmdb.Varint.Length.{varint_length-IsWidth}
use dlmdb.LeafKey.{
  leaf_shared_prefix, leaf_encode_key_fast, leaf_encode_key, prefix_decode_shared, same_bytes,
  header_canonical, parts_of, leaf_key_parts, leaf_decode_key,
}
use dlmdb.LeafKey.Shared.{IsShared, leaf_shared_prefix-IsShared, IsShared-unique, shared_split}

-- The shortcut for headers of one byte agrees with the varint decoder.
decode_shared-varint_decode :
    (b : ℕ) (bs : List ℕ) → IsByte b → prefix_decode_shared (b ∷ bs) ≡ varint_decode (b ∷ bs)
unfolding prefix_decode_shared
decode_shared-varint_decode b bs h = ground (arith, varint_decode-byte b bs)

decode_shared-append :
    (xs ys : List ℕ)
    → 0 < length xs
    → All IsByte xs
    → prefix_decode_shared (xs ++ ys) ≡ varint_decode (xs ++ ys)
decode_shared-append [] ys h bytes = absurd (omega arith)
decode_shared-append (b ∷ bs) ys h (byte, bytes) = decode_shared-varint_decode b (bs ++ ys) byte

decode_shared-encode :
    (shared : ℕ) (rest : List ℕ)
    → shared < 2 ^ 63
    → prefix_decode_shared (varint_encode shared ++ rest) ≡ some (shared, varint_length shared)
decode_shared-encode shared rest h =
    decode_shared-append (varint_encode shared) rest
      (omega (arith, length-varint_encode shared, (varint_length-IsWidth shared).positive))
      (varint_encode-IsByte shared)
    ∙ decode-encode shared rest h

pub same_bytes_refl : (xs : List ℕ) → same_bytes xs xs ≡ true
unfolding same_bytes
same_bytes_refl [] = refl
same_bytes_refl (x ∷ xs) = ground (arith, same_bytes_refl xs)

pub same_bytes_eq : (xs ys : List ℕ) → same_bytes xs ys ≡ true → xs ≡ ys
unfolding same_bytes
same_bytes_eq [] [] e = refl
same_bytes_eq [] (y ∷ ys) e = cc
same_bytes_eq (x ∷ xs) [] e = cc
same_bytes_eq (x ∷ xs) (y ∷ ys) e = ground (arith, same_bytes_eq xs ys)

-- The guards of `mdb_leaf_key_parts` on a header that the encoder wrote.
parts_of-encoded :
    (trunk suffix : List ℕ) (limit shared used : ℕ)
    → used ≡ length (varint_encode shared)
    → shared ≤ length trunk
    → shared + length suffix ≤ limit
    → (0 < length suffix → shared < length trunk → get_or trunk shared 0 ≢ get_or suffix 0 0)
    → parts_of trunk (varint_encode shared ++ suffix) limit (shared, used)
      ≡ ok (record { prefix = some (take shared trunk); suffix = suffix })
unfolding parts_of header_canonical
parts_of-encoded trunk suffix limit shared used e in_trunk fits differs =
    rw
      (
        e,
        drop-append_exact (varint_encode shared) suffix,
        take-append_exact (varint_encode shared) suffix,
        get_or-append_exact (varint_encode shared) suffix 0,
        length-append (varint_encode shared) suffix,
        same_bytes_refl (varint_encode shared),
      )
      (ground arith)

-- The encoder clamps a shared length that is too long; the computed one never is.
pub encode_key-bytes :
    (trunk key : List ℕ) (n : ℕ)
    → IsShared trunk key n
    → (leaf_encode_key (some trunk) key).0 ≡ varint_encode n ++ drop n key
unfolding leaf_encode_key
encode_key-bytes trunk key n h =
    rw (IsShared-unique trunk key _ n (leaf_shared_prefix-IsShared trunk key) h) (fast n h.in_right)
  where
    fast : (m : ℕ) → m ≤ length key → leaf_encode_key_fast key m ≡ varint_encode m ++ drop m key
    fast m le = ground arith

decode_prefix_form :
    (trunk encoded p suffix : List ℕ) (buf_size : ℕ) (allow_alias : Bool) (h : ℕ × ℕ)
    → prefix_decode_shared encoded ≡ some h
    → parts_of trunk encoded buf_size h ≡ ok (record { prefix = some p; suffix = suffix })
    → length p + length suffix ≤ buf_size
    → leaf_decode_key (some trunk) encoded buf_size allow_alias none
      ≡ ok (record { bytes = p ++ suffix; aliased = false })
unfolding leaf_decode_key leaf_key_parts
decode_prefix_form trunk encoded p suffix buf_size allow_alias h e f fits = ground arith

module _ (trunk key : List ℕ) (buf_size : ℕ) (allow_alias : Bool) where
  -- What is stored for a key under a trunk decodes to that key, into the buffer, if the buffer holds
  -- the key: the raw form is never mistaken for it.
  pub decode_key-encode_key :
      length trunk < 2 ^ 63
      → length key ≤ buf_size
      → leaf_decode_key (some trunk) (leaf_encode_key (some trunk) key).0 buf_size allow_alias none
        ≡ ok (record { bytes = key; aliased = false })
  decode_key-encode_key small fits =
      let n = leaf_shared_prefix trunk key in
      let h = leaf_shared_prefix-IsShared trunk key in
      ap (λ enc. leaf_decode_key (some trunk) enc buf_size allow_alias none)
        (encode_key-bytes trunk key n h)
      ∙ decode_prefix_form trunk (varint_encode n ++ drop n key) (take n trunk) (drop n key)
          buf_size allow_alias (n, varint_length n)
          (decode_shared-encode n (drop n key) (omega (arith, h.in_left)))
          (parts_of-encoded trunk (drop n key) buf_size n (varint_length n)
            (sym (length-varint_encode n)) h.in_left (omega (arith, length-drop n key, h.in_right))
            (λ p q. rw (get_or-drop n key 0) (h.maximal q (omega (arith, length-drop n key)))))
          (omega (arith, length-drop n key, length-take n trunk, h.in_left, h.in_right))
      ∙ ap (λ bytes. ok (record { bytes = bytes; aliased = false })) (shared_split trunk key n h)
