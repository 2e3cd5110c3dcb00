-- ===== src/Varint/Tests.antt =====
-- Runs of the varint functions, and the theorems at concrete inputs.
use dlmdb.Base.{◌^◌, ◌≡◌, refl, [], ◌∷◌, ◌++◌, length, none, some, arith}
use dlmdb.Varint.{varint_length, varint_encode, varint_decode}
use dlmdb.Varint.RoundTrip.{decode-encode, decode-encode_top}

encode_300 : varint_encode 300 ≡ 0x82 ∷ 0x2c ∷ []
unfolding varint_encode
encode_300 = refl

decode_cut : varint_decode (0x82 ∷ []) ≡ none
unfolding varint_decode
decode_cut = refl

decode-encode_example :
    varint_decode (varint_encode 300 ++ (7 ∷ [])) ≡ some (300, varint_length 300)
decode-encode_example = decode-encode 300 (7 ∷ []) (omega arith)

decode-encode_top_example :
    (length (varint_encode (2 ^ 63)) ≡ 10) × (varint_decode (varint_encode (2 ^ 63) ++ []) ≡ none)
decode-encode_top_example = decode-encode_top (2 ^ 63) [] (omega arith) (omega arith)
