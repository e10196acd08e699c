-- ===== src/Coding/Tests.antt =====
-- Concrete runs of the coders of src/pinusdb/util/coding.h.
use pinusdb.Prelude.{ℕ, ◌≡◌, ◌≤◌, ◌<◌, ◌^◌, refl, List, [], ◌∷◌, ◌++◌, some, length, arith}
use pinusdb.Prelude.Int.{negsuc}
use pinusdb.Coding.{
  varint_loop, varint_encode64, varint_encode32, varint_decode_loop, varint_decode64,
  varint_decode32, zigzag_encode32, zigzag_decode32,
}
use pinusdb.Coding.RoundTrip.{
  varint_decode64-encode64, varint_decode32-encode32, zigzag_decode32-encode32,
}

encode_300 : varint_encode64 300 ≡ some (0xac ∷ 0x02 ∷ [])
unfolding varint_encode64 varint_loop
encode_300 = refl

decode_300 : varint_decode32 (0xac ∷ 0x02 ∷ 9 ∷ []) ≡ some (300, 9 ∷ [])
unfolding varint_decode32 varint_decode_loop
decode_300 = refl

encode_minus_2 : zigzag_encode32 (negsuc 1) ≡ 3
unfolding zigzag_encode32
encode_minus_2 = refl

varint_decode64-encode64_example :
    (bs : List ℕ) × (varint_encode64 300 ≡ some bs)
    × (varint_decode64 (bs ++ (7 ∷ [])) ≡ some (300, 7 ∷ []))
    × (length bs ≤ 10)
varint_decode64-encode64_example = varint_decode64-encode64 300 (7 ∷ []) (omega arith)

varint_decode32-encode32_example :
    (varint_loop 10 300 ≡ some (varint_encode32 300))
    × (varint_decode32 (varint_encode32 300 ++ (7 ∷ [])) ≡ some (300, 7 ∷ []))
    × (length (varint_encode32 300) ≤ 5)
varint_decode32-encode32_example = varint_decode32-encode32 300 (7 ∷ []) (omega arith)

zigzag_decode32-encode32_example :
    (zigzag_decode32 (zigzag_encode32 (negsuc 1)) ≡ negsuc 1)
    × (zigzag_encode32 (negsuc 1) < 2 ^ 32)
zigzag_decode32-encode32_example = zigzag_decode32-encode32 (negsuc 1) (omega arith) (omega arith)
