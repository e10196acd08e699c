-- ===== src/Coding.antt =====
-- src/pinusdb/util/coding.h: integers as bytes. A buffer is the list of its bytes, and a function
-- that returns a pointer behind what it wrote or read returns the bytes written or the bytes left.
-- Masks and shifts are written as arithmetic: `x & 127` is `x % 128`, `x >> 7` is `x / 128`,
-- `x | 128` on a byte whose top bit is not set adds 128, and `result |= y << shift` adds, since
-- `result` is below 2 ^ shift. The machine is little-endian (PLATFORM_LITTLE_ENDIAN).
mod Tests
pub mod RoundTrip
use pinusdb.Prelude.{
  ℕ, zero, suc, ◌+◌, ◌-◌, ◌*◌, ◌/◌, ◌%◌, ◌^◌, Bool, List, [], ◌∷◌, ◌++◌, Option, none, some, ltb,
  leb, ◌==◌, if◌then◌else◌,
}
use pinusdb.Prelude.Int.{ℤ, pos, negsuc, to_word}

-- `while (value >= B) { *ptr++ = (value & (B - 1)) | B; value >>= 7; } *ptr++ = value;` for at
-- most the given number of bytes; `none` means that they did not suffice.
unfoldable pub varint_loop : ℕ → ℕ → Option (List ℕ)
varint_loop zero v = none
varint_loop (suc n) v =
    let rest : Option (List ℕ) = elim (varint_loop n (v / 128)) [
      | none ↦ none
      | some bs ↦ some ((v % 128 + 128) ∷ bs)
    ] in
    if ltb v 128 then some (v ∷ []) else rest

-- A uint64 takes ten bytes at most.
unfoldable pub varint_encode64 : ℕ → Option (List ℕ)
varint_encode64 = varint_loop 10

-- The string grows by the bytes written to `buf[10]`.
unfoldable pub put_varint64 : List ℕ → ℕ → Option (List ℕ)
put_varint64 dst v = elim (varint_loop 10 v) [ none ↦ none | some bs ↦ some (dst ++ bs) ]

unfoldable pub put_varint32 : List ℕ → ℕ → Option (List ℕ)
put_varint32 dst v = elim (varint_loop 10 v) [ none ↦ none | some bs ↦ some (dst ++ bs) ]

-- The unrolled encoder: a uint32 takes five bytes at most.
unfoldable pub varint_encode32 : ℕ → List ℕ
varint_encode32 v =
    let group = λ (k : ℕ). v / 128 ^ k % 128 + 128 in
    if ltb v (2 ^ 7)
    then v ∷ []
    else if ltb v (2 ^ 14)
    then group 0 ∷ v / 128 ∷ []
    else if ltb v (2 ^ 21)
    then group 0 ∷ group 1 ∷ v / 128 ^ 2 ∷ []
    else if ltb v (2 ^ 28)
    then group 0 ∷ group 1 ∷ group 2 ∷ v / 128 ^ 3 ∷ []
    else group 0 ∷ group 1 ∷ group 2 ∷ group 3 ∷ v / 128 ^ 4 ∷ []

-- The loop of the decoders over the bytes up to `limit`: `word` is 2 to the width, and `last` the
-- greatest shift that is allowed.
unfoldable pub varint_decode_loop : ℕ → ℕ → List ℕ → ℕ → ℕ → Option (ℕ × List ℕ)
varint_decode_loop word last [] shift result = none
varint_decode_loop word last (b ∷ p) shift result =
    let result' = result + b % 128 * 2 ^ shift % word in
    let more = varint_decode_loop word last p (shift + 7) result' in
    if ltb last shift then none else if leb 128 b then more else some (result', p)

unfoldable pub varint_decode64 : List ℕ → Option (ℕ × List ℕ)
varint_decode64 p = varint_decode_loop (2 ^ 64) 63 p 0 0

unfoldable pub varint_decode32 : List ℕ → Option (ℕ × List ℕ)
varint_decode32 p = varint_decode_loop (2 ^ 32) 28 p 0 0

-- `(n << 1) ^ (n >> 31)` on the word of an int32, `half` being 2 ^ 31; likewise for an int64. The
-- arithmetic shift gives all ones for a negative number, and the exclusive or the complement.
abbrev zigzag_encode : ℕ → ℤ → ℕ
zigzag_encode half n =
    let shifted = to_word (2 * half) n * 2 % (2 * half) in
    elim n [ pos _ ↦ shifted | negsuc _ ↦ 2 * half - 1 - shifted ]

unfoldable pub zigzag_encode32 : ℤ → ℕ
unfolding to_word
zigzag_encode32 n = zigzag_encode (2 ^ 31) n

unfoldable pub zigzag_encode64 : ℤ → ℕ
unfolding to_word
zigzag_encode64 n = zigzag_encode (2 ^ 63) n

-- `(n >> 1) ^ -(n & 1)`: the half, complemented if the number is odd.
unfoldable pub zigzag_decode32 : ℕ → ℤ
zigzag_decode32 n = if n % 2 == 0 then pos (n / 2) else negsuc (n / 2)

unfoldable pub zigzag_decode64 : ℕ → ℤ
zigzag_decode64 n = if n % 2 == 0 then pos (n / 2) else negsuc (n / 2)

-- `memcpy` of an integer of `k` bytes.
unfoldable pub bytes_of : ℕ → ℕ → List ℕ
bytes_of zero v = []
bytes_of (suc k) v = v % 256 ∷ bytes_of k (v / 256)

-- `memcpy` into an integer of `k` bytes. A buffer that ends early is read past its end in C++;
-- here the bytes that are missing are 0.
unfoldable pub of_bytes : ℕ → List ℕ → ℕ
of_bytes zero p = 0
of_bytes (suc k) [] = 0
of_bytes (suc k) (b ∷ p) = b + 256 * of_bytes k p

unfoldable pub fixed_encode16 : ℕ → List ℕ
fixed_encode16 = bytes_of 2

unfoldable pub fixed_encode32 : ℕ → List ℕ
fixed_encode32 = bytes_of 4

unfoldable pub fixed_encode64 : ℕ → List ℕ
fixed_encode64 = bytes_of 8

unfoldable pub put_fixed16 : List ℕ → ℕ → List ℕ
put_fixed16 dst v = dst ++ bytes_of 2 v

unfoldable pub put_fixed32 : List ℕ → ℕ → List ℕ
put_fixed32 dst v = dst ++ bytes_of 4 v

unfoldable pub put_fixed64 : List ℕ → ℕ → List ℕ
put_fixed64 dst v = dst ++ bytes_of 8 v

unfoldable pub fixed_decode16 : List ℕ → ℕ
fixed_decode16 = of_bytes 2

unfoldable pub fixed_decode32 : List ℕ → ℕ
fixed_decode32 = of_bytes 4

unfoldable pub fixed_decode64 : List ℕ → ℕ
fixed_decode64 = of_bytes 8
