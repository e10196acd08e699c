-- ===== src/Coding/RoundTrip.antt =====
-- Decoding after encoding, for the integers of src/pinusdb/util/coding.h.
use pinusdb.Prelude.{
  ℕ, zero, suc, ◌+◌, ◌*◌, ◌/◌, ◌%◌, ◌^◌, ◌≤◌, ◌<◌, ◌≡◌, ap, ◌∙◌, List, [], ◌∷◌, ◌++◌, some, length,
  arith, ltb, ltb→lt, Bool-cases, inl, inr,
}
use pinusdb.Prelude.Int.{ℤ, pos_part, neg_part}
use pinusdb.Coding.{
  varint_loop, varint_encode64, varint_encode32, varint_decode_loop, varint_decode64,
  varint_decode32, zigzag_encode32, zigzag_encode64, zigzag_decode32, zigzag_decode64, bytes_of,
  of_bytes, fixed_encode16, fixed_encode32, fixed_encode64, fixed_decode16, fixed_decode32,
  fixed_decode64,
}
use native.Mathlib.Nat.{div-add-mod, mod-eq_of_lt}
use native.Mathlib.Numerals.{towards_suc}

-- Zigzag coding loses no int32, and its codes fit a uint32.
pub zigzag_decode32-encode32 :
    (n : ℤ)
    → pos_part n < 2 ^ 31
    → neg_part n ≤ 2 ^ 31
    → (zigzag_decode32 (zigzag_encode32 n) ≡ n) × (zigzag_encode32 n < 2 ^ 32)
unfolding zigzag_decode32 zigzag_encode32
zigzag_decode32-encode32 n h k = (ground arith, ground arith)

-- Zigzag coding loses no int64, and its codes fit a uint64.
pub zigzag_decode64-encode64 :
    (n : ℤ)
    → pos_part n < 2 ^ 63
    → neg_part n ≤ 2 ^ 63
    → (zigzag_decode64 (zigzag_encode64 n) ≡ n) × (zigzag_encode64 n < 2 ^ 64)
unfolding zigzag_decode64 zigzag_encode64
zigzag_decode64-encode64 n h k = (ground arith, ground arith)

pub of_bytes-bytes_of :
    (k v : ℕ) (rest : List ℕ) → v < 256 ^ k → of_bytes k (bytes_of k v ++ rest) ≡ v
unfolding of_bytes bytes_of
of_bytes-bytes_of zero v rest h = omega arith
of_bytes-bytes_of (suc k) v rest h = omega (arith, of_bytes-bytes_of k (v / 256) rest (omega arith))

-- The unrolled encoder of a uint32 writes what the loop writes.
varint_encode32-loop :
    (v : ℕ)
    → v < 2 ^ 32
    → (varint_loop 10 v ≡ some (varint_encode32 v)) × (varint_loop 5 v ≡ some (varint_encode32 v))
unfolding varint_loop varint_encode32
varint_encode32-loop v h = (ground arith, ground arith)

-- What one byte adds and what the others add make up the value.
group_step : (acc w s : ℕ) → acc + w % 128 * 2 ^ s + w / 128 * 2 ^ (s + 7) ≡ acc + w * 2 ^ s
group_step acc w s =
    let next : 2 ^ (s + 7) ≡ 128 * 2 ^ s = simp towards_suc (omega arith) in
    let whole = ap (λ (t : ℕ). t * 2 ^ s) (div-add-mod w 128) in
    omega (arith, whole, ap (λ (t : ℕ). w / 128 * t) next)

module _ (word last : ℕ) where
  last_group :
      (w acc shift : ℕ) (p : List ℕ)
      → w < 128
      → shift ≤ last
      → acc + w * 2 ^ shift < word
      → varint_decode_loop word last (w ∷ p) shift acc ≡ some (acc + w * 2 ^ shift, p)
  unfolding varint_decode_loop
  last_group w acc shift p h l f =
      let low : w % 128 ≡ w = omega arith in
      ground
        (arith, low, let k : w * 2 ^ shift % word ≡ w * 2 ^ shift = mod-eq_of_lt (omega arith) in k)

  inner_group :
      (g acc shift : ℕ) (p : List ℕ)
      → g < 128
      → shift ≤ last
      → acc + g * 2 ^ shift < word
      → varint_decode_loop word last ((g + 128) ∷ p) shift acc
        ≡ varint_decode_loop word last p (shift + 7) (acc + g * 2 ^ shift)
  unfolding varint_decode_loop
  inner_group g acc shift p h l f =
      let low : (g + 128) % 128 ≡ g = omega arith in
      ground
        (arith, low, let k : g * 2 ^ shift % word ≡ g * 2 ^ shift = mod-eq_of_lt (omega arith) in k)

  -- `n` bytes suffice below 128 ^ n, and the decoder adds the value to what it holds.
  decode-varint_loop :
      (n w acc shift : ℕ) (rest : List ℕ)
      → w < 128 ^ suc n
      → shift + 7 * n ≤ last
      → acc + w * 2 ^ shift < word
      → (bs : List ℕ) × (varint_loop (suc n) w ≡ some bs)
        × (varint_decode_loop word last (bs ++ rest) shift acc ≡ some (acc + w * 2 ^ shift, rest))
        × (length bs ≤ suc n)
  unfolding varint_loop
  decode-varint_loop zero w acc shift rest h l f = (
    w ∷ [],
    ground arith,
    last_group w acc shift rest (omega arith) (omega arith) f,
    ground arith,
  )
  decode-varint_loop (suc n) w acc shift rest h l f = elim (Bool-cases (ltb w 128)) [
    | inl small ↦ (
      w ∷ [],
      ground arith,
      last_group w acc shift rest (ltb→lt w 128 small) (omega arith) f,
      omega arith,
    )
    | inr big ↦
        let fits : acc + w % 128 * 2 ^ shift + w / 128 * 2 ^ (shift + 7) < word =
          rw (group_step acc w shift) f in
        let (bs, e, d, len) =
          decode-varint_loop n (w / 128) (acc + w % 128 * 2 ^ shift) (shift + 7) rest (omega arith)
            (omega arith) fits in
        (
          (w % 128 + 128) ∷ bs,
          ground arith,
          inner_group (w % 128) acc shift (bs ++ rest) (omega arith) (omega arith) (omega arith)
              ∙ d
              ∙ ap (λ (t : ℕ). some (t, rest)) (group_step acc w shift),
          omega arith,
        )
  ]

-- The ten bytes that the code reserves hold every uint64, and decoding them gives the number back
-- with whatever follows.
pub varint_decode64-encode64 :
    (v : ℕ) (rest : List ℕ)
    → v < 2 ^ 64
    → (bs : List ℕ) × (varint_encode64 v ≡ some bs)
      × (varint_decode64 (bs ++ rest) ≡ some (v, rest))
      × (length bs ≤ 10)
unfolding varint_encode64 varint_decode64
varint_decode64-encode64 v rest h = ground (arith, decode-varint_loop (2 ^ 64) 63 9 v 0 0 rest)

-- The unrolled encoder of a uint32 writes what the loop writes, at most five bytes, and decoding
-- them gives the number back with whatever follows.
pub varint_decode32-encode32 :
    (v : ℕ) (rest : List ℕ)
    → v < 2 ^ 32
    → (varint_loop 10 v ≡ some (varint_encode32 v))
      × (varint_decode32 (varint_encode32 v ++ rest) ≡ some (v, rest))
      × (length (varint_encode32 v) ≤ 5)
unfolding varint_decode32
varint_decode32-encode32 v rest h =
    ground (arith, varint_encode32-loop v h, decode-varint_loop (2 ^ 32) 28 4 v 0 0 rest)

-- Integers of two, four and eight bytes come back from the bytes written, whatever follows them.
pub fixed_decode-encode :
    (v : ℕ) (rest : List ℕ)
    → (v < 2 ^ 16 → fixed_decode16 (fixed_encode16 v ++ rest) ≡ v)
      × (v < 2 ^ 32 → fixed_decode32 (fixed_encode32 v ++ rest) ≡ v)
      × (v < 2 ^ 64 → fixed_decode64 (fixed_encode64 v ++ rest) ≡ v)
unfolding fixed_decode16 fixed_encode16 fixed_decode32 fixed_encode32 fixed_decode64 fixed_encode64
fixed_decode-encode v rest =
    (of_bytes-bytes_of 2 v rest, of_bytes-bytes_of 4 v rest, of_bytes-bytes_of 8 v rest)
