-- ===== src/Memory.antt =====
-- A buffer of bytes that is read and written at offsets, as the code does with `memcpy`, `memmove`
-- and the fixed integers of src/pinusdb/util/coding.h. A buffer is the function from the offsets to
-- the bytes.
use pinusdb.Prelude.{
  ℕ, zero, suc, ◌+◌, ◌-◌, ◌^◌, ◌≤◌, ◌<◌, ◌≡◌, ◌⊎◌, refl, ap, ◌∙◌, ◌&&◌, ltb, leb, List, [], ◌∷◌,
  length, get_or, take, drop, if◌then◌else◌, arith,
}
use pinusdb.Coding.{
  fixed_encode16, fixed_encode32, fixed_encode64, fixed_decode16, fixed_decode32, fixed_decode64,
  bytes_of,
}
use pinusdb.Coding.RoundTrip.{fixed_decode-encode}

abbrev pub Memory : Type 0
Memory = ℕ → ℕ

-- The bytes from an offset on.
abbrev pub load_bytes : Memory → ℕ → ℕ → List ℕ
load_bytes m o zero = []
load_bytes m o (suc n) = m o ∷ load_bytes m (suc o) n

abbrev pub store_bytes : Memory → ℕ → List ℕ → Memory
store_bytes m o bs a = if leb o a && ltb a (o + length bs) then get_or bs (a - o) 0 else m a

abbrev pub get16 : Memory → ℕ → ℕ
get16 m o = fixed_decode16 (load_bytes m o 2)

abbrev pub get32 : Memory → ℕ → ℕ
get32 m o = fixed_decode32 (load_bytes m o 4)

abbrev pub get64 : Memory → ℕ → ℕ
get64 m o = fixed_decode64 (load_bytes m o 8)

abbrev pub put16 : Memory → ℕ → ℕ → Memory
put16 m o v = store_bytes m o (fixed_encode16 v)

abbrev pub put32 : Memory → ℕ → ℕ → Memory
put32 m o v = store_bytes m o (fixed_encode32 v)

abbrev pub put64 : Memory → ℕ → ℕ → Memory
put64 m o v = store_bytes m o (fixed_encode64 v)

pub length-load_bytes : (m : Memory) (o n : ℕ) → length (load_bytes m o n) ≡ n
length-load_bytes m o zero = refl
length-load_bytes m o (suc n) = ap suc (length-load_bytes m (suc o) n)

pub get_or-load_bytes : (m : Memory) (o n i : ℕ) → i < n → get_or (load_bytes m o n) i 0 ≡ m (o + i)
get_or-load_bytes m o zero i h = absurd (omega arith)
get_or-load_bytes m o (suc n) zero h = let e : o ≡ o + 0 = omega arith in ap m e
get_or-load_bytes m o (suc n) (suc i) h =
    let e : suc o + i ≡ o + suc i = omega arith in
    get_or-load_bytes m (suc o) n i (omega arith) ∙ ap m e

-- Equal bytes are read alike.
pub load_bytes_ext :
    (m k : Memory) (o p n : ℕ)
    → ((i : ℕ) → i < n → m (o + i) ≡ k (p + i))
    → load_bytes m o n ≡ load_bytes k p n
load_bytes_ext m k o p zero h = refl
load_bytes_ext m k o p (suc n) h =
    let head : m o ≡ k p =
      let e : o ≡ o + 0 = omega arith in
      let f : p + 0 ≡ p = omega arith in ap m e ∙ h 0 (omega arith) ∙ ap k f in
    let tail : load_bytes m (suc o) n ≡ load_bytes k (suc p) n =
      load_bytes_ext m k (suc o) (suc p) n λ i l.
        let e : suc o + i ≡ o + suc i = omega arith in
        let f : p + suc i ≡ suc p + i = omega arith in ap m e ∙ h (suc i) (omega arith) ∙ ap k f in
    cc (head, tail)

pub store_in :
    (m : Memory) (o : ℕ) (bs : List ℕ) (a : ℕ)
    → o ≤ a
    → a < o + length bs
    → store_bytes m o bs a ≡ get_or bs (a - o) 0
store_in m o bs a h k = ground arith

pub store_out :
    (m : Memory) (o : ℕ) (bs : List ℕ) (a : ℕ)
    → (a < o) ⊎ (o + length bs ≤ a)
    → store_bytes m o bs a ≡ m a
store_out m o bs a h = ground arith

-- Bytes apart from those written stay.
pub load-store_apart :
    (m : Memory) (o : ℕ) (bs : List ℕ) (p n : ℕ)
    → (p + n ≤ o) ⊎ (o + length bs ≤ p)
    → load_bytes (store_bytes m o bs) p n ≡ load_bytes m p n
load-store_apart m o bs p n h =
    load_bytes_ext (store_bytes m o bs) m p p n λ i l. store_out m o bs (p + i) (ground arith)

load_list :
    (m : Memory) (o : ℕ) (bs : List ℕ)
    → ((i : ℕ) → i < length bs → m (o + i) ≡ get_or bs i 0)
    → load_bytes m o (length bs) ≡ bs
load_list m o [] h = refl
load_list m o (b ∷ bs) h =
    let head : m o ≡ b = let e : o ≡ o + 0 = omega arith in ap m e ∙ h 0 (omega arith) in
    let tail : load_bytes m (suc o) (length bs) ≡ bs =
      load_list m (suc o) bs
        λ i l. let e : suc o + i ≡ o + suc i = omega arith in ap m e ∙ h (suc i) (omega arith) in
    cc (head, tail)

-- The bytes written are read back.
pub load-store :
    (m : Memory) (o : ℕ) (bs : List ℕ) → load_bytes (store_bytes m o bs) o (length bs) ≡ bs
load-store m o bs = load_list (store_bytes m o bs) o bs λ i l.
    let e : o + i - o ≡ i = omega arith in
    store_in m o bs (o + i) (omega arith) (omega arith) ∙ ap (λ j. get_or bs j 0) e

-- A part of what is read.
pub load-part :
    (m : Memory) (o n k l : ℕ)
    → k + l ≤ n
    → take l (drop k (load_bytes m o n)) ≡ load_bytes m (o + k) l
load-part m o n zero zero h = refl
load-part m o zero zero (suc l) h = absurd (omega arith)
load-part m o (suc n) zero (suc l) h =
    let tail : take l (load_bytes m (suc o) n) ≡ load_bytes m (suc o + 0) l =
      load-part m (suc o) n zero l (omega arith) in
    let e : o ≡ o + 0 = omega arith in
    let f : suc o + 0 ≡ suc (o + 0) = omega arith in cc (tail, e, f)
load-part m o zero (suc k) l h = absurd (omega arith)
load-part m o (suc n) (suc k) l h =
    let e : suc o + k ≡ o + suc k = omega arith in
    load-part m (suc o) n k l (omega arith) ∙ ap (λ p. load_bytes m p l) e

-- Bytes that were moved.
pub load-move :
    (m : Memory) (dst src len p n : ℕ)
    → dst ≤ p
    → p + n ≤ dst + len
    → load_bytes (store_bytes m dst (load_bytes m src len)) p n ≡ load_bytes m (src + (p - dst)) n
load-move m dst src len p n h k =
    let l = length-load_bytes m src len in
    load_bytes_ext (store_bytes m dst (load_bytes m src len)) m p (src + (p - dst)) n λ i b.
      let e : src + (p + i - dst) ≡ src + (p - dst) + i = omega arith in
      store_in m dst (load_bytes m src len) (p + i) (omega arith) (omega (arith, l))
      ∙ get_or-load_bytes m src len (p + i - dst) (omega arith)
      ∙ ap m e

module _ (v : ℕ) where
  pub length-fixed_encode16 : length (fixed_encode16 v) ≡ 2
  unfolding fixed_encode16 bytes_of
  length-fixed_encode16 = refl

  pub length-fixed_encode32 : length (fixed_encode32 v) ≡ 4
  unfolding fixed_encode32 bytes_of
  length-fixed_encode32 = refl

  pub length-fixed_encode64 : length (fixed_encode64 v) ≡ 8
  unfolding fixed_encode64 bytes_of
  length-fixed_encode64 = refl

  -- A number that fits is read back.
  pub get16-put16 : (m : Memory) (o : ℕ) → v < 2 ^ 16 → get16 (put16 m o v) o ≡ v
  unfolding fixed_encode16 bytes_of
  get16-put16 m o h =
      ap fixed_decode16 (load-store m o (fixed_encode16 v)) ∙ (fixed_decode-encode v []).0 h

  pub get32-put32 : (m : Memory) (o : ℕ) → v < 2 ^ 32 → get32 (put32 m o v) o ≡ v
  unfolding fixed_encode32 bytes_of
  get32-put32 m o h =
      ap fixed_decode32 (load-store m o (fixed_encode32 v)) ∙ (fixed_decode-encode v []).1 h

  pub get64-put64 : (m : Memory) (o : ℕ) → v < 2 ^ 64 → get64 (put64 m o v) o ≡ v
  unfolding fixed_encode64 bytes_of
  get64-put64 m o h =
      ap fixed_decode64 (load-store m o (fixed_encode64 v)) ∙ (fixed_decode-encode v []).2 h

  -- Numbers leave the bytes apart from them.
  pub load-put16 :
      (m : Memory) (o p n : ℕ)
      → (p + n ≤ o) ⊎ (o + 2 ≤ p)
      → load_bytes (put16 m o v) p n ≡ load_bytes m p n
  load-put16 m o p n h =
      load-store_apart m o (fixed_encode16 v) p n (ground (arith, length-fixed_encode16))

  pub load-put32 :
      (m : Memory) (o p n : ℕ)
      → (p + n ≤ o) ⊎ (o + 4 ≤ p)
      → load_bytes (put32 m o v) p n ≡ load_bytes m p n
  load-put32 m o p n h =
      load-store_apart m o (fixed_encode32 v) p n (ground (arith, length-fixed_encode32))

  pub load-put64 :
      (m : Memory) (o p n : ℕ)
      → (p + n ≤ o) ⊎ (o + 8 ≤ p)
      → load_bytes (put64 m o v) p n ≡ load_bytes m p n
  load-put64 m o p n h =
      load-store_apart m o (fixed_encode64 v) p n (ground (arith, length-fixed_encode64))
