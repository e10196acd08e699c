-- ===== src/Page/Records.antt =====
-- The records that a page holds.
use pinusdb.Prelude.{
  ℕ, zero, suc, ◌+◌, ◌*◌, ◌^◌, ◌≤◌, ◌<◌, ◌≡◌, List, [], ◌∷◌, length, get_or, take, drop, All, Bool,
  false, ltb, if◌then◌else◌, ◌&&◌, ◌||◌, not, arith, refl, ap, ◌∙◌, sym,
}
use pinusdb.Prelude.Int.{ℤ, ◌<ℤ◌, ltb_ℤ, of_word, to_word}
use pinusdb.Coding.{fixed_decode16, fixed_decode64}
use pinusdb.Memory.{Memory, load_bytes, get16, get32, get64, load-part}
use pinusdb.Value.{PdbErr, ok, record_exist, page_fill}
use pinusdb.Page.{NormalDataPage, page_size, head_size, rec_idx_len, slot, stamp_at, same_ts}

-- The length and the time stamp that stand in a record.
abbrev pub rec_len_of : List ℕ → ℕ
rec_len_of r = fixed_decode16 (take 2 r)

abbrev pub stamp : List ℕ → ℤ
stamp r = of_word (2 ^ 63) (fixed_decode64 (take 8 (drop 2 r)))

abbrev pub IsRec : List ℕ → Type 0
IsRec r = (rec_len_of r ≡ length r) × (10 ≤ length r)

abbrev pub Ascending : List (List ℕ) → Type 0
Ascending [] = Unit
Ascending (r ∷ rs) = All (λ s. stamp r <ℤ stamp s) rs × Ascending rs

-- The bytes of the records.
abbrev pub total : List (List ℕ) → ℕ
total [] = 0
total (r ∷ rs) = length r + total rs

-- A record stands at an offset, which is not below `lo`.
abbrev pub IsAt : Memory → ℕ → List ℕ → ℕ → Type 0
IsAt m lo r o = (lo ≤ o) × (o + length r ≤ page_size) × (load_bytes m o (length r) ≡ r)

-- The records of a list, the first `n` of them, stand at their offsets.
abbrev pub Holds : Memory → ℕ → List (List ℕ) → ℕ → Type 0
Holds m lo rs n = (i : ℕ) → i < n → IsAt m lo (get_or rs i []) (slot m i)

-- The head says what the members say.
pub record IsHead (p : NormalDataPage) : Type 0 where
  pub head_page_no : get32 p.page_data 4 ≡ to_word (2 ^ 32) p.page_no
  pub head_dev_id : get64 p.page_data 8 ≡ to_word (2 ^ 64) p.dev_id
  pub head_idx_ts : get64 p.page_data 16 ≡ to_word (2 ^ 64) p.idx_ts
  pub head_rec_cnt : get16 p.page_data 24 ≡ p.rec_cnt
  pub head_chip_bytes : get16 p.page_data 26 ≡ p.chip_bytes
  pub head_free_bytes : get16 p.page_data 28 ≡ p.free_bytes

-- The page holds the records, in order of time, and every byte is used, chipped or free.
pub record IsPage (p : NormalDataPage) (rs : List (List ℕ)) : Type 0 where
  pub counted : p.rec_cnt ≡ length rs
  pub room :
      head_size + p.rec_cnt * rec_idx_len + p.free_bytes + p.chip_bytes + total rs ≡ page_size
  pub holds : Holds p.page_data (head_size + p.rec_cnt * rec_idx_len + p.free_bytes) rs p.rec_cnt
  pub recs : All IsRec rs
  pub sorted : Ascending rs
  pub head : IsHead p

-- The records as a map by time: one is put in its place, or in that of the record of its time.
unfoldable pub put_rec : List ℕ → List (List ℕ) → List (List ℕ)
put_rec r [] = r ∷ []
put_rec r (s ∷ rs) =
    let rest = put_rec r rs in
    if ltb_ℤ (stamp s) (stamp r)
    then s ∷ rest
    else if same_ts (stamp s) (stamp r)
    then r ∷ rs
    else r ∷ s ∷ rs

unfoldable pub has_stamp : ℤ → List (List ℕ) → Bool
has_stamp ts [] = false
has_stamp ts (s ∷ rs) = same_ts (stamp s) ts || has_stamp ts rs

-- What an insertion is to do: it fails if the record and its offset do not fit beside the others.
unfoldable pub insert_spec : List ℕ → Bool → List (List ℕ) → PdbErr × List (List ℕ)
unfolding put_rec has_stamp
insert_spec r replace rs =
    if ltb page_size (head_size + length rs * rec_idx_len + total rs + (length r + rec_idx_len))
    then (page_fill, rs)
    else if has_stamp (stamp r) rs && not replace
    then (record_exist, rs)
    else (ok, put_rec r rs)

pub All-get_or :
    (P : List ℕ → Type 0) (rs : List (List ℕ)) (i : ℕ)
    → All P rs
    → i < length rs
    → P (get_or rs i [])
All-get_or P [] i a h = absurd (omega arith)
All-get_or P (r ∷ rs) zero (a, b) h = a
All-get_or P (r ∷ rs) (suc i) (a, b) h = All-get_or P rs i b (omega arith)

-- What the bytes of a record say is read at its offset.
module _ (m : Memory) (off : ℕ) (r : List ℕ) (k : IsRec r)
    (e : load_bytes m off (length r) ≡ r) where
  pub get16-rec : get16 m off ≡ length r
  get16-rec =
      let z : off + 0 ≡ off = omega arith in
      ap fixed_decode16 (
        ap (λ o. load_bytes m o 2) (sym z)
        ∙ sym (load-part m off (length r) 0 2 (omega (arith, k.1)))
        ∙ ap (take 2) e)
      ∙ k.0

  pub stamp_at-rec : stamp_at m off ≡ stamp r
  stamp_at-rec =
      ap (λ bs. of_word (2 ^ 63) (fixed_decode64 bs))
        (sym (load-part m off (length r) 2 8 (omega (arith, k.1)))
          ∙ ap (λ bs. take 8 (drop 2 bs)) e)

pub IsAt-same :
    (m : Memory) (lo : ℕ) {r s : List ℕ} {o o' : ℕ}
    → r ≡ s
    → o ≡ o'
    → IsAt m lo s o'
    → IsAt m lo r o
IsAt-same m lo e f h = rw (e, f) h

-- A record whose bytes stay where they are.
pub IsAt-kept :
    (m m' : Memory) (lo lo' : ℕ) (r : List ℕ) (o : ℕ)
    → lo' ≤ lo
    → (lo ≤ o → load_bytes m' o (length r) ≡ load_bytes m o (length r))
    → IsAt m lo r o
    → IsAt m' lo' r o
IsAt-kept m m' lo lo' r o h k (a, b, c) = (omega arith, b, k a ∙ c)

-- Records stay where nothing but the head is written.
pub Holds-kept :
    (m m' : Memory) (lo : ℕ) (rs : List (List ℕ)) (n : ℕ)
    → head_size ≤ lo
    → ((q l : ℕ) → head_size ≤ q → load_bytes m' q l ≡ load_bytes m q l)
    → Holds m lo rs n
    → Holds m' lo rs n
Holds-kept m m' lo rs n h k held i b =
    IsAt-same m' lo refl (ap fixed_decode16 (k (head_size + i * rec_idx_len) 2 (omega arith))) (
      IsAt-kept m m' lo lo (get_or rs i []) (slot m i) (omega arith)
        (λ a. k (slot m i) (length (get_or rs i [])) (omega arith)) (held i b))
