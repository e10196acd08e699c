-- ===== src/Page/Split/Parts.antt =====
-- SplitMost of src/pinusdb/storage/normal_data_page.cpp: the records of both pages.
use pinusdb.Prelude.{
  ℕ, zero, suc, ◌+◌, ◌*◌, ◌^◌, ◌≤◌, ◌<◌, ◌≡◌, ◌⊎◌, inl, inr, ap, sym, ◌∙◌, refl, Bool, List, [],
  ◌∷◌, length, get_or, take, drop, All, length-take, arith,
}
use pinusdb.Prelude.Int.{◌<ℤ◌, to_word}
use pinusdb.Coding.{fixed_decode16, fixed_decode32, fixed_decode64}
use pinusdb.Memory.{put64, load-put64, get64-put64}
use pinusdb.Page.{NormalDataPage, head_size, rec_idx_len, clean_up, get_rec_tstamp}
use pinusdb.Page.Records.{IsPage, IsRec, Ascending, stamp, total, Holds-kept, IsAt-same}
use pinusdb.Page.Bytes.{to_word_lt}
use pinusdb.Page.Clean.{clean_up-IsPage}
use pinusdb.Page.Places.{stamp_of, get_rec_tstamp-stamp}
use pinusdb.Page.Split.{update_idx_ts}

-- The bytes of records and of their offsets.
abbrev pub need : List (List ℕ) → ℕ
need rs = total rs + length rs * rec_idx_len

module _ {ℓ} {A : Type ℓ} where
  pub drop-next :
      (i : ℕ) (xs : List A) (d : A) → i < length xs → drop i xs ≡ get_or xs i d ∷ drop (suc i) xs
  drop-next i [] d h = absurd (omega arith)
  drop-next zero (x ∷ xs) d h = refl
  drop-next (suc i) (x ∷ xs) d h = drop-next i xs d (omega arith)

  All-take {κ} : (P : A → Type κ) (k : ℕ) (xs : List A) → All P xs → All P (take k xs)
  All-take P zero xs a = tt
  All-take P (suc k) [] a = tt
  All-take P (suc k) (x ∷ xs) (h, a) = (h, All-take P k xs a)

  get_or-take : (k i : ℕ) (xs : List A) (d : A) → i < k → get_or (take k xs) i d ≡ get_or xs i d
  get_or-take zero i xs d h = absurd (omega arith)
  get_or-take (suc k) i [] d h = refl
  get_or-take (suc k) zero (x ∷ xs) d h = refl
  get_or-take (suc k) (suc i) (x ∷ xs) d h = get_or-take k i xs d (omega arith)

pub Ascending-drop : (k : ℕ) (rs : List (List ℕ)) → Ascending rs → Ascending (drop k rs)
Ascending-drop zero rs a = a
Ascending-drop (suc k) [] a = a
Ascending-drop (suc k) (r ∷ rs) (h, a) = Ascending-drop k rs a

Ascending-take : (k : ℕ) (rs : List (List ℕ)) → Ascending rs → Ascending (take k rs)
Ascending-take zero rs a = tt
Ascending-take (suc k) [] a = tt
Ascending-take (suc k) (r ∷ rs) (h, a) =
    (All-take (λ s. stamp r <ℤ stamp s) k rs h, Ascending-take k rs a)

pub total-take : (k : ℕ) (rs : List (List ℕ)) → total (take k rs) + total (drop k rs) ≡ total rs
total-take zero rs = omega arith
total-take (suc k) [] = refl
total-take (suc k) (r ∷ rs) = omega (arith, total-take k rs)

-- The flags of the PageHdr say nothing about the records.
pub flagged-IsPage :
    (p : NormalDataPage) (rs : List (List ℕ)) (dirty mem : Bool)
    → IsPage p rs
    → IsPage (record p { is_dirty = dirty; only_mem = mem }) rs
flagged-IsPage p rs dirty mem h = record {
  counted = h.counted;
  room = h.room;
  holds = h.holds;
  recs = h.recs;
  sorted = h.sorted;
  head = record {
    head_page_no = h.head.head_page_no;
    head_dev_id = h.head.head_dev_id;
    head_idx_ts = h.head.head_idx_ts;
    head_rec_cnt = h.head.head_rec_cnt;
    head_chip_bytes = h.head.head_chip_bytes;
    head_free_bytes = h.head.head_free_bytes;
  };
}

pub update_idx_ts-IsPage :
    (p : NormalDataPage) (rs : List (List ℕ))
    → IsPage p rs
    → IsPage (update_idx_ts p) rs × (0 < length rs → (update_idx_ts p).idx_ts ≡ stamp_of rs 0)
unfolding update_idx_ts
update_idx_ts-IsPage p rs h =
    let ts = (get_rec_tstamp 0 p.idx_ts p).1 in
    let w = to_word (2 ^ 64) ts in
    let other = λ (o n : ℕ) (a : (o + n ≤ 16) ⊎ (24 ≤ o)). load-put64 w p.page_data 16 o n a in
    (
      record {
        counted = h.counted;
        room = h.room;
        holds =
            Holds-kept p.page_data (put64 p.page_data 16 w)
              (head_size + p.rec_cnt * rec_idx_len + p.free_bytes) rs p.rec_cnt (omega arith)
              (λ q l a. other q l (inr (omega arith))) h.holds;
        recs = h.recs;
        sorted = h.sorted;
        head = record {
          head_page_no = ap fixed_decode32 (other 4 4 (inl (omega arith))) ∙ h.head.head_page_no;
          head_dev_id = ap fixed_decode64 (other 8 8 (inl (omega arith))) ∙ h.head.head_dev_id;
          head_idx_ts = get64-put64 w p.page_data 16 (to_word_lt (2 ^ 64) ts (omega arith));
          head_rec_cnt = ap fixed_decode16 (other 24 2 (inr (omega arith))) ∙ h.head.head_rec_cnt;
          head_chip_bytes =
              ap fixed_decode16 (other 26 2 (inr (omega arith))) ∙ h.head.head_chip_bytes;
          head_free_bytes =
              ap fixed_decode16 (other 28 2 (inr (omega arith))) ∙ h.head.head_free_bytes;
        };
      },
      λ some_recs. ap (λ g. g.1) (get_rec_tstamp-stamp p rs h 0 p.idx_ts some_recs),
    )

-- The first records of a page, when its count is set back and it is cleaned up.
pub shortened-IsPage :
    (p : NormalDataPage) (rs : List (List ℕ)) (k : ℕ)
    → IsPage p rs
    → k ≤ length rs
    → IsPage (clean_up (record p { rec_cnt = k })) (take k rs)
shortened-IsPage p rs k h le =
    let len = length-take k rs le in
    (clean_up-IsPage (record p { rec_cnt = k }) (take k rs)
      (head_size + p.rec_cnt * rec_idx_len + p.free_bytes) (sym len) (All-take IsRec k rs h.recs)
      (Ascending-take k rs h.sorted)
      (λ i b.
        IsAt-same p.page_data (head_size + p.rec_cnt * rec_idx_len + p.free_bytes)
          (get_or-take k i rs [] b) refl (h.holds i (omega (arith, h.counted))))
      (omega (arith, len, total-take k rs, h.room, h.counted))).0
