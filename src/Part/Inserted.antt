-- ===== src/Part/Inserted.antt =====
-- The branch of InsertRec of src/pinusdb/storage/normal_data_part.cpp for a device with a page: it
-- always takes in a record that is not too long.
use mathlib.Core.Path.{subst}
use pinusdb.Prelude.{
  All, ℕ, ◌+◌, ◌-◌, ◌≤◌, ◌<◌, ◌≡◌, ◌≢◌, ◌⊎◌, inl, inr, ap, sym, ◌∙◌, refl, Bool, true, List, [],
  ◌∷◌, ◌++◌, length, take, drop, take_all, arith, ltb, ltb→lt, ltb→ge, Bool-cases, if◌then◌else◌,
  if_cases,
}
use pinusdb.Prelude.Int.{ℤ, pos, ltb_ℤ, ◌<ℤ◌, ◌≤ℤ◌}
use pinusdb.Value.{ok}
use pinusdb.Page.{NormalDataPage, page_size, head_size, rec_idx_len, init, insert_rec}
use pinusdb.Page.Records.{IsPage, IsRec, stamp, put_rec}
use pinusdb.Page.Init.{init-IsPage}
use pinusdb.Page.Reload.{insert_rec-Keeps}
use pinusdb.Page.Places.{stamp_of, Ascending_lt}
use pinusdb.Page.Split.Parts.{need, flagged-IsPage}
use pinusdb.Page.Split.Moved.{split_most-parts}
use pinusdb.Part.{append_page, split_page, grow_page, fill_page, insert_page, insert_split}
use pinusdb.Part.Lists.{put_rec-append_behind, append_nil, take-All_before}
use pinusdb.Part.Fits.{insert_rec-fits, insert_rec-full, get_last_tstamp-stamp}
use pinusdb.Part.Sizes.{max_len, Short, splits, room_old, room_new}
use pinusdb.Part.Grown.{IsDone, put_rec_nil, behind-IsDone, before-IsDone}

module _ (rs : List (List ℕ)) (rec : List ℕ) (is_rec : IsRec rec) (short : Short rs)
    (short_rec : length rec ≤ max_len) (some_recs : 0 < length rs)
    (some_time : stamp rec ≢ pos 0) where
  abbrev Full : Type 0
  Full = page_size < head_size + need rs + (length rec + rec_idx_len)

  halves-IsDone :
      (p p' q' : NormalDataPage) (k bytes : ℕ)
      → IsPage p rs
      → Full
      → 24576 ≤ bytes
      → bytes ≤ 32768
      → 0 < k
      → k ≤ length rs
      → IsPage p' (take k rs)
      → IsPage q' (drop k rs)
      → need (drop k rs) ≤ bytes
      → (k ≡ 1) ⊎ (bytes < need (drop (k - 1) rs))
      → (k < length rs → q'.idx_ts ≡ stamp_of rs k)
      → IsDone rs rec (insert_split (stamp rec) rec p (ok, p', q'))
  halves-IsDone p p' q' k bytes h full low high some_left le hp hq small most first =
      let held : head_size + need rs ≤ page_size = omega (arith, h.room, h.counted) in
      let b = splits rs rec k bytes short short_rec held full some_left le small most low high in
      let old =
        room_old rs rec k bytes short short_rec held full some_left le small most low high in
      let new =
        room_new rs rec k bytes short short_rec held full some_left le small most low high in
      let sorted = λ (i j : ℕ) (l : i < j) (c : j < length rs). Ascending_lt rs i j h.sorted l c in
      let at = first b in
      if_cases (IsDone rs rec) (ltb_ℤ q'.idx_ts (stamp rec))
        (λ c.
          let later : stamp_of rs k <ℤ stamp rec = subst (λ t. t <ℤ stamp rec) at (ltb→lt _ _ c) in
          behind-IsDone rs rec is_rec p' q' k b hp hq at sorted new later)
        (λ c.
          before-IsDone rs rec is_rec p' q' k b hp hq at sorted some_left old
            (subst (λ t. stamp rec ≤ℤ t) at (ltb→ge _ _ c)))

  split_page-IsDone :
      (is_last : Bool) (p q : NormalDataPage)
      → IsPage p rs
      → IsPage q []
      → q.chip_bytes ≡ 0
      → Full
      → IsDone rs rec (split_page is_last (stamp rec) rec p q)
  unfolding split_page
  split_page-IsDone is_last p q h hq chip full =
      let bytes : ℕ = if is_last then 24576 else 32768 in
      let low : 24576 ≤ bytes = ground arith in
      let high : bytes ≤ 32768 = ground arith in
      let (k, p', q', e, some_left, le, hp, hq', small, most, first) =
        split_most-parts p q rs bytes h hq chip some_recs (omega (arith, high)) in
      subst (λ x. IsDone rs rec (insert_split (stamp rec) rec p x)) (sym e)
        (halves-IsDone p p' q' k bytes h full low high some_left le hp hq' small most first)

  append_page-IsDone :
      (p q : NormalDataPage)
      → IsPage p rs
      → IsPage q []
      → q.idx_ts ≡ stamp rec
      → stamp_of rs (length rs - 1) <ℤ stamp rec
      → IsDone rs rec (append_page (insert_rec (stamp rec) rec true q) p)
  append_page-IsDone p q h hq at l =
      let (r, e, hr) = insert_rec-fits rec is_rec q [] hq (inr some_time) (omega arith) in
      let last : length rs - 1 < length rs = omega arith in
      let all : All (λ s. stamp s <ℤ stamp rec) rs =
        subst (All (λ s. stamp s <ℤ stamp rec)) (take_all (length rs) rs (omega arith))
          (take-All_before (length rs) rs (stamp rec) (earlier h l)) in
      let whole : rs ++ (rec ∷ []) ≡ put_rec rec rs =
        ap (λ t. rs ++ t) (sym (put_rec_nil rec))
        ∙ sym (put_rec-append_behind rec rs [] all)
        ∙ ap (put_rec rec) (append_nil rs) in
      let alone = subst (IsPage r) (put_rec_nil rec) hr in
      rw e (
        _,
        refl,
        refl,
        put_rec rec rs,
        (
          rs,
          rec,
          [],
          h,
          flagged-IsPage r (rec ∷ []) r.is_dirty true alone,
          whole,
          (insert_rec-Keeps (stamp rec) rec true q r ok e).2 ∙ at,
        ),
        inl refl,
      )
    where
      earlier :
          IsPage p rs
          → stamp_of rs (length rs - 1) <ℤ stamp rec
          → (i : ℕ) → i < length rs
          → i < length rs
          → stamp_of rs i <ℤ stamp rec
      earlier h l i b c = elim (Bool-cases (ltb i (length rs - 1))) [
        | inl f ↦
            let s = Ascending_lt rs i (length rs - 1) h.sorted (ltb→lt _ _ f) (omega arith) in
            omega arith
        | inr f ↦
            let same : i ≡ length rs - 1 = omega (arith, ltb→ge _ _ f) in
            subst (λ j. stamp_of rs j <ℤ stamp rec) (sym same) l
      ]

  new-IsPage :
      (page_no dev_id : ℤ)
      → IsPage (init page_no dev_id (stamp rec)) []
        × ((init page_no dev_id (stamp rec)).chip_bytes ≡ 0)
        × ((init page_no dev_id (stamp rec)).idx_ts ≡ stamp rec)
  unfolding init
  new-IsPage page_no dev_id = (init-IsPage page_no dev_id (stamp rec), refl, refl)

  grow_page-IsDone :
      (page_no dev_id : ℤ) (is_last : Bool) (p : NormalDataPage)
      → IsPage p rs
      → Full
      → IsDone rs rec (grow_page (ok, page_no) dev_id is_last (stamp rec) rec p)
  unfolding grow_page
  grow_page-IsDone page_no dev_id is_last p h full =
      let (hq, chip, at) = new-IsPage page_no dev_id in
      rw (get_last_tstamp-stamp p rs (pos 0) h some_recs) (
        if_cases (IsDone rs rec) (ltb_ℤ (stamp_of rs (length rs - 1)) (stamp rec))
          (λ c. append_page-IsDone p (init page_no dev_id (stamp rec)) h hq at (ltb→lt _ _ c))
          (λ c. split_page-IsDone is_last p (init page_no dev_id (stamp rec)) h hq chip full))

-- A device's page that holds records in order takes in any record that is not too long and not of
-- the time 0, if a page can be allocated: into the page, or into a new page or one of two halves
-- of the page. The records of the page and then of the new page are those that a map by time
-- holds, or the record stands before one of its time that begins the new page; and the index gets
-- the time of the first record of the new page.
pub insert_page-IsDone :
    (rs : List (List ℕ)) (rec : List ℕ) (page_no dev_id : ℤ) (is_last : Bool) (p : NormalDataPage)
    → IsPage p rs
    → IsRec rec
    → Short rs
    → length rec ≤ max_len
    → 0 < length rs
    → stamp rec ≢ pos 0
    → IsDone rs rec (insert_page (ok, page_no) dev_id is_last (stamp rec) rec p)
unfolding insert_page
insert_page-IsDone rs rec page_no dev_id is_last p h is_rec short short_rec some_recs some_time =
    elim (Bool-cases (ltb page_size (head_size + need rs + (length rec + rec_idx_len)))) [
      | inl e ↦
          let full = ltb→lt _ _ e in
          let (q, f, hq) = insert_rec-full rec is_rec p rs h (inl some_recs) full in
          subst (λ o. IsDone rs rec (fill_page (ok, page_no) dev_id is_last (stamp rec) rec o))
            (sym f)
            (grow_page-IsDone rs rec is_rec short short_rec some_recs some_time page_no dev_id
              is_last q hq full)
      | inr e ↦
          let (q, f, hq) = insert_rec-fits rec is_rec p rs h (inl some_recs) (ltb→ge _ _ e) in
          subst (λ o. IsDone rs rec (fill_page (ok, page_no) dev_id is_last (stamp rec) rec o))
            (sym f) (_, refl, refl, put_rec rec rs, hq, inl refl)
    ]
