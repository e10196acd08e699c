-- ===== src/Part/Fits.antt =====
-- What InsertRec and SplitMost of src/pinusdb/storage/normal_data_page.cpp leave for the partition:
-- records that are not too long go into the pages that a split leaves.
use pinusdb.Prelude.{
  ℕ, ◌+◌, ◌-◌, ◌*◌, ◌≤◌, ◌<◌, ◌≡◌, ◌≢◌, ◌⊎◌, ap, ◌∙◌, refl, Bool, true, false, ◌&&◌, some, List,
  length, arith, ltb, leb, ge→ltb, lt→ltb,
}
use pinusdb.Prelude.Int.{ℤ, pos}
use pinusdb.Value.{ok, page_fill}
use pinusdb.Page.{
  NormalDataPage, page_size, head_size, rec_idx_len, insert_rec, get_last_tstamp, get_rec_tstamp,
}
use pinusdb.Page.Records.{IsPage, IsRec, stamp, total, put_rec, has_stamp, insert_spec}
use pinusdb.Page.Places.{stamp_of, get_rec_tstamp-stamp}
use pinusdb.Page.Insert.{insert_rec-IsDone}
use pinusdb.Page.Split.Parts.{need}

module _ (rec : List ℕ) (k : IsRec rec) (p : NormalDataPage) (rs : List (List ℕ))
    (h : IsPage p rs) where
  abbrev Room : Type 0
  Room = head_size + need rs + (length rec + rec_idx_len) ≤ page_size

  and_false : (b : Bool) → (b && false) ≡ false
  and_false true = refl
  and_false false = refl

  -- A record that fits replaces that of its time or goes to its place.
  pub insert_rec-fits :
      (0 < length rs) ⊎ (stamp rec ≢ pos 0)
      → Room
      → (q : NormalDataPage) × (insert_rec (stamp rec) rec true p ≡ some (ok, q))
        × IsPage q (put_rec rec rs)
  unfolding insert_spec
  insert_rec-fits s room =
      let fits : ltb page_size
            (head_size + length rs * rec_idx_len + total rs + (length rec + rec_idx_len))
          ≡ false =
        ge→ltb _ _ (omega arith) in
      let done = insert_rec-IsDone p rs rec true h k s in
      (rw (fits, and_false (has_stamp (stamp rec) rs)) at done)

  pub insert_rec-full :
      (0 < length rs) ⊎ (stamp rec ≢ pos 0)
      → page_size < head_size + need rs + (length rec + rec_idx_len)
      → (q : NormalDataPage) × (insert_rec (stamp rec) rec true p ≡ some (page_fill, q))
        × IsPage q rs
  unfolding insert_spec
  insert_rec-full s room =
      let full : ltb page_size
            (head_size + length rs * rec_idx_len + total rs + (length rec + rec_idx_len))
          ≡ true =
        lt→ltb _ _ (omega arith) in
      let done = insert_rec-IsDone p rs rec true h k s in (rw full at done)

get_last_tstamp-get_rec_tstamp :
    (p : NormalDataPage) (t : ℤ)
    → 0 < p.rec_cnt
    → get_last_tstamp t p ≡ get_rec_tstamp (p.rec_cnt - 1) t p
unfolding get_last_tstamp get_rec_tstamp
get_last_tstamp-get_rec_tstamp p t b =
    let e : leb p.rec_cnt 0 ≡ false = ground arith in
    let f : leb p.rec_cnt (p.rec_cnt - 1) ≡ false = ground arith in rw (e, f) refl

pub get_last_tstamp-stamp :
    (p : NormalDataPage) (rs : List (List ℕ)) (t : ℤ)
    → IsPage p rs
    → 0 < length rs
    → get_last_tstamp t p ≡ (ok, stamp_of rs (length rs - 1))
get_last_tstamp-stamp p rs t h b =
    let c = h.counted in
    get_last_tstamp-get_rec_tstamp p t (omega (arith, c))
    ∙ get_rec_tstamp-stamp p rs h (p.rec_cnt - 1) t (omega (arith, c))
    ∙ ap (λ (n : ℕ). (ok, stamp_of rs (n - 1))) c
