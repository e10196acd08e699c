-- ===== src/Page/Split.antt =====
-- SplitMost, InsertForPos and UpdateIdxTs of src/pinusdb/storage/normal_data_page.cpp.
pub mod Parts
pub mod Moved
use pinusdb.Prelude.{ℕ, zero, suc, ◌+◌, ◌-◌, ◌*◌, ◌^◌, true, List, length, ltb, if◌then◌else◌}
use pinusdb.Prelude.Int.{to_word}
use pinusdb.Memory.{load_bytes, get16, put64}
use pinusdb.Value.{PdbErr, ok, page_fill, on_ok}
use pinusdb.Page.{NormalDataPage, rec_idx_len, slot, push_rec, rec_offset, get_rec_tstamp, clean_up}

unfoldable pub insert_for_pos : ℕ → List ℕ → NormalDataPage → PdbErr × NormalDataPage
insert_for_pos idx rec p =
    if ltb p.free_bytes (length rec + rec_idx_len)
    then (page_fill, p)
    else (ok, push_rec idx (rec_offset rec p) rec p)

unfoldable pub update_idx_ts : NormalDataPage → NormalDataPage
update_idx_ts p =
    let ts = (get_rec_tstamp 0 p.idx_ts p).1 in
    record p { idx_ts = ts; page_data = put64 p.page_data 16 (to_word (2 ^ 64) ts) }

-- The loop over the records from the last one on: `idx` where it ends, and the new page.
unfoldable pub split_loop :
    NormalDataPage → ℕ → ℕ → ℕ → NormalDataPage → PdbErr × ℕ × NormalDataPage
unfolding insert_for_pos
split_loop p bytes trans zero q = (ok, 0, q)
split_loop p bytes trans (suc idx) q =
    let bg = slot p.page_data (suc idx) in
    let rec_len = get16 p.page_data bg in
    let put = insert_for_pos 0 (load_bytes p.page_data bg rec_len) q in
    let rest = split_loop p bytes (trans + (rec_len + rec_idx_len)) idx put.1 in
    if ltb bytes (trans + rec_len + rec_idx_len)
    then (ok, suc idx, q)
    else on_ok put.0 rest (put.0, suc idx, put.1)

-- SplitMost of a page that is not empty: the old page and the new one.
unfoldable pub split_most :
    ℕ → NormalDataPage → NormalDataPage → PdbErr × NormalDataPage × NormalDataPage
unfolding split_loop clean_up update_idx_ts
split_most bytes p q =
    let moved = split_loop p bytes 0 (p.rec_cnt - 1) q in
    let kept = record (clean_up (record p { rec_cnt = moved.1 + 1 })) { is_dirty = true } in
    on_ok moved.0 (ok, kept, update_idx_ts (record (moved.2) { only_mem = true }))
      (moved.0, p, moved.2)
