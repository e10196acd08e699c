-- ===== src/Page/Clean.antt =====
-- CleanUp of src/pinusdb/storage/normal_data_page.cpp.
use pinusdb.Prelude.{
  ℕ, zero, suc, ◌+◌, ◌-◌, ◌*◌, ◌≤◌, ◌<◌, ◌≡◌, inl, inr, ap, ◌∙◌, refl, List, [], ◌∷◌, length,
  get_or, drop, All, arith, ltb, ltb→lt, ltb→ge, Bool-cases,
}
use pinusdb.Coding.{fixed_decode16, fixed_decode32, fixed_decode64}
use pinusdb.Memory.{
  Memory, load_bytes, store_bytes, put16, load-put16, get16-put16, load-store_apart, load-store,
}
use pinusdb.Page.{
  NormalDataPage, page_size, head_size, rec_idx_len, set_counts, set_head, slot, clean_loop,
  clean_up,
}
use pinusdb.Page.Records.{
  IsPage, IsRec, Holds, Ascending, total, IsAt-same, IsAt-kept, Holds-kept, All-get_or, get16-rec,
}
use pinusdb.Page.Bytes.{
  load-set_counts, load-set_head, rec_cnt-set_counts, chip_bytes-set_counts, free_bytes-set_counts,
  page_no-set_head, dev_id-set_head, idx_ts-set_head,
}

total-drop :
    (i : ℕ) (rs : List (List ℕ))
    → i < length rs
    → total (drop i rs) ≡ length (get_or rs i []) + total (drop (suc i) rs)
total-drop i [] h = absurd (omega arith)
total-drop zero (r ∷ rs) h = refl
total-drop (suc i) (r ∷ rs) h = total-drop i rs (omega arith)

total-drop_all : (rs : List (List ℕ)) → total (drop (length rs) rs) ≡ 0
total-drop_all [] = refl
total-drop_all (r ∷ rs) = total-drop_all rs

total-drop_le : (i : ℕ) (rs : List (List ℕ)) → total (drop i rs) ≤ total rs
total-drop_le zero rs = omega arith
total-drop_le (suc i) [] = omega arith
total-drop_le (suc i) (r ∷ rs) = omega (arith, total-drop_le i rs)

-- A turn of the loop: a record goes before the free end.
module _ (t : Memory) (rs : List (List ℕ)) (i tmp_end at : ℕ)
    (ends : at + length (get_or rs i []) ≡ tmp_end)
    (below : head_size + i * rec_idx_len + rec_idx_len ≤ at) (fits : at < page_size)
    (in_page : tmp_end ≤ page_size) where
  abbrev packed : Memory
  packed = put16 (store_bytes t at (get_or rs i [])) (head_size + i * rec_idx_len) at

  Holds-packed : Holds t tmp_end rs i → Holds packed at rs (suc i)
  Holds-packed h j b = elim (Bool-cases (ltb j i)) [
    | inl e ↦
        let before = ltb→lt j i e in
        let slot' : slot packed j ≡ slot t j = ap fixed_decode16 (
          load-put16 at (store_bytes t at (get_or rs i [])) (head_size + i * rec_idx_len)
            (head_size + j * rec_idx_len) 2 (inl (omega arith))
          ∙ load-store_apart t at (get_or rs i []) (head_size + j * rec_idx_len) 2
              (inl (omega arith))) in
        IsAt-same packed at refl slot' (
          IsAt-kept t packed tmp_end at (get_or rs j []) (slot t j) (omega arith)
            (λ a.
              load-put16 at (store_bytes t at (get_or rs i [])) (head_size + i * rec_idx_len)
                (slot t j) (length (get_or rs j [])) (inr (omega arith))
              ∙ load-store_apart t at (get_or rs i []) (slot t j) (length (get_or rs j []))
                  (inr (omega arith)))
            (h j before))
    | inr e ↦
        let same : j ≡ i = omega (arith, ltb→ge j i e) in
        IsAt-same packed at (ap (λ k. get_or rs k []) same)
          (ap (slot packed) same
            ∙ get16-put16 at (store_bytes t at (get_or rs i [])) (head_size + i * rec_idx_len)
                (omega arith))
          (
            omega arith,
            omega arith,
            load-put16 at (store_bytes t at (get_or rs i [])) (head_size + i * rec_idx_len) at
                  (length (get_or rs i [])) (inr (omega arith))
                ∙ load-store t at (get_or rs i []),
          )
  ]

module _ (m : Memory) (lo : ℕ) (rs : List (List ℕ)) (recs : All IsRec rs)
    (held : Holds m lo rs (length rs))
    (fits : head_size + length rs * rec_idx_len + total rs ≤ page_size) where
  -- The records that were read are packed at the end of the page, those that are left will fit.
  clean_loop-Holds :
      (rounds i tmp_end : ℕ) (t : Memory)
      → i + rounds ≡ length rs
      → tmp_end + total rs ≡ page_size + total (drop i rs)
      → Holds t tmp_end rs i
      → ((clean_loop m rounds i tmp_end t).0 + total rs ≡ page_size)
        × Holds
            (clean_loop m rounds i tmp_end t).1
            (clean_loop m rounds i tmp_end t).0
            rs
            (length rs)
  unfolding clean_loop
  clean_loop-Holds zero i tmp_end t e k h =
      let all : i ≡ length rs = omega arith in
      (omega (arith, k, total-drop_all rs, ap (λ j. total (drop j rs)) all), rw (← all) h)
  clean_loop-Holds (suc rounds) i tmp_end t e k h =
      let b : i < length rs = omega arith in
      let is_rec = All-get_or IsRec rs i recs b in
      let stands = (held i b).2 in
      let len = get16-rec m (slot m i) (get_or rs i []) is_rec stands in
      let step = total-drop i rs b in
      let le = total-drop_le i rs in
      let at = tmp_end - length (get_or rs i []) in
      let ends : at + length (get_or rs i []) ≡ tmp_end = omega (arith, k, step) in
      let below : head_size + i * rec_idx_len + rec_idx_len ≤ at = omega (arith, k, step) in
      let at_fits : at < page_size = omega (arith, is_rec.1, k, le) in
      let in_page : tmp_end ≤ page_size = omega (arith, k, le) in
      let next = λ (n : ℕ) (bs : List ℕ).
        clean_loop m rounds (suc i) n
          (put16 (store_bytes t n bs) (head_size + i * rec_idx_len) n) in
      let turn : clean_loop m (suc rounds) i tmp_end t ≡ next at (get_or rs i []) =
        ap (λ n. next (tmp_end - n) (load_bytes m (slot m i) n)) len ∙ ap (next at) stands in
      rw turn (
        clean_loop-Holds rounds (suc i) at (packed t rs i tmp_end at ends below at_fits in_page)
          (omega arith) (omega (arith, k, step))
          (Holds-packed t rs i tmp_end at ends below at_fits in_page h))

-- The free bytes of a page that has just been cleaned up.
abbrev pub clean_free : List (List ℕ) → ℕ
clean_free rs = page_size - head_size - length rs * rec_idx_len - total rs

-- Cleaning up packs the records that the count and the index of a page name, and frees all else.
pub clean_up-IsPage :
    (p : NormalDataPage) (rs : List (List ℕ)) (lo : ℕ)
    → p.rec_cnt ≡ length rs
    → All IsRec rs
    → Ascending rs
    → Holds p.page_data lo rs p.rec_cnt
    → head_size + length rs * rec_idx_len + total rs ≤ page_size
    → IsPage (clean_up p) rs
      × ((clean_up p).free_bytes ≡ clean_free rs)
      × ((clean_up p).chip_bytes ≡ 0)
unfolding clean_up
clean_up-IsPage p rs lo c recs asc held fits =
    let packed = clean_loop p.page_data p.rec_cnt 0 page_size (λ a. 0) in
    let free = packed.0 - head_size - p.rec_cnt * rec_idx_len in
    let m = set_head p.page_no p.dev_id p.idx_ts packed.1 in
    let (sum, done) =
      clean_loop-Holds p.page_data lo rs recs (rw (← c) held) fits p.rec_cnt 0 page_size (λ a. 0)
        (omega (arith, c)) refl (λ i b. absurd (omega arith)) in
    let lo' : head_size + p.rec_cnt * rec_idx_len + free ≡ packed.0 = omega (arith, sum, c) in
    let kept = load-set_counts m in
    let above = λ (q n : ℕ) (a : head_size ≤ q).
      load-set_counts m q n p.rec_cnt 0 free (inr (omega arith))
      ∙ load-set_head packed.1 q n p.page_no p.dev_id p.idx_ts (omega arith) in
    (
      record {
        counted = c;
        room = omega (arith, sum, c);
        holds = rw lo' (
            Holds-kept packed.1 (set_counts p.rec_cnt 0 free m) packed.0 rs p.rec_cnt
              (omega (arith, sum)) above (λ i b. done i (omega (arith, c))));
        recs = recs;
        sorted = asc;
        head = record {
          head_page_no =
              ap fixed_decode32 (kept 4 4 p.rec_cnt 0 free (inl (omega arith)))
              ∙ page_no-set_head packed.1 p.page_no p.dev_id p.idx_ts;
          head_dev_id =
              ap fixed_decode64 (kept 8 8 p.rec_cnt 0 free (inl (omega arith)))
              ∙ dev_id-set_head packed.1 p.page_no p.dev_id p.idx_ts;
          head_idx_ts =
              ap fixed_decode64 (kept 16 8 p.rec_cnt 0 free (inl (omega arith)))
              ∙ idx_ts-set_head packed.1 p.page_no p.dev_id p.idx_ts;
          head_rec_cnt = rec_cnt-set_counts m p.rec_cnt 0 free (omega (arith, c));
          head_chip_bytes = chip_bytes-set_counts m p.rec_cnt 0 free (omega arith);
          head_free_bytes = free_bytes-set_counts m p.rec_cnt 0 free (omega (arith, sum));
        };
      },
      omega (arith, sum, c),
      refl,
    )
