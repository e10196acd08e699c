-- ===== src/Page/Init.antt =====
-- Init and Load of src/pinusdb/storage/normal_data_page.cpp, and a page without records.
use pinusdb.Prelude.{
  ℕ, ◌+◌, ◌-◌, ◌*◌, ◌^◌, ◌≤◌, ◌≡◌, inl, inr, ap, ◌∙◌, refl, Bool, true, false, not, some, List, [],
  length, leb, if◌then◌else◌, arith, ge→ltb,
}
use pinusdb.Prelude.Int.{ℤ, pos, negsuc, of_word, to_word, ◌<ℤ◌}
use pinusdb.Coding.{fixed_decode16, fixed_decode32, fixed_decode64}
use pinusdb.StringTool.{crc32}
use pinusdb.Memory.{put32, load-put32, load-store_apart, store_bytes, load_bytes}
use pinusdb.Value.{invalid_param, record_exist}
use pinusdb.Page.{
  update_crc, NormalDataPage, init, load, head_size, page_size, rec_idx_len, set_counts, insert_rec,
  insert_in, find_place, get_rec_data, rec_offset, swap_rec,
}
use pinusdb.Page.Records.{IsPage, Holds-kept, stamp}
use pinusdb.Page.Bytes.{
  load-set_head, rec_cnt-set_counts, chip_bytes-set_counts, free_bytes-set_counts, page_no-set_head,
  dev_id-set_head, idx_ts-set_head,
}

-- A new page holds nothing.
pub init-IsPage : (page_no dev_id idx_ts : ℤ) → IsPage (init page_no dev_id idx_ts) []
unfolding init
init-IsPage page_no dev_id idx_ts =
    let free = page_size - head_size in
    let m = set_counts 0 0 free (λ a. 0) in
    let kept =
      λ (o : ℕ) (l : 24 ≤ o). ap fixed_decode16 (load-set_head m o 2 page_no dev_id idx_ts l) in
    record {
      counted = refl;
      room = refl;
      holds = λ i b. absurd (omega arith);
      recs = tt;
      sorted = tt;
      head = record {
        head_page_no = page_no-set_head m page_no dev_id idx_ts;
        head_dev_id = dev_id-set_head m page_no dev_id idx_ts;
        head_idx_ts = idx_ts-set_head m page_no dev_id idx_ts;
        head_rec_cnt = kept 24 (omega arith) ∙ rec_cnt-set_counts (λ a. 0) 0 0 free (omega arith);
        head_chip_bytes =
            kept 26 (omega arith) ∙ chip_bytes-set_counts (λ a. 0) 0 0 free (omega arith);
        head_free_bytes =
            kept 28 (omega arith) ∙ free_bytes-set_counts (λ a. 0) 0 0 free (omega arith);
      };
    }

-- The checksum is no record and no member.
pub update_crc-IsPage :
    (p : NormalDataPage) (rs : List (List ℕ)) → IsPage p rs → IsPage (update_crc p) rs
unfolding update_crc
update_crc-IsPage p rs h =
    let crc = crc32 (load_bytes p.page_data 4 (page_size - 4)) in
    let kept = λ (o n : ℕ) (a : 4 ≤ o). load-put32 crc p.page_data 0 o n (inr a) in
    record {
      counted = h.counted;
      room = h.room;
      holds =
          Holds-kept p.page_data (put32 p.page_data 0 crc)
            (head_size + p.rec_cnt * rec_idx_len + p.free_bytes) rs p.rec_cnt (omega arith)
            (λ q l a. kept q l (omega arith)) h.holds;
      recs = h.recs;
      sorted = h.sorted;
      head = record {
        head_page_no = ap fixed_decode32 (kept 4 4 (omega arith)) ∙ h.head.head_page_no;
        head_dev_id = ap fixed_decode64 (kept 8 8 (omega arith)) ∙ h.head.head_dev_id;
        head_idx_ts = ap fixed_decode64 (kept 16 8 (omega arith)) ∙ h.head.head_idx_ts;
        head_rec_cnt = ap fixed_decode16 (kept 24 2 (omega arith)) ∙ h.head.head_rec_cnt;
        head_chip_bytes = ap fixed_decode16 (kept 26 2 (omega arith)) ∙ h.head.head_chip_bytes;
        head_free_bytes = ap fixed_decode16 (kept 28 2 (omega arith)) ∙ h.head.head_free_bytes;
      };
    }

-- A signed number of the width.
abbrev pub InRange : ℕ → ℤ → Type 0
InRange h a = (negsuc h <ℤ a) × (a <ℤ pos h)

of_word64-to_word : (a : ℤ) → InRange (2 ^ 63) a → of_word (2 ^ 63) (to_word (2 ^ 64) a) ≡ a
unfolding of_word to_word
of_word64-to_word a r = ground arith

of_word32-to_word : (a : ℤ) → InRange (2 ^ 31) a → of_word (2 ^ 31) (to_word (2 ^ 32) a) ≡ a
unfolding of_word to_word
of_word32-to_word a r = ground arith

-- Loading the bytes of a page of records gives the members back, those that fit their types.
pub load-page_data :
    (p : NormalDataPage) (rs : List (List ℕ))
    → IsPage p rs
    → InRange (2 ^ 63) p.dev_id
    → InRange (2 ^ 63) p.idx_ts
    → InRange (2 ^ 31) p.page_no
    → load p.page_data p.is_dirty p.only_mem ≡ p
unfolding load
load-page_data p rs h d t n =
    let k = h.head in
    rw
      (
        k.head_dev_id,
        k.head_idx_ts,
        k.head_page_no,
        k.head_rec_cnt,
        k.head_chip_bytes,
        k.head_free_bytes,
        of_word64-to_word p.dev_id d,
        of_word64-to_word p.idx_ts t,
        of_word32-to_word p.page_no n,
      )
      refl

-- On a page without records a record of the time 0 that would fit is not inserted: it is taken for
-- one that exists, and the page stays as it is, or if that may be replaced, the call fails, and the
-- page still has no record.
pub insert_rec-time_zero :
    (p : NormalDataPage) (rec : List ℕ) (replace : Bool)
    → IsPage p []
    → stamp rec ≡ pos 0
    → length rec + rec_idx_len ≤ p.free_bytes
    → (q : NormalDataPage) × (insert_rec (stamp rec) rec replace p
        ≡ some (if replace then invalid_param else record_exist, q))
      × IsPage q []
      × (replace ≡ false → q ≡ p)
unfolding insert_rec insert_in find_place get_rec_data
insert_rec-time_zero p rec replace h z fits =
    rw (z, ge→ltb _ _ fits, none') (rw (ge→ltb _ _ fits) (outcome replace))
  where
    none' : leb p.rec_cnt 0 ≡ true
    none' = ground (arith, h.counted)

    -- The bytes of the record stand behind the head.
    kept :
        (o n : ℕ)
        → o + n ≤ head_size
        → load_bytes (store_bytes p.page_data (rec_offset rec p) rec) o n
          ≡ load_bytes p.page_data o n
    kept o n l = load-store_apart p.page_data (rec_offset rec p) rec o n (inl (omega arith))

    outcome :
        (b : Bool)
        → (q : NormalDataPage) × (some
              (if not b then (record_exist, p) else swap_rec 0 (rec_offset rec p) rec p)
            ≡ some (if b then invalid_param else record_exist, q))
          × IsPage q []
          × (b ≡ false → q ≡ p)
    outcome true = (
      record p { page_data = store_bytes p.page_data (rec_offset rec p) rec },
      rw none' refl,
      record {
        counted = h.counted;
        room = h.room;
        holds = λ i b. absurd (omega (arith, h.counted));
        recs = tt;
        sorted = tt;
        head = record {
          head_page_no = ap fixed_decode32 (kept 4 4 (omega arith)) ∙ h.head.head_page_no;
          head_dev_id = ap fixed_decode64 (kept 8 8 (omega arith)) ∙ h.head.head_dev_id;
          head_idx_ts = ap fixed_decode64 (kept 16 8 (omega arith)) ∙ h.head.head_idx_ts;
          head_rec_cnt = ap fixed_decode16 (kept 24 2 (omega arith)) ∙ h.head.head_rec_cnt;
          head_chip_bytes = ap fixed_decode16 (kept 26 2 (omega arith)) ∙ h.head.head_chip_bytes;
          head_free_bytes = ap fixed_decode16 (kept 28 2 (omega arith)) ∙ h.head.head_free_bytes;
        };
      },
      λ e. absurd (cc e),
    )
    outcome false = (p, refl, h, λ _. refl)
