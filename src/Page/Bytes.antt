-- ===== src/Page/Bytes.antt =====
-- The head and the index of a page of src/pinusdb/storage/normal_data_page.cpp among its bytes.
use pinusdb.Prelude.{ℕ, ◌+◌, ◌^◌, ◌≤◌, ◌<◌, ◌≡◌, ◌⊎◌, inl, inr, ap, ◌∙◌, arith}
use pinusdb.Prelude.Int.{ℤ, to_word}
use pinusdb.Coding.{fixed_decode16, fixed_decode32, fixed_decode64}
use pinusdb.Memory.{
  Memory, load_bytes, get16, get32, get64, put16, put32, put64, load-put16, load-put32, load-put64,
  get16-put16, get32-put32, get64-put64,
}
use pinusdb.Page.{set_counts, set_head}

-- The counts stand from 24 to 30, the rest of the head from 4 to 24.
module _ (m : Memory) (p n : ℕ) where
  pub load-set_counts :
      (cnt chip free : ℕ)
      → (p + n ≤ 24) ⊎ (30 ≤ p)
      → load_bytes (set_counts cnt chip free m) p n ≡ load_bytes m p n
  load-set_counts cnt chip free h =
      load-put16 free (put16 (put16 m 24 cnt) 26 chip) 28 p n (ground arith)
      ∙ load-put16 chip (put16 m 24 cnt) 26 p n (ground arith)
      ∙ load-put16 cnt m 24 p n (ground arith)

  pub load-set_head :
      (page_no dev_id idx_ts : ℤ)
      → 24 ≤ p
      → load_bytes (set_head page_no dev_id idx_ts m) p n ≡ load_bytes m p n
  load-set_head page_no dev_id idx_ts h =
      load-put64 (to_word (2 ^ 64) idx_ts)
        (put64 (put32 m 4 (to_word (2 ^ 32) page_no)) 8 (to_word (2 ^ 64) dev_id)) 16 p n
        (inr (omega arith))
      ∙ load-put64 (to_word (2 ^ 64) dev_id) (put32 m 4 (to_word (2 ^ 32) page_no)) 8 p n
          (inr (omega arith))
      ∙ load-put32 (to_word (2 ^ 32) page_no) m 4 p n (inr (omega arith))

-- What was written into the head is read there.
module _ (m : Memory) (cnt chip free : ℕ) where
  abbrev with_counts : Memory
  with_counts = set_counts cnt chip free m

  pub rec_cnt-set_counts : cnt < 2 ^ 16 → get16 with_counts 24 ≡ cnt
  rec_cnt-set_counts h =
      ap fixed_decode16 (
        load-put16 free (put16 (put16 m 24 cnt) 26 chip) 28 24 2 (inl (omega arith))
        ∙ load-put16 chip (put16 m 24 cnt) 26 24 2 (inl (omega arith)))
      ∙ get16-put16 cnt m 24 h

  pub chip_bytes-set_counts : chip < 2 ^ 16 → get16 with_counts 26 ≡ chip
  chip_bytes-set_counts h =
      ap fixed_decode16
        (load-put16 free (put16 (put16 m 24 cnt) 26 chip) 28 26 2 (inl (omega arith)))
      ∙ get16-put16 chip (put16 m 24 cnt) 26 h

  pub free_bytes-set_counts : free < 2 ^ 16 → get16 with_counts 28 ≡ free
  free_bytes-set_counts h = get16-put16 free (put16 (put16 m 24 cnt) 26 chip) 28 h

pub to_word_lt : (k : ℕ) (a : ℤ) → 0 < k → to_word k a < k
unfolding to_word
to_word_lt k a h = omega arith

module _ (m : Memory) (page_no dev_id idx_ts : ℤ) where
  abbrev with_head : Memory
  with_head = set_head page_no dev_id idx_ts m

  pub page_no-set_head : get32 with_head 4 ≡ to_word (2 ^ 32) page_no
  page_no-set_head =
      ap fixed_decode32 (
        load-put64 (to_word (2 ^ 64) idx_ts)
          (put64 (put32 m 4 (to_word (2 ^ 32) page_no)) 8 (to_word (2 ^ 64) dev_id)) 16 4 4
          (inl (omega arith))
        ∙ load-put64 (to_word (2 ^ 64) dev_id) (put32 m 4 (to_word (2 ^ 32) page_no)) 8 4 4
            (inl (omega arith)))
      ∙ get32-put32 (to_word (2 ^ 32) page_no) m 4 (to_word_lt (2 ^ 32) page_no (omega arith))

  pub dev_id-set_head : get64 with_head 8 ≡ to_word (2 ^ 64) dev_id
  dev_id-set_head =
      ap fixed_decode64 (
        load-put64 (to_word (2 ^ 64) idx_ts)
          (put64 (put32 m 4 (to_word (2 ^ 32) page_no)) 8 (to_word (2 ^ 64) dev_id)) 16 8 8
          (inl (omega arith)))
      ∙ get64-put64 (to_word (2 ^ 64) dev_id) (put32 m 4 (to_word (2 ^ 32) page_no)) 8
          (to_word_lt (2 ^ 64) dev_id (omega arith))

  pub idx_ts-set_head : get64 with_head 16 ≡ to_word (2 ^ 64) idx_ts
  idx_ts-set_head =
      get64-put64 (to_word (2 ^ 64) idx_ts)
        (put64 (put32 m 4 (to_word (2 ^ 32) page_no)) 8 (to_word (2 ^ 64) dev_id)) 16
        (to_word_lt (2 ^ 64) idx_ts (omega arith))
