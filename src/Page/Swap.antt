-- ===== src/Page/Swap.antt =====
-- A record that replaces one of a page of src/pinusdb/storage/normal_data_page.cpp, as in InsertRec.
use pinusdb.Prelude.{
  ℕ, ◌+◌, ◌-◌, ◌*◌, ◌^◌, ◌≤◌, ◌<◌, ◌≡◌, ◌≢◌, inl, inr, ap, sym, ◌∙◌, refl, List, [], length, get_or,
  arith, Bool-cases, ◌==◌, ==_iff, leb, true, false,
}
use pinusdb.Coding.{fixed_decode16, fixed_decode32, fixed_decode64}
use pinusdb.Memory.{
  Memory, load_bytes, store_bytes, get16, put16, load-put16, get16-put16, load-store_apart,
  load-store,
}
use pinusdb.Value.{ok}
use pinusdb.Page.{
  NormalDataPage, page_size, head_size, rec_idx_len, set_counts, slot, swap_rec, rec_offset,
  get_rec_data,
}
use pinusdb.Page.Records.{
  IsPage, IsRec, Holds, Ascending, IsAt, IsAt-same, IsAt-kept, All-get_or, get16-rec,
}
use pinusdb.Page.Edits.{
  set_at, length-set_at, total-set_at, All-set_at, get_or-set_at_self, get_or-set_at_other,
}
use pinusdb.Page.Bytes.{
  load-set_counts, rec_cnt-set_counts, chip_bytes-set_counts, free_bytes-set_counts,
}

module _ (m : Memory) (off : ℕ) (rec : List ℕ) (cnt idx : ℕ) (within : idx < cnt)
    (apart : head_size + cnt * rec_idx_len ≤ off) where
  abbrev written : Memory
  written = store_bytes m off rec

  slot-written : (i : ℕ) → i < cnt → slot written i ≡ slot m i
  slot-written i h =
      ap fixed_decode16
        (load-store_apart m off rec (head_size + i * rec_idx_len) 2 (inl (omega arith)))

  -- The old records are still there when the new one has been written below them.
  IsAt-written :
      (r : List ℕ) (lo i : ℕ)
      → off + length rec ≡ lo
      → i < cnt
      → IsAt m lo r (slot m i)
      → IsAt written lo r (slot written i)
  IsAt-written r lo i e k h = IsAt-same written lo refl (slot-written i k) (
      IsAt-kept m written lo lo r (slot m i) (omega arith)
        (λ a. load-store_apart m off rec (slot m i) (length r) (inr (omega arith))) h)

  module _ (chip free : ℕ) where
    abbrev linked : Memory
    linked = put16 written (head_size + idx * rec_idx_len) off

    abbrev swapped : Memory
    swapped = set_counts cnt chip free linked

    load-swapped :
        (p n : ℕ)
        → head_size + cnt * rec_idx_len ≤ p
        → load_bytes swapped p n ≡ load_bytes written p n
    load-swapped p n h =
        load-set_counts linked p n cnt chip free (inr (omega arith))
        ∙ load-put16 off written (head_size + idx * rec_idx_len) p n (inr (omega arith))

    load-swapped_head : (p n : ℕ) → p + n ≤ 24 → load_bytes swapped p n ≡ load_bytes m p n
    load-swapped_head p n h =
        load-set_counts linked p n cnt chip free (inl h)
        ∙ load-put16 off written (head_size + idx * rec_idx_len) p n (inl (omega arith))
        ∙ load-store_apart m off rec p n (inl (omega arith))

    slot-swapped : (i : ℕ) → slot swapped i ≡ slot linked i
    slot-swapped i =
        ap fixed_decode16
          (load-set_counts linked (head_size + i * rec_idx_len) 2 cnt chip free (inr (omega arith)))

    slot-swapped_self : off < 2 ^ 16 → slot swapped idx ≡ off
    slot-swapped_self h =
        slot-swapped idx ∙ get16-put16 off written (head_size + idx * rec_idx_len) h

    slot-swapped_other : (i : ℕ) → i ≢ idx → i < cnt → slot swapped i ≡ slot m i
    slot-swapped_other i n h =
        slot-swapped i
        ∙ ap fixed_decode16 (
            load-put16 off written (head_size + idx * rec_idx_len) (head_size + i * rec_idx_len) 2
              (ground arith))
        ∙ slot-written i h

    Holds-swapped :
        (rs : List (List ℕ)) (lo : ℕ)
        → length rs ≡ cnt
        → off + length rec ≡ lo
        → lo ≤ page_size
        → 0 < length rec
        → Holds m lo rs cnt
        → Holds swapped off (set_at idx rec rs) cnt
    Holds-swapped rs lo l ends fits some_bytes h i b = elim (Bool-cases (i == idx)) [
      | inl e ↦
          let same = (==_iff i idx).0 e in
          IsAt-same swapped off
            (ap (λ j. get_or (set_at idx rec rs) j []) same
              ∙ get_or-set_at_self idx rec rs (omega (arith, l)))
            (ap (slot swapped) same ∙ slot-swapped_self (omega arith))
            (omega arith, omega arith, load-swapped off (length rec) apart ∙ load-store m off rec)
      | inr e ↦
          let other : i ≢ idx = ground (arith, e) in
          IsAt-same swapped off (get_or-set_at_other idx i rec rs other)
            (slot-swapped_other i other b)
            (IsAt-kept m swapped lo off (get_or rs i []) (slot m i) (omega arith)
              (λ a.
                load-swapped (slot m i) (length (get_or rs i [])) (omega arith)
                ∙ load-store_apart m off rec (slot m i) (length (get_or rs i []))
                    (inr (omega arith)))
              (h i b))
    ]

module _ (p : NormalDataPage) (rs : List (List ℕ)) (idx : ℕ) (rec : List ℕ) (h : IsPage p rs)
    (within : idx < length rs) (k : IsRec rec)
    (fits : length rec + rec_idx_len ≤ p.free_bytes) where
  abbrev old_len : ℕ
  old_len = length (get_or rs idx [])

  abbrev free : ℕ
  free = p.free_bytes - length rec

  off : ℕ
  off = rec_offset rec p

  le : idx < p.rec_cnt
  le = omega (arith, h.counted)

  apart : head_size + p.rec_cnt * rec_idx_len ≤ off
  unfolding off
  apart = omega arith

  swapped_page : NormalDataPage
  swapped_page = record p {
    chip_bytes = p.chip_bytes + old_len;
    free_bytes = free;
    page_data = swapped p.page_data off rec p.rec_cnt idx le apart (p.chip_bytes + old_len) free;
    is_dirty = true;
  }

  swap_rec-swapped : swap_rec idx (rec_offset rec p) rec p ≡ (ok, swapped_page)
  unfolding get_rec_data swapped_page off
  swap_rec-swapped =
      let found : leb p.rec_cnt idx ≡ false = ground (arith, le) in
      let m = written p.page_data off rec p.rec_cnt idx le apart in
      let (a, b, c) =
        IsAt-written p.page_data off rec p.rec_cnt idx le apart (get_or rs idx [])
          (head_size + p.rec_cnt * rec_idx_len + p.free_bytes) idx (omega arith) le
          (h.holds idx le) in
      let len : get16 m (slot m idx) ≡ old_len =
        get16-rec m (slot m idx) (get_or rs idx []) (All-get_or IsRec rs idx h.recs within) c in
      rw (found, len) refl

  swapped_page-IsPage : Ascending (set_at idx rec rs) → IsPage swapped_page (set_at idx rec rs)
  unfolding swapped_page off
  swapped_page-IsPage asc =
      let chip = p.chip_bytes + old_len in
      let m = linked p.page_data off rec p.rec_cnt idx le apart chip free in
      let kept = load-swapped_head p.page_data off rec p.rec_cnt idx le apart chip free in
      let lo : head_size + p.rec_cnt * rec_idx_len + free ≡ off = omega arith in
      let sum = total-set_at idx rec rs within in
      record {
        counted = h.counted ∙ sym (length-set_at idx rec rs);
        room = omega (arith, h.room, sum);
        holds = rw lo (
            Holds-swapped p.page_data off rec p.rec_cnt idx le apart chip free rs
              (head_size + p.rec_cnt * rec_idx_len + p.free_bytes) (sym h.counted) (omega arith)
              (omega (arith, h.room)) (omega (arith, k.1)) h.holds);
        recs = All-set_at IsRec idx rec rs k h.recs;
        sorted = asc;
        head = record {
          head_page_no = ap fixed_decode32 (kept 4 4 (omega arith)) ∙ h.head.head_page_no;
          head_dev_id = ap fixed_decode64 (kept 8 8 (omega arith)) ∙ h.head.head_dev_id;
          head_idx_ts = ap fixed_decode64 (kept 16 8 (omega arith)) ∙ h.head.head_idx_ts;
          head_rec_cnt = rec_cnt-set_counts m p.rec_cnt chip free (omega (arith, h.room));
          head_chip_bytes =
              chip_bytes-set_counts m p.rec_cnt chip free (omega (arith, h.room, sum));
          head_free_bytes = free_bytes-set_counts m p.rec_cnt chip free (omega (arith, h.room));
        };
      }

-- A record in the place of one of its time.
pub swap_rec-IsPage :
    (p : NormalDataPage) (rs : List (List ℕ)) (idx : ℕ) (rec : List ℕ)
    → IsPage p rs
    → idx < length rs
    → IsRec rec
    → length rec + rec_idx_len ≤ p.free_bytes
    → Ascending (set_at idx rec rs)
    → (q : NormalDataPage) × (swap_rec idx (rec_offset rec p) rec p ≡ (ok, q))
      × IsPage q (set_at idx rec rs)
swap_rec-IsPage p rs idx rec h within k fits asc = (
  swapped_page p rs idx rec h within k fits,
  swap_rec-swapped p rs idx rec h within k fits,
  swapped_page-IsPage p rs idx rec h within k fits asc,
)
