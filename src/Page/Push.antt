-- ===== src/Page/Push.antt =====
-- A record that goes into a page of src/pinusdb/storage/normal_data_page.cpp at a place of its
-- index, as in InsertRec and InsertForPos.
use pinusdb.Prelude.{
  ℕ, zero, suc, ◌+◌, ◌-◌, ◌*◌, ◌^◌, ◌≤◌, ◌<◌, ◌≡◌, ◌⊎◌, inl, inr, ap, sym, ◌∙◌, refl, List, [],
  length, get_or, ltb, if◌then◌else◌, arith, if_cases, ltb→lt, ltb→ge, Bool-cases, Bool-cases,
}
use pinusdb.Coding.{fixed_decode16, fixed_decode32, fixed_decode64}
use pinusdb.Memory.{
  Memory, load_bytes, store_bytes, put16, load-put16, get16-put16, load-store_apart, load-store,
  load-move, length-load_bytes,
}
use pinusdb.Page.{
  NormalDataPage, page_size, head_size, rec_idx_len, set_counts, slot, push_rec, rec_offset,
}
use pinusdb.Page.Records.{IsPage, IsRec, Holds, Ascending, IsAt, IsAt-same, IsAt-kept}
use pinusdb.Page.Edits.{
  put_at, length-put_at, total-put_at, All-put_at, get_or-put_at_before, get_or-put_at_self,
  get_or-put_at_behind,
}
use pinusdb.Page.Bytes.{
  load-set_counts, rec_cnt-set_counts, chip_bytes-set_counts, free_bytes-set_counts,
}

-- The bytes of a page of `cnt` records after the record was written at `off` and the index opened
-- at `idx`.
module _ (m : Memory) (off : ℕ) (rec : List ℕ) (cnt idx : ℕ) (within : idx ≤ cnt)
    (apart : head_size + cnt * rec_idx_len + rec_idx_len ≤ off) where
  abbrev written : Memory
  written = store_bytes m off rec

  abbrev opened : Memory
  opened =
      if ltb idx cnt
      then store_bytes written (head_size + idx * rec_idx_len + rec_idx_len)
          (load_bytes written (head_size + idx * rec_idx_len) ((cnt - idx) * rec_idx_len))
      else written

  load-opened :
      (p n : ℕ)
      → (p + n ≤ head_size + idx * rec_idx_len + rec_idx_len)
        ⊎ (head_size + cnt * rec_idx_len + rec_idx_len ≤ p)
      → load_bytes opened p n ≡ load_bytes written p n
  load-opened p n h =
      let l =
        length-load_bytes written (head_size + idx * rec_idx_len) ((cnt - idx) * rec_idx_len) in
      if_cases (λ (k : Memory). load_bytes k p n ≡ load_bytes written p n) (ltb idx cnt)
        (λ _.
          load-store_apart written (head_size + idx * rec_idx_len + rec_idx_len) _ p n
            (ground (arith, l)))
        (λ _. refl)

  slot-opened_behind : (i : ℕ) → idx ≤ i → i < cnt → slot opened (suc i) ≡ slot written i
  slot-opened_behind i h k =
      if_cases (λ (k : Memory). slot k (suc i) ≡ slot written i) (ltb idx cnt)
        (λ _.
          let e : head_size
                + idx * rec_idx_len
                + (head_size + suc i * rec_idx_len - (head_size + idx * rec_idx_len + rec_idx_len))
              ≡ head_size + i * rec_idx_len =
            omega arith in
          ap fixed_decode16 (
            load-move written (head_size + idx * rec_idx_len + rec_idx_len)
              (head_size + idx * rec_idx_len) ((cnt - idx) * rec_idx_len)
              (head_size + suc i * rec_idx_len) 2 (omega arith) (omega arith)
            ∙ ap (λ o. load_bytes written o 2) e))
        (λ e. absurd (omega (arith, ltb→ge idx cnt e)))

  slot-written : (i : ℕ) → i < cnt → slot written i ≡ slot m i
  slot-written i h =
      ap fixed_decode16
        (load-store_apart m off rec (head_size + i * rec_idx_len) 2 (inl (omega arith)))

  module _ (chip free : ℕ) where
    abbrev pushed : Memory
    pushed = set_counts (cnt + 1) chip free (put16 opened (head_size + idx * rec_idx_len) off)

    load-pushed :
        (p n : ℕ)
        → head_size + cnt * rec_idx_len + rec_idx_len ≤ p
        → load_bytes pushed p n ≡ load_bytes written p n
    load-pushed p n h =
        load-set_counts (put16 opened (head_size + idx * rec_idx_len) off) p n (cnt + 1) chip free
          (inr (omega arith))
        ∙ load-put16 off opened (head_size + idx * rec_idx_len) p n (inr (omega arith))
        ∙ load-opened p n (inr h)

    load-pushed_head : (p n : ℕ) → p + n ≤ 24 → load_bytes pushed p n ≡ load_bytes m p n
    load-pushed_head p n h =
        load-set_counts (put16 opened (head_size + idx * rec_idx_len) off) p n (cnt + 1) chip free
          (inl h)
        ∙ load-put16 off opened (head_size + idx * rec_idx_len) p n (inl (omega arith))
        ∙ load-opened p n (inl (omega arith))
        ∙ load-store_apart m off rec p n (inl (omega arith))

    slot-pushed :
        (i : ℕ) → slot pushed i ≡ slot (put16 opened (head_size + idx * rec_idx_len) off) i
    slot-pushed i = ap fixed_decode16 (
        load-set_counts (put16 opened (head_size + idx * rec_idx_len) off)
          (head_size + i * rec_idx_len) 2 (cnt + 1) chip free (inr (omega arith)))

    slot-pushed_before : (i : ℕ) → i < idx → slot pushed i ≡ slot m i
    slot-pushed_before i h =
        slot-pushed i
        ∙ ap fixed_decode16 (
            load-put16 off opened (head_size + idx * rec_idx_len) (head_size + i * rec_idx_len) 2
              (inl (omega arith))
            ∙ load-opened (head_size + i * rec_idx_len) 2 (inl (omega arith)))
        ∙ slot-written i (omega arith)

    slot-pushed_self : off < 2 ^ 16 → slot pushed idx ≡ off
    slot-pushed_self h = slot-pushed idx ∙ get16-put16 off opened (head_size + idx * rec_idx_len) h

    slot-pushed_behind : (i : ℕ) → idx ≤ i → i < cnt → slot pushed (suc i) ≡ slot m i
    slot-pushed_behind i h k =
        slot-pushed (suc i)
        ∙ ap fixed_decode16 (
            load-put16 off opened (head_size + idx * rec_idx_len) (head_size + suc i * rec_idx_len)
              2 (inr (omega arith)))
        ∙ slot-opened_behind i h k
        ∙ slot-written i k

    -- The record and those that were there stand at their offsets.
    Holds-pushed :
        (rs : List (List ℕ)) (lo : ℕ)
        → length rs ≡ cnt
        → off + length rec ≡ lo
        → lo ≤ page_size
        → 0 < length rec
        → Holds m lo rs cnt
        → Holds pushed off (put_at idx rec rs) (cnt + 1)
    Holds-pushed rs lo l ends fits some_bytes h i b = elim (Bool-cases (ltb i idx)) [
      | inl e ↦
          let before = ltb→lt i idx e in
          IsAt-same pushed off (get_or-put_at_before idx i rec rs before (omega (arith, l)))
            (slot-pushed_before i before) (old i (omega arith))
      | inr e ↦ elim (Bool-cases (ltb idx i)) [
        | inl f ↦ behind i (ltb→lt idx i f) b
        | inr f ↦
            let same : i ≡ idx = omega (arith, ltb→ge i idx e, ltb→ge idx i f) in
            IsAt-same pushed off
              (ap (λ j. get_or (put_at idx rec rs) j []) same
                ∙ get_or-put_at_self idx rec rs (omega (arith, l)))
              (ap (slot pushed) same ∙ slot-pushed_self (omega arith))
              (omega arith, omega arith, load-pushed off (length rec) apart ∙ load-store m off rec)
      ]
    ]
      where
        old : (j : ℕ) → j < cnt → IsAt pushed off (get_or rs j []) (slot m j)
        old j k =
            IsAt-kept m pushed lo off (get_or rs j []) (slot m j) (omega arith)
              (λ a.
                load-pushed (slot m j) (length (get_or rs j [])) (omega arith)
                ∙ load-store_apart m off rec (slot m j) (length (get_or rs j []))
                    (inr (omega arith)))
              (h j k)

        behind :
            (i : ℕ)
            → idx < i
            → i < cnt + 1
            → IsAt pushed off (get_or (put_at idx rec rs) i []) (slot pushed i)
        behind zero a c = absurd (omega arith)
        behind (suc j) a c =
            IsAt-same pushed off (get_or-put_at_behind idx j rec rs (omega arith))
              (slot-pushed_behind j (omega arith) (omega arith)) (old j (omega arith))

-- A record that fits, put at a place where the order stays.
pub push_rec-IsPage :
    (p : NormalDataPage) (rs : List (List ℕ)) (idx : ℕ) (rec : List ℕ)
    → IsPage p rs
    → idx ≤ length rs
    → IsRec rec
    → length rec + rec_idx_len ≤ p.free_bytes
    → Ascending (put_at idx rec rs)
    → IsPage (push_rec idx (rec_offset rec p) rec p) (put_at idx rec rs)
push_rec-IsPage p rs idx rec h within k fits asc =
    let free = p.free_bytes - (length rec + rec_idx_len) in
    let off = rec_offset rec p in
    let apart : head_size + p.rec_cnt * rec_idx_len + rec_idx_len ≤ off = omega arith in
    let le : idx ≤ p.rec_cnt = omega (arith, h.counted) in
    let lo : head_size + (p.rec_cnt + 1) * rec_idx_len + free ≡ off = omega arith in
    let len = length-put_at idx rec rs in
    let m =
      put16 (opened p.page_data off rec p.rec_cnt idx le apart) (head_size + idx * rec_idx_len)
        off in
    let kept = load-pushed_head p.page_data off rec p.rec_cnt idx le apart p.chip_bytes free in
    record {
      counted = omega (arith, h.counted, len);
      room = omega (arith, h.room, total-put_at idx rec rs, h.counted);
      holds = rw lo (
          Holds-pushed p.page_data off rec p.rec_cnt idx le apart p.chip_bytes free rs
            (head_size + p.rec_cnt * rec_idx_len + p.free_bytes) (sym h.counted) (omega arith)
            (omega (arith, h.room)) (omega (arith, k.1)) h.holds);
      recs = All-put_at IsRec idx rec rs k h.recs;
      sorted = asc;
      head = record {
        head_page_no = ap fixed_decode32 (kept 4 4 (omega arith)) ∙ h.head.head_page_no;
        head_dev_id = ap fixed_decode64 (kept 8 8 (omega arith)) ∙ h.head.head_dev_id;
        head_idx_ts = ap fixed_decode64 (kept 16 8 (omega arith)) ∙ h.head.head_idx_ts;
        head_rec_cnt =
            rec_cnt-set_counts m (p.rec_cnt + 1) p.chip_bytes free (omega (arith, h.room));
        head_chip_bytes =
            chip_bytes-set_counts m (p.rec_cnt + 1) p.chip_bytes free (omega (arith, h.room));
        head_free_bytes =
            free_bytes-set_counts m (p.rec_cnt + 1) p.chip_bytes free (omega (arith, h.room));
      };
    }
