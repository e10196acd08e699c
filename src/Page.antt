-- ===== src/Page.antt =====
-- src/pinusdb/storage/normal_data_page.cpp: a page of records of one device in order of time. The
-- members of NormalDataPage stand beside the bytes of the page, which begin with NormalDataHead,
-- the offsets of the records follow, and the records grow from the end. `is_dirty` and `only_mem`
-- are those of the PageHdr. The tests for a null page are left out, and the buffer of CleanUp is
-- had. An offset is a uint16, a time stamp an int64.
pub mod Tests
pub mod Split
pub mod Records
pub mod Edits
pub mod Bytes
pub mod Push
pub mod Swap
pub mod Clean
pub mod Places
pub mod Insert
pub mod Init
pub mod Reload
use pinusdb.Prelude.{
  ℕ, zero, suc, ◌+◌, ◌-◌, ◌*◌, ◌/◌, ◌%◌, ◌^◌, Bool, true, false, not, ◌&&◌, ◌||◌, Option, none,
  some, List, [], ◌∷◌, ltb, leb, length, take, drop, if◌then◌else◌,
}
use pinusdb.Prelude.Int.{ℤ, pos, negsuc, ltb_ℤ, leb_ℤ, of_word, to_word}
use pinusdb.Memory.{Memory, load_bytes, store_bytes, get16, get32, get64, put16, put32, put64}
use pinusdb.StringTool.{crc32}
use pinusdb.Value.{PdbErr, ok, invalid_param, record_exist, page_fill, on_ok}

-- NORMAL_PAGE_SIZE, `sizeof(NormalDataHead)` and NORMAL_REC_IDX_LEN.
abbrev pub page_size : ℕ
page_size = 65536

abbrev pub head_size : ℕ
head_size = 32

abbrev pub rec_idx_len : ℕ
rec_idx_len = 2

pub record NormalDataPage : Type 0 where
  pub dev_id : ℤ
  pub idx_ts : ℤ
  pub page_no : ℤ
  pub rec_cnt : ℕ
  pub chip_bytes : ℕ
  pub free_bytes : ℕ
  pub page_data : Memory
  pub is_dirty : Bool
  pub only_mem : Bool

-- The numbers of the head, at their places.
abbrev pub set_counts : ℕ → ℕ → ℕ → Memory → Memory
set_counts cnt chip free m = put16 (put16 (put16 m 24 cnt) 26 chip) 28 free

abbrev pub set_head : ℤ → ℤ → ℤ → Memory → Memory
set_head page_no dev_id idx_ts m =
    put64 (put64 (put32 m 4 (to_word (2 ^ 32) page_no)) 8 (to_word (2 ^ 64) dev_id)) 16
      (to_word (2 ^ 64) idx_ts)

-- A page that has been read.
unfoldable pub load : Memory → Bool → Bool → NormalDataPage
load m is_dirty only_mem = record {
  dev_id = of_word (2 ^ 63) (get64 m 8);
  idx_ts = of_word (2 ^ 63) (get64 m 16);
  page_no = of_word (2 ^ 31) (get32 m 4);
  rec_cnt = get16 m 24;
  chip_bytes = get16 m 26;
  free_bytes = get16 m 28;
  page_data = m;
  is_dirty = is_dirty;
  only_mem = only_mem;
}

unfoldable pub init : ℤ → ℤ → ℤ → NormalDataPage
init page_no dev_id idx_ts =
    let free = page_size - head_size in
    record {
      dev_id = dev_id;
      idx_ts = idx_ts;
      page_no = page_no;
      rec_cnt = 0;
      chip_bytes = 0;
      free_bytes = free;
      page_data = set_head page_no dev_id idx_ts (set_counts 0 0 free (λ a. 0));
      is_dirty = false;
      only_mem = false;
    }

-- The checksum of all that is behind its place.
unfoldable pub update_crc : NormalDataPage → NormalDataPage
update_crc p = record p {
  page_data = put32 p.page_data 0 (crc32 (load_bytes p.page_data 4 (page_size - 4)));
}

-- The offset of a record in its place of the index.
abbrev pub slot : Memory → ℕ → ℕ
slot m i = get16 m (head_size + i * rec_idx_len)

-- The pointer of GetRecData is the offset in the page.
unfoldable pub get_rec_data : ℕ → NormalDataPage → PdbErr × ℕ
get_rec_data idx p = if leb p.rec_cnt idx then (invalid_param, 0) else (ok, slot p.page_data idx)

abbrev pub stamp_at : Memory → ℕ → ℤ
stamp_at m off = of_word (2 ^ 63) (get64 m (off + 2))

-- The time stamp before the call is left if there is none.
unfoldable pub get_rec_tstamp : ℕ → ℤ → NormalDataPage → PdbErr × ℤ
get_rec_tstamp idx tstamp p =
    if leb p.rec_cnt idx
    then (invalid_param, tstamp)
    else (ok, stamp_at p.page_data (slot p.page_data idx))

unfoldable pub get_last_tstamp : ℤ → NormalDataPage → PdbErr × ℤ
get_last_tstamp tstamp p =
    if leb p.rec_cnt 0
    then (invalid_param, tstamp)
    else (ok, stamp_at p.page_data (slot p.page_data (p.rec_cnt - 1)))

-- The loop of CleanUp: the end of the free space and the bytes of the new page. The records go to
-- the end, the first one last.
unfoldable pub clean_loop : Memory → ℕ → ℕ → ℕ → Memory → ℕ × Memory
clean_loop m zero i tmp_end tmp = (tmp_end, tmp)
clean_loop m (suc rounds) i tmp_end tmp =
    let bg = slot m i in
    let rec_len = get16 m bg in
    let at = tmp_end - rec_len in
    clean_loop m rounds (suc i) at
      (put16 (store_bytes tmp at (load_bytes m bg rec_len)) (head_size + i * rec_idx_len) at)

unfoldable pub clean_up : NormalDataPage → NormalDataPage
unfolding clean_loop
clean_up p =
    let packed = clean_loop p.page_data p.rec_cnt 0 page_size (λ a. 0) in
    let free = packed.0 - head_size - p.rec_cnt * rec_idx_len in
    record p {
      chip_bytes = 0;
      free_bytes = free;
      page_data = set_counts p.rec_cnt 0 free (set_head p.page_no p.dev_id p.idx_ts packed.1);
    }

-- `retVal`, `idx` and `curTs` behind the search of InsertRec.
pub record Place : Type 0 where
  pub ret_val : PdbErr
  pub rec_idx : ℕ
  pub cur_ts : ℤ

abbrev pub same_ts : ℤ → ℤ → Bool
same_ts a b = leb_ℤ a b && leb_ℤ b a

-- The `while (lwr <= upr)` loop; `hi` is `upr + 1`, which is not negative. `none` means that the
-- fuel ran out.
unfoldable pub place_loop : NormalDataPage → ℤ → ℕ → ℕ → ℕ → ℕ → ℤ → Option Place
place_loop p ts zero lwr hi idx cur = none
place_loop p ts (suc fuel) lwr hi idx cur =
    let mid = (lwr + (hi - 1)) / 2 in
    let got = get_rec_tstamp mid cur p in
    let right = place_loop p ts fuel (mid + 1) hi mid got.1 in
    let left = place_loop p ts fuel lwr mid mid got.1 in
    if ltb lwr hi
    then on_ok got.0
        (if same_ts got.1 ts
          then some (record { ret_val = ok; rec_idx = mid; cur_ts = got.1 })
          else if ltb_ℤ got.1 ts
          then right
          else left)
        (some (record { ret_val = got.0; rec_idx = mid; cur_ts = got.1 }))
    else some (record { ret_val = ok; rec_idx = idx; cur_ts = cur })

-- The place of the time stamp, or one beside it.
unfoldable pub find_place : NormalDataPage → ℤ → Option Place
unfolding place_loop
find_place p ts =
    let last = p.rec_cnt - 1 in
    let got = get_rec_tstamp last (pos 0) p in
    let found = place_loop p ts (suc p.rec_cnt) 0 p.rec_cnt last got.1 in
    if leb p.rec_cnt 0
    then some (record { ret_val = ok; rec_idx = 0; cur_ts = pos 0 })
    else on_ok got.0
        (if ltb_ℤ ts got.1
          then found
          else some (record { ret_val = ok; rec_idx = last; cur_ts = got.1 }))
        (some (record { ret_val = got.0; rec_idx = last; cur_ts = got.1 }))

-- A record before the free space ends, with its offset in a place of the index: those from there
-- on move up.
abbrev pub push_rec : ℕ → ℕ → List ℕ → NormalDataPage → NormalDataPage
push_rec idx rec_off rec p =
    let at = head_size + idx * rec_idx_len in
    let m = store_bytes p.page_data rec_off rec in
    let moved =
      if ltb idx p.rec_cnt
      then store_bytes m (at + rec_idx_len) (load_bytes m at ((p.rec_cnt - idx) * rec_idx_len))
      else m in
    let cnt = p.rec_cnt + 1 in
    let free = p.free_bytes - (length rec + rec_idx_len) in
    record p {
      rec_cnt = cnt;
      free_bytes = free;
      page_data = set_counts cnt p.chip_bytes free (put16 moved at rec_off);
      is_dirty = true;
    }

-- A record in the place of an old one, whose bytes are counted as chips.
abbrev pub swap_rec : ℕ → ℕ → List ℕ → NormalDataPage → PdbErr × NormalDataPage
swap_rec idx rec_off rec p =
    let m = store_bytes p.page_data rec_off rec in
    let old = get_rec_data idx (record p { page_data = m }) in
    let chip = p.chip_bytes + get16 m (old.1) in
    let free = p.free_bytes - length rec in
    on_ok old.0
      (
        ok,
        record p {
          chip_bytes = chip;
          free_bytes = free;
          page_data =
              set_counts p.rec_cnt chip free (put16 m (head_size + idx * rec_idx_len) rec_off);
          is_dirty = true;
        },
      )
      (old.0, record p { page_data = m })

-- Where the next record goes.
abbrev pub rec_offset : List ℕ → NormalDataPage → ℕ
rec_offset rec p = head_size + p.rec_cnt * rec_idx_len + p.free_bytes - length rec

-- InsertRec behind the search.
abbrev pub insert_at :
    ℤ → List ℕ → Bool → NormalDataPage → Option Place → Option (PdbErr × NormalDataPage)
insert_at ts rec replace p none = none
insert_at ts rec replace p (some q) =
    let same = same_ts q.cur_ts ts in
    let idx = if ltb_ℤ q.cur_ts ts && ltb q.rec_idx p.rec_cnt then q.rec_idx + 1 else q.rec_idx in
    let done =
      if same && not replace
      then (record_exist, p)
      else if same
      then swap_rec q.rec_idx (rec_offset rec p) rec p
      else (ok, push_rec idx (rec_offset rec p) rec p) in
    some (on_ok q.ret_val done (q.ret_val, p))

-- The record goes into the page if it fits in one piece.
unfoldable pub insert_in : ℤ → List ℕ → Bool → NormalDataPage → Option (PdbErr × NormalDataPage)
unfolding find_place
insert_in ts rec replace p =
    let inserted = insert_at ts rec replace p (find_place p ts) in
    if ltb p.free_bytes (length rec + rec_idx_len) then some (page_fill, p) else inserted

unfoldable pub insert_rec : ℤ → List ℕ → Bool → NormalDataPage → Option (PdbErr × NormalDataPage)
unfolding clean_up insert_in
insert_rec ts rec replace p =
    let need = length rec + rec_idx_len in
    insert_in ts rec replace
      (if ltb p.free_bytes need && leb need (p.free_bytes + p.chip_bytes) then clean_up p else p)
