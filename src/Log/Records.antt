-- ===== src/Log/Records.antt =====
-- The records of the commit log: their bytes (AppendRec of src/pinusdb/commitlog/commit_log_list.cpp,
-- AppendSync and CreateLogFile of commit_log_file.cpp) and the two readers, ReadRecList and
-- RecoverPoint. A buffer is the list of its bytes, and the pointer into it the bytes that are left.
pub mod Tests
pub mod RoundTrip
pub mod Readback
use pinusdb.Prelude.{
  ℕ, zero, suc, ◌+◌, ◌-◌, ◌*◌, ◌%◌, ◌^◌, Bool, List, [], ◌∷◌, ◌++◌, Option, none, some, length,
  take, drop, get_or, ltb, leb, ◌==◌, not, ◌&&◌, ◌||◌, if◌then◌else◌,
}
use pinusdb.Value.{PdbErr, ok, on_ok, logfile_full}
use pinusdb.StringTool.{crc64, crc32, crc64_to_crc32}
use pinusdb.Coding.{
  fixed_encode16, fixed_encode32, fixed_encode64, fixed_decode16, fixed_decode32, fixed_decode64,
}
use pinusdb.Log.{
  NormalFile, CommitLogFile, pos, cmt_log_file_size, rec_data_len, rec_sync_len, append,
  append_record, read, get_file_begin_pos,
}

-- CMTLOG_TYPE_FILE_HEAD, CMTLOG_TYPE_SYNC_INFO, kRecHead and CMTLOG_FILE_VER.
abbrev pub type_file_head : ℕ
type_file_head = 1

abbrev pub type_sync_info : ℕ
type_sync_info = 2

abbrev pub rec_head_len : ℕ
rec_head_len = 7

abbrev pub file_ver : ℕ
file_ver = 3

-- What a record says of the data behind its head; `rec` is the data that `pRec` and `recLen` give.
pub record LogRecInfo : Type 0 where
  pub tab_crc : ℕ
  pub meta_crc : ℕ
  pub rec_type : ℕ
  pub rec_len : ℕ
  pub dev_id : ℕ
  pub rec : List ℕ

-- The head of a record without its checksum, and with it: the checksum goes on over the data.
unfoldable pub rec_fields : ℕ → ℕ → ℕ → ℕ → ℕ → List ℕ
rec_fields tab_crc meta_crc rec_type dev_id rec_len =
    rec_type ∷ fixed_encode16 (rec_len + rec_data_len)
    ++ (fixed_encode64 tab_crc ++ (fixed_encode32 meta_crc ++ fixed_encode64 dev_id))

unfoldable pub rec_head : ℕ → ℕ → ℕ → ℕ → List ℕ → List ℕ
rec_head tab_crc meta_crc rec_type dev_id rec =
    let fields = rec_fields tab_crc meta_crc rec_type dev_id (length rec) in
    fixed_encode32 (crc64_to_crc32 (crc64 rec (crc64 fields 0))) ++ fields

-- A record of bytes behind its checksum.
unfoldable pub with_crc : List ℕ → List ℕ
with_crc fields = fixed_encode32 (crc32 fields) ++ fields

-- The record that AppendSync writes; the positions of replication and mirror are 0.
unfoldable pub sync_record : ℕ → List ℕ
sync_record sync_pos = with_crc (
    type_sync_info ∷ fixed_encode16 rec_sync_len
    ++ (fixed_encode64 sync_pos ++ (fixed_encode64 0 ++ fixed_encode64 0)))

-- The head of a file, 36 bytes.
unfoldable pub file_head : ℕ → ℕ → List ℕ
file_head file_code sync_pos = with_crc (
    type_file_head ∷ fixed_encode16 36
    ++ (file_ver ∷ fixed_encode32 file_code
        ++ (fixed_encode64 sync_pos ++ (fixed_encode64 0 ++ fixed_encode64 0))))

-- A char that becomes a uint16.
abbrev pub char_code : ℕ → ℕ
char_code b = if ltb b 128 then b else b + 65280

-- Why the loop over a buffer ended: at the end of the records that are whole, at a checksum that is
-- wrong, or in a read past the buffer, for a length below 4 makes `recLen - 4` a huge size.
pub data ScanEnd : Type 0 where
  reached corrupt overrun : ScanEnd

abbrev pub on_end {ℓ} : {A : Type ℓ} → ScanEnd → A → A → A → A
on_end reached at_end at_corrupt at_overrun = at_end
on_end corrupt at_end at_corrupt at_overrun = at_corrupt
on_end overrun at_end at_corrupt at_overrun = at_overrun

pub record Scan : Type 0 where
  pub recs : List LogRecInfo
  pub rest : List ℕ
  pub scan_end : ScanEnd

abbrev pub is_meta : ℕ → Bool
is_meta t = (t == type_file_head) || (t == type_sync_info)

abbrev pub rec_info : ℕ → List ℕ → LogRecInfo
rec_info rec_len p =
    let len = (rec_len + 2 ^ 16 - rec_data_len) % 2 ^ 16 in
    record {
      tab_crc = fixed_decode64 (drop rec_head_len p);
      meta_crc = fixed_decode32 (drop (rec_head_len + 8) p);
      rec_type = char_code (get_or p 4 0);
      rec_len = len;
      dev_id = fixed_decode64 (drop (rec_head_len + 12) p);
      rec = take len (drop rec_data_len p);
    }

-- `while (pRec + kRecHead < pLimit)`; a turn takes at least four bytes, so that as much fuel as the
-- buffer has bytes never runs out before the loop ends.
unfoldable pub scan_recs : ℕ → List ℕ → Scan
scan_recs zero p = record { recs = []; rest = p; scan_end = reached }
scan_recs (suc n) p =
    let rec_len = fixed_decode16 (drop 5 p) in
    let next = scan_recs n (drop rec_len p) in
    let stop : ScanEnd → Scan = λ e. record { recs = []; rest = p; scan_end = e } in
    if leb (length p) rec_head_len || ltb (length p) rec_len
    then stop reached
    else if ltb rec_len 4
    then stop overrun
    else if not (fixed_decode32 p == crc32 (take (rec_len - 4) (drop 4 p)))
    then stop corrupt
    else if is_meta (get_or p 4 0)
    then next
    else record next { recs = rec_info rec_len p ∷ next.recs }

abbrev pub is_empty {ℓ} : {A : Type ℓ} → List A → Bool
is_empty xs = length xs == 0

module _ {N : NormalFile} where
  unfoldable pub append_sync : ℕ → CommitLogFile N → PdbErr × CommitLogFile N
  append_sync sync_pos s =
      if leb cmt_log_file_size (s.file_size + pos s + rec_sync_len)
      then (logfile_full, s)
      else append (sync_record sync_pos) s

  -- What AppendRec does to the file that is written: AppendRecord with the head it makes.
  unfoldable pub append_rec : ℕ → ℕ → ℕ → ℕ → List ℕ → CommitLogFile N → PdbErr × CommitLogFile N
  append_rec tab_crc meta_crc rec_type dev_id rec s =
      append_record (rec_head tab_crc meta_crc rec_type dev_id rec) rec s

  -- The outer loop of ReadRecList at the position `offset`, which the call returns with the error
  -- and the records: `none` where a read leaves the buffer or the fuel ends. A turn that goes on
  -- moves the position by at least four bytes.
  unfoldable pub read_loop : ℕ → ℕ → ℕ → CommitLogFile N → Option (PdbErr × ℕ × List LogRecInfo)
  read_loop zero offset buf_size s = none
  read_loop (suc n) offset buf_size s =
      let begin_pos = get_file_begin_pos s in
      let next_file = s.file_code * cmt_log_file_size in
      let end_pos = if s.read_only then next_file else offset in
      let r = read (offset - begin_pos) buf_size s in
      let found = scan_recs (length r.1) r.1 in
      let offset' = offset + (length r.1 - length found.rest) in
      let again = read_loop n offset' buf_size s in
      if leb (begin_pos + cmt_log_file_size) offset
      then some (ok, offset, [])
      else on_ok r.0
          (if is_empty r.1
            then some (ok, end_pos, [])
            else on_end found.scan_end
                (if not (is_empty found.recs)
                  then some (ok, offset', found.recs)
                  else if length found.rest == length r.1
                  then some (ok, end_pos, [])
                  else again)
                (some (ok, next_file, found.recs)) none)
          (some (r.0, offset, []))

  unfoldable pub read_rec_list : ℕ → ℕ → ℕ → CommitLogFile N → Option (PdbErr × ℕ × List LogRecInfo)
  read_rec_list fuel offset buf_size s =
      let begin_pos = get_file_begin_pos s in
      read_loop fuel (if ltb offset begin_pos then begin_pos else offset) buf_size s
