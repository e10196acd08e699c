-- ===== src/Log/Recover.antt =====
-- Creating and opening a file of the commit log, and the search for its last sync point:
-- CreateLogFile, OpenLogFile and RecoverPoint of src/pinusdb/commitlog/commit_log_file.cpp. The
-- results of the calls of Env are arguments.
mod Tests
pub mod Points
pub mod Last
pub mod Open
use pinusdb.Prelude.{
  ℕ, zero, suc, ◌+◌, ◌-◌, Bool, true, false, List, [], Option, none, some, length, take, drop,
  get_or, ltb, leb, ◌==◌, not, ◌||◌, if◌then◌else◌,
}
use pinusdb.Value.{PdbErr, ok, on_ok, data_log_error, data_log_ver_error, data_filecode_error}
use pinusdb.StringTool.{crc32}
use pinusdb.Coding.{fixed_decode16, fixed_decode32, fixed_decode64}
use pinusdb.Log.{NormalFile, CommitLogFile, cmt_log_file_size, append, read}
use pinusdb.Log.Records.{file_head, file_ver, is_empty, is_meta, rec_head_len}

-- kRecFileInfoLen, and kBufLen of RecoverPoint.
abbrev pub rec_file_info_len : ℕ
rec_file_info_len = 36

abbrev pub recover_buf_len : ℕ
recover_buf_len = 131072

-- How the loop of RecoverPoint over a buffer ends: with the position found and the bytes left, at a
-- checksum that is wrong, in a read outside the record, or not within its fuel.
pub data PointScan : Type 0 where
  point_reached : ℕ → List ℕ → PointScan
  point_corrupt : ℕ → PointScan
  point_overrun point_no_fuel : PointScan

-- A record that is not about the file is passed over without a look at its checksum.
unfoldable pub scan_point : ℕ → List ℕ → ℕ → PointScan
scan_point zero p sync_pos = point_no_fuel
scan_point (suc n) p sync_pos =
    let rec_len = fixed_decode16 (drop 5 p) in
    let found = fixed_decode64 (drop (rec_len - 24) p) in
    let with_found = scan_point n (drop rec_len p) found in
    let passed = scan_point n (drop rec_len p) sync_pos in
    if leb (length p) rec_head_len || ltb (length p) rec_len
    then point_reached sync_pos p
    else if is_meta (get_or p 4 0)
    then if ltb rec_len 4
      then point_overrun
      else if not (fixed_decode32 p == crc32 (take (rec_len - 4) (drop 4 p)))
      then point_corrupt sync_pos
      else if ltb rec_len 24
      then point_overrun
      else with_found
    else passed

abbrev pub on_point {ℓ} : {A : Type ℓ} → PointScan → (ℕ → List ℕ → A) → (ℕ → A) → A → A
on_point (point_reached sync_pos rest) f g a = f sync_pos rest
on_point (point_corrupt sync_pos) f g a = g sync_pos
on_point point_overrun f g a = a
on_point point_no_fuel f g a = a

module _ {N : NormalFile} where
  -- `none` where a read leaves its record or the fuel ends, in this loop or in the inner one.
  unfoldable pub recover_loop : ℕ → ℕ → ℕ → CommitLogFile N → Option (PdbErr × ℕ)
  recover_loop zero cur_pos sync_pos s = none
  recover_loop (suc n) cur_pos sync_pos s =
      let r = read cur_pos recover_buf_len s in
      on_ok r.0
        (if is_empty r.1
          then some (ok, sync_pos)
          else on_point (scan_point (suc (length r.1)) r.1 sync_pos)
              (λ found rest.
                let again = recover_loop n (cur_pos + (length r.1 - length rest)) found s in
                if length rest == length r.1 then some (ok, found) else again)
              (λ found. some (ok, found)) none)
        (some (r.0, sync_pos))

  unfoldable pub recover_point : ℕ → ℕ → CommitLogFile N → Option (PdbErr × ℕ)
  recover_point fuel sync_pos s = recover_loop fuel 0 sync_pos s

  -- CreateNormalFile has returned `created`. The constructor's state is the one before.
  unfoldable pub create_log_file : PdbErr × N.File → ℕ → ℕ → PdbErr × CommitLogFile N
  create_log_file created file_code sync_pos =
      let s : CommitLogFile N = record {
        read_only = false;
        file_code = file_code;
        file = created.1;
        file_size = 0;
        cache_vec = [];
        write_buf = [];
      } in
      on_ok created.0 (append (file_head file_code sync_pos) s) (created.0, s)

  -- GetFileSize has returned `size` and OpenNormalFile `opened`.
  unfoldable pub open_log_file :
      PdbErr × ℕ → PdbErr × N.File → ℕ → PdbErr × Option (CommitLogFile N)
  open_log_file size opened file_code =
      let buf = N.read opened.1 0 rec_file_info_len in
      let found = fixed_decode32 (drop 8 buf.1) in
      let s : CommitLogFile N = record {
        read_only = true;
        file_code = found;
        file = opened.1;
        file_size = size.1;
        cache_vec = [];
        write_buf = [];
      } in
      let checked : PdbErr × Option (CommitLogFile N) =
        if not (fixed_decode32 buf.1 == crc32 (take (rec_file_info_len - 4) (drop 4 buf.1)))
        then (data_log_error, none)
        else if not (get_or buf.1 7 0 == file_ver)
        then (data_log_ver_error, none)
        else if not (found == file_code)
        then (data_filecode_error, none)
        else (ok, some s) in
      on_ok size.0
        (if leb size.1 rec_file_info_len || ltb cmt_log_file_size size.1
          then (data_log_error, none)
          else on_ok opened.0 (on_ok buf.0 checked (data_log_error, none)) (opened.0, none))
        (size.0, none)
