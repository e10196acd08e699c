-- ===== src/Log/Recover/Tests.antt =====
-- A file of the log that is opened and recovered.
use pinusdb.Prelude.{true, ℕ, ◌≡◌, refl, List, [], ◌∷◌, ◌++◌, some, arith, length}
use pinusdb.Value.{ok}
use pinusdb.Coding.{
  bytes_of, of_bytes, fixed_encode16, fixed_encode32, fixed_encode64, fixed_decode16,
}
use pinusdb.Log.{CommitLogFile}
use pinusdb.Log.Stream.{IsStored, stream}
use pinusdb.Log.Tests.{MemFile, MemFile-FileLaws, new_log}
use pinusdb.Log.Records.{file_head, with_crc}
use pinusdb.Log.Records.Tests.{one_rec}
use pinusdb.Log.Recover.{point_no_fuel, scan_point, open_log_file}
use pinusdb.Log.Recover.Points.{Entry, data_entry, sync_entry, entries, scan_point-stuck}
use pinusdb.Log.Recover.Open.{open_log_file-file_head}

abbrev some_entries : List Entry
some_entries = sync_entry 99 ∷ data_entry one_rec ∷ []

abbrev bytes : List ℕ
bytes = file_head 1 5 ++ (entries some_entries ++ [])

abbrev with_sync : CommitLogFile MemFile
with_sync = record new_log { write_buf = bytes }

abbrev zero_len : List ℕ
zero_len = 0 ∷ 0 ∷ 0 ∷ 0 ∷ 3 ∷ 0 ∷ 0 ∷ 0 ∷ []

zero_len-decode : fixed_decode16 (0 ∷ 0 ∷ 0 ∷ []) ≡ 0
unfolding fixed_decode16 of_bytes
zero_len-decode = refl

scan_point-stuck_example : scan_point 1000 zero_len 5 ≡ point_no_fuel
scan_point-stuck_example = scan_point-stuck 1000 5 zero_len (omega arith) zero_len-decode refl

open_log_file-file_head_example :
    (s : CommitLogFile MemFile) × (open_log_file
        (ok, length (file_head 1 5 ++ (7 ∷ [])))
        (ok, file_head 1 5 ++ (7 ∷ []))
        1
      ≡ (ok, some s))
    × (s.read_only ≡ true)
    × (s.file_code ≡ 1)
    × IsStored s
    × (stream s ≡ file_head 1 5 ++ (7 ∷ []))
unfolding file_head with_crc fixed_encode16 fixed_encode32 fixed_encode64 bytes_of
open_log_file-file_head_example =
    open_log_file-file_head MemFile-FileLaws (file_head 1 5 ++ (7 ∷ [])) 1 5 (7 ∷ []) (omega arith)
      refl (omega arith) (omega arith) refl
