-- ===== src/Log/Files/Tests.antt =====
-- A full file, and a new one behind it.
use pinusdb.Prelude.{refl, ℕ, ◌≡◌, ◌≢◌, false, true, List, [], ◌∷◌, ◌++◌, some, none}
use pinusdb.Value.{ok, logfile_full}
use pinusdb.Log.{CommitLogFile}
use pinusdb.Log.Tests.{MemFile, MemFile-FileLaws, new_log, new_log-IsStored}
use pinusdb.Log.Records.{rec_head, sync_record}
use pinusdb.Log.Files.{LogDir, CommitLogList, list_append_rec, append_point, remove_expired_log}
use pinusdb.Log.Files.Bytes.{Adds}
use pinusdb.Log.Files.Switch.{list_append-Adds}
use pinusdb.Log.Files.Expired.{IsCut, remove_expired_log_lem}

abbrev empty_dir : LogDir MemFile
empty_dir = record { file_exists = λ code. false; create_file = λ code. (ok, []) }

abbrev old_log : CommitLogFile MemFile
old_log = record new_log { read_only = true; file = 1 ∷ 2 ∷ []; file_size = 2 }

abbrev some_list : CommitLogList MemFile
some_list = record {
  next_file_code = 3;
  cur_sync_pos = 2;
  next_sync_pos = 2;
  log_files = old_log ∷ [];
  write_log = none;
}

no_full : (f : List ℕ) (off : ℕ) (bs : List ℕ) → (MemFile.write f off bs).0 ≢ logfile_full
no_full f off bs h = absurd (cc h)

list_append-Adds_example :
    (let l1 = record some_list { write_log = some new_log } in
      Adds l1 29
        (rec_head 5 6 3 7 (1 ∷ 2 ∷ []) ++ (1 ∷ 2 ∷ []))
        (list_append_rec 5 6 3 7 (1 ∷ 2 ∷ []) empty_dir l1)
      × Adds l1 31 (sync_record 2) (append_point empty_dir l1))
list_append-Adds_example =
    list_append-Adds MemFile-FileLaws no_full 5 6 3 7 (1 ∷ 2 ∷ []) empty_dir some_list
      (some new_log) new_log-IsStored (refl, tt)

remove_expired_log_lem_example :
    (gone : List (CommitLogFile MemFile)) × IsCut 2
      (old_log ∷ [])
      (gone, (remove_expired_log some_list).log_files)
    × ((remove_expired_log some_list).write_log ≡ none)
    × ((remove_expired_log some_list).cur_sync_pos ≡ 2)
remove_expired_log_lem_example = remove_expired_log_lem some_list
