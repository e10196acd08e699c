-- ===== src/Log/Tests.antt =====
-- A log on a file that is a list of bytes and reports no error.
use pinusdb.Prelude.{
  ℕ, ◌+◌, ◌<◌, ◌≡◌, refl, false, List, [], ◌∷◌, ◌++◌, arith, length, take, drop, take_all,
  length-append, length-take_le,
}
use pinusdb.Value.{ok}
use pinusdb.Log.{
  NormalFile, CommitLogFile, cmt_log_file_size, append_record, read, get_file_size, sync,
  close_write,
}
use pinusdb.Log.Records.{append_sync}
use pinusdb.Log.Stream.{FileLaws, IsStored, stored, stream, Appends}
use pinusdb.Log.Appends.{append_record_lem, append-bounds, sync_lem, Syncs}

abbrev pub MemFile : NormalFile
MemFile = record {
  File = List ℕ;
  contents = λ f. f;
  write = λ f off b. (ok, take off f ++ b);
  read = λ f off n. (ok, take n (drop off f));
  sync = λ f. (ok, f);
}

pub MemFile-FileLaws : FileLaws MemFile
MemFile-FileLaws = record {
  write_ok = λ f off b h e.
      take_all (off + length b) (take off f ++ b)
        (omega (arith, length-append (take off f) b, length-take_le off f));
  write_fail = λ f off b h e. absurd (e refl);
  read_ok = λ f off n h e. refl;
  sync_keeps = λ f. refl;
}

abbrev pub new_log : CommitLogFile MemFile
new_log = record {
  read_only = false;
  file_code = 1;
  file = [];
  file_size = 0;
  cache_vec = [];
  write_buf = [];
}

pub new_log-IsStored : IsStored new_log
unfolding IsStored stored
new_log-IsStored = (omega arith, omega arith, (refl, refl))

-- Two bytes in the file and the cache, two in the file alone, and one in the write buffer.
abbrev some_log : CommitLogFile MemFile
some_log = record {
  read_only = false;
  file_code = 1;
  file = 1 ∷ 2 ∷ 3 ∷ 4 ∷ [];
  file_size = 4;
  cache_vec = (record { cache_offset = 2; cache = 3 ∷ 4 ∷ [] }) ∷ [];
  write_buf = 5 ∷ [];
}

some_log-IsStored : IsStored some_log
unfolding IsStored stored
some_log-IsStored = (omega arith, omega arith, ((refl, refl), refl))

append_record_lem_example :
    Appends some_log ((7 ∷ 8 ∷ []) ++ (9 ∷ [])) (append_record (7 ∷ 8 ∷ []) (9 ∷ []) some_log)
append_record_lem_example =
    append_record_lem MemFile-FileLaws (7 ∷ 8 ∷ []) (9 ∷ []) some_log some_log-IsStored

abbrev head_27 : List ℕ
head_27 =
    0 ∷ 0 ∷ 0 ∷ 0 ∷ 0 ∷ 0 ∷ 0 ∷ 0 ∷ 0 ∷ 0 ∷ 0 ∷ 0 ∷ 0 ∷ 0 ∷ 0 ∷ 0 ∷ 0 ∷ 0 ∷ 0 ∷ 0 ∷ 0 ∷ 0 ∷ 0 ∷ 0
    ∷ 0 ∷ 0 ∷ 0 ∷ []

append-bounds_example :
    (get_file_size ((append_record head_27 (9 ∷ []) some_log).1) < cmt_log_file_size)
    × (get_file_size ((append_sync 77 some_log).1) < cmt_log_file_size)
append-bounds_example =
    append-bounds MemFile-FileLaws head_27 (9 ∷ []) 77 some_log some_log-IsStored refl (omega arith)

sync_lem_example :
    Syncs some_log (sync some_log)
    × (IsStored ((close_write some_log).1)
        × (stream ((close_write some_log).1) ≡ stream some_log)
        × (false ≡ false
            → (close_write some_log).0 ≡ ok
            → stored ((close_write some_log).1) ≡ stream some_log))
sync_lem_example = sync_lem MemFile-FileLaws some_log some_log-IsStored
