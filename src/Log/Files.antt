-- ===== src/Log/Files.antt =====
-- src/pinusdb/commitlog/commit_log_list.cpp: the files of the commit log. `pWriteLog_` points to the
-- last file of `logFileVec_` or is null, for only NewLogFile sets it, when it is null and behind the
-- others; so the state keeps the file that is written apart from those before it. The path of a file is
-- made of its code, and stands for it. Env is an interface, mutexes are left out.
mod Tests
pub mod Bytes
pub mod Added
pub mod Switch
pub mod Expired
use pinusdb.Prelude.{
  ℕ, zero, suc, ◌+◌, ◌-◌, ◌*◌, Bool, true, false, List, [], ◌∷◌, ◌++◌, Option, none, some, length,
  ltb, leb, ◌&&◌, if◌then◌else◌,
}
use pinusdb.Value.{PdbErr, ok, on_ok, logfile_full}
use pinusdb.Log.{
  NormalFile, CommitLogFile, cmt_log_file_size, get_file_begin_pos, get_file_end_pos, get_file_size,
  close_write, free_cache, sync,
}
use pinusdb.Log.Records.{LogRecInfo, append_rec, append_sync, read_rec_list, is_empty}
use pinusdb.Log.Recover.{create_log_file}

-- FileExists and CreateNormalFile on the path of a code.
pub record LogDir (N : NormalFile) : Type 0 where
  pub file_exists : ℕ → Bool
  pub create_file : ℕ → PdbErr × N.File

pub record CommitLogList (N : NormalFile) : Type 0 where
  pub next_file_code : ℕ
  pub cur_sync_pos : ℕ
  pub next_sync_pos : ℕ
  pub log_files : List (CommitLogFile N)
  pub write_log : Option (CommitLogFile N)

abbrev pub is_full : PdbErr → Bool
is_full logfile_full = true
is_full _ = false

module _ {N : NormalFile} where
  abbrev pub to_list : Option (CommitLogFile N) → List (CommitLogFile N)
  to_list none = []
  to_list (some w) = w ∷ []

  -- `logFileVec_`.
  abbrev pub log_file_vec : CommitLogList N → List (CommitLogFile N)
  log_file_vec l = l.log_files ++ to_list l.write_log

  -- `logFileVec_.back()`.
  abbrev pub back : List (CommitLogFile N) → Option (CommitLogFile N)
  back [] = none
  back (f ∷ fs) = elim (back fs) [ none ↦ some f | some g ↦ some g ]

  -- The loop of NewLogFile: the code, and the code of the path, which is one behind when all the
  -- codes that are tried are taken.
  abbrev pub free_code : LogDir N → ℕ → ℕ → ℕ → ℕ × ℕ
  free_code dir zero path code = (code, path)
  free_code dir (suc n) path code =
      let next = free_code dir n code (suc code) in
      if dir.file_exists code then next else (code, code)

  -- `logFileVec_[size - 3]->FreeCache()`, the vector being these files and the new one.
  abbrev pub free_old : List (CommitLogFile N) → List (CommitLogFile N)
  free_old [] = []
  free_old (f ∷ []) = f ∷ []
  free_old (f ∷ g ∷ []) = free_cache f ∷ g ∷ []
  free_old (f ∷ g ∷ h ∷ fs) = f ∷ free_old (g ∷ h ∷ fs)

  unfoldable pub new_log_file : LogDir N → CommitLogList N → PdbErr × CommitLogList N
  new_log_file dir l =
      let (code, path) = free_code dir 100 l.next_file_code l.next_file_code in
      let made = create_log_file (dir.create_file path) code l.cur_sync_pos in
      on_ok made.0
        (
          ok,
          record l {
            next_file_code = suc code;
            log_files = free_old (log_file_vec l);
            write_log = some (made.1);
          },
        )
        (made.0, record l { next_file_code = code })

  -- What AppendRec and AppendPoint do with the file that is written.
  abbrev pub write_with :
      (CommitLogFile N → PdbErr × CommitLogFile N) → CommitLogList N → PdbErr × CommitLogList N
  write_with op l = elim l.write_log [
    | none ↦ (ok, l)
    | some w ↦ let r = op w in (r.0, record l { write_log = some (r.1) })
  ]

  -- `pWriteLog_->CloseWrite(); pWriteLog_ = nullptr;`
  abbrev pub close_log : CommitLogList N → CommitLogList N
  close_log l = elim l.write_log [
    | none ↦ l
    | some w ↦ record l { log_files = l.log_files ++ (((close_write w).1) ∷ []); write_log = none }
  ]

  abbrev pub is_none : Option (CommitLogFile N) → Bool
  is_none none = true
  is_none (some w) = false

  -- A file is made if there is none, and another if the file is full.
  unfoldable pub append_with :
      (CommitLogFile N → PdbErr × CommitLogFile N)
      → LogDir N
      → CommitLogList N
      → PdbErr × CommitLogList N
  append_with op dir l =
      let first = if is_none l.write_log then new_log_file dir l else (ok, l) in
      let r = write_with op (first.1) in
      let second = new_log_file dir (close_log r.1) in
      on_ok first.0
        (if is_full r.0 then on_ok second.0 (write_with op (second.1)) (second.0, second.1) else r)
        (first.0, first.1)

  unfoldable pub list_append_rec :
      ℕ → ℕ → ℕ → ℕ → List ℕ → LogDir N → CommitLogList N → PdbErr × CommitLogList N
  list_append_rec tab_crc meta_crc rec_type dev_id rec dir l =
      append_with (append_rec tab_crc meta_crc rec_type dev_id rec) dir l

  unfoldable pub append_point : LogDir N → CommitLogList N → PdbErr × CommitLogList N
  append_point dir l = append_with (append_sync l.cur_sync_pos) dir l

  -- The loop of RemoveExpiredLog: the files that are deleted and those that stay. The file that is
  -- written is not read-only, which ends the loop.
  abbrev pub expired_loop :
      ℕ → List (CommitLogFile N) → List (CommitLogFile N) × List (CommitLogFile N)
  expired_loop min_pos [] = ([], [])
  expired_loop min_pos (f ∷ fs) =
      let rest = expired_loop min_pos fs in
      if f.read_only && leb (get_file_end_pos f) min_pos then (f ∷ rest.0, rest.1) else ([], f ∷ fs)

  unfoldable pub remove_expired_log : CommitLogList N → CommitLogList N
  remove_expired_log l = record l { log_files = (expired_loop l.cur_sync_pos l.log_files).1 }

  unfoldable pub make_sync_point : CommitLogList N → CommitLogList N
  make_sync_point l = elim (back (log_file_vec l)) [
    | none ↦ l
    | some f ↦ record l { next_sync_pos = get_file_end_pos f }
  ]

  unfoldable pub commit_sync_point : LogDir N → CommitLogList N → CommitLogList N
  commit_sync_point dir l =
      remove_expired_log ((append_point dir (record l { cur_sync_pos = l.next_sync_pos })).1)

  unfoldable pub shutdown : LogDir N → CommitLogList N → CommitLogList N
  shutdown dir l =
      let closed = close_log (commit_sync_point dir (make_sync_point l)) in
      remove_expired_log (elim (back (log_file_vec closed)) [
        | none ↦ closed
        | some f ↦ record closed { cur_sync_pos = get_file_end_pos f }
      ])

  unfoldable pub need_sync_all_page : CommitLogList N → Bool
  need_sync_all_page l = elim (back (log_file_vec l)) [
    | none ↦ false
    | some f ↦ ltb l.cur_sync_pos (get_file_begin_pos f)
  ]

  unfoldable pub sync_log_file : CommitLogList N → CommitLogList N
  sync_log_file l = (write_with sync l).1

  -- `nextFileCode_ - 2` is 0 where it would be negative.
  unfoldable pub get_log_position : CommitLogList N → ℕ
  get_log_position l =
      (l.next_file_code - 2) * cmt_log_file_size
      + elim l.write_log [ none ↦ 0 | some w ↦ get_file_size w ]

  -- The first file that ends behind the position.
  abbrev pub file_behind : ℕ → List (CommitLogFile N) → Option (CommitLogFile N)
  file_behind sync_pos [] = none
  file_behind sync_pos (f ∷ fs) =
      let rest = file_behind sync_pos fs in
      if ltb sync_pos (get_file_end_pos f) then some f else rest

  -- On fuel, which the call of ReadRecList takes too; the state that changes is `nextSyncPos_`.
  unfoldable pub get_redo_rec_list :
      ℕ → ℕ → CommitLogList N → Option (List LogRecInfo × CommitLogList N)
  get_redo_rec_list zero buf_size l = none
  get_redo_rec_list (suc n) buf_size l = elim (file_behind l.next_sync_pos (log_file_vec l)) [
    | none ↦ some ([], l)
    | some f ↦ elim (read_rec_list n l.next_sync_pos buf_size f) [
      | none ↦ none
      | some r ↦
          let moved = record l { next_sync_pos = on_ok r.0 (r.1) (get_file_end_pos f) } in
          let again = get_redo_rec_list n buf_size moved in
          if is_empty (r.2) then again else some (r.2, moved)
    ]
  ]
