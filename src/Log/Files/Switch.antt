-- ===== src/Log/Files/Switch.antt =====
-- The bytes of all the files of the log, when one is full and the next is made
-- (src/pinusdb/commitlog/commit_log_list.cpp).
use pinusdb.Prelude.{
  min, take, drop, ◌-◌, ℕ, ◌≡◌, ◌≢◌, refl, ap, ◌∙◌, true, false, List, ◌++◌, Option, arith, length,
  All, ◌≤◌, ltb, leb, ◌==◌, ◌||◌, ◌+◌, if_cases,
}
use pinusdb.Value.{
  PdbErr, ok, logfile_full, invalid_param, dev_not_found, idx_not_found, record_exist, page_fill,
  ioerr, file_not_found, data_log_error, data_log_ver_error, data_filecode_error, file_readonly,
  nomem, result_full, task_cancel, sql_condition_expr_error, value_mismatch, record_fail,
  table_field_mismatch, invalid_blob_val, on_ok_cases,
}
use pinusdb.Log.{
  NormalFile, CommitLogFile, pos, append, append_record, flush_buffer, write_buffer_size,
  cmt_log_file_size, rec_data_len, rec_sync_len,
}
use pinusdb.Log.Stream.{FileLaws}
use pinusdb.Log.Appends.{append_record_lem, append_sync_lem}
use pinusdb.Log.Records.{append_rec, append_sync, sync_record, rec_head}
use pinusdb.Log.Files.{LogDir, CommitLogList, is_full, list_append_rec, append_point}
use pinusdb.Log.Files.Bytes.{IsFlushed, LastIsStored, no_room, Adds, Adding}
use pinusdb.Log.Files.Added.{append_last-Adds}

is_full_lem : (e : PdbErr) → is_full e ≡ true → e ≡ logfile_full
is_full_lem logfile_full h = refl
is_full_lem ok h = absurd (cc h)
is_full_lem invalid_param h = absurd (cc h)
is_full_lem dev_not_found h = absurd (cc h)
is_full_lem idx_not_found h = absurd (cc h)
is_full_lem record_exist h = absurd (cc h)
is_full_lem page_fill h = absurd (cc h)
is_full_lem ioerr h = absurd (cc h)
is_full_lem file_not_found h = absurd (cc h)
is_full_lem data_log_error h = absurd (cc h)
is_full_lem data_log_ver_error h = absurd (cc h)
is_full_lem data_filecode_error h = absurd (cc h)
is_full_lem file_readonly h = absurd (cc h)
is_full_lem nomem h = absurd (cc h)
is_full_lem result_full h = absurd (cc h)
is_full_lem task_cancel h = absurd (cc h)
is_full_lem sql_condition_expr_error h = absurd (cc h)
is_full_lem value_mismatch h = absurd (cc h)
is_full_lem record_fail h = absurd (cc h)
is_full_lem table_field_mismatch h = absurd (cc h)
is_full_lem invalid_blob_val h = absurd (cc h)

module _ {N : NormalFile} where
  module _ (F : FileLaws N) where
    module _
        (no_full : (f : N.File) (off : ℕ) (bs : List ℕ) → (N.write f off bs).0 ≢ logfile_full) where
      NotFull : PdbErr × CommitLogFile N → Type 0
      NotFull r = r.0 ≢ logfile_full

      flush_buffer-NotFull : (s : CommitLogFile N) → NotFull (flush_buffer s)
      unfolding flush_buffer NotFull
      flush_buffer-NotFull s =
          if_cases NotFull (pos s == 0) (λ _ h. absurd (cc h))
            (λ _.
              on_ok_cases NotFull ((N.write s.file s.file_size s.write_buf).0)
                (λ _ h. absurd (cc h)) (λ _. no_full s.file s.file_size s.write_buf))

      append-NotFull : (bs : List ℕ) (s : CommitLogFile N) → NotFull (append bs s)
      unfolding append NotFull
      append-NotFull bs s =
          let n = min (length bs) (write_buffer_size - pos s) in
          let s1 = record s { write_buf = s.write_buf ++ take n bs } in
          if_cases NotFull (ltb write_buffer_size (length bs)) (λ _ h. absurd (cc h))
            (λ _.
              if_cases NotFull s.read_only (λ _ h. absurd (cc h))
                (λ _.
                  if_cases NotFull (length (drop n bs) == 0) (λ _ h. absurd (cc h))
                    (λ _.
                      on_ok_cases NotFull ((flush_buffer s1).0) (λ _ h. absurd (cc h))
                        (λ _. flush_buffer-NotFull s1))))

      -- Nothing follows where the code would be that of a full log.
      full_or_not : {A : Type 0} (r : PdbErr × CommitLogFile N) → NotFull r → is_full r.0 ≡ true → A
      unfolding NotFull
      full_or_not r n h = absurd (n (is_full_lem r.0 h))

      append_rec-Adding :
          (tab_crc meta_crc rec_type dev_id : ℕ) (rec : List ℕ)
          → Adding {N = N}
              (rec_data_len + length rec)
              (rec_head tab_crc meta_crc rec_type dev_id rec ++ rec)
              (append_rec tab_crc meta_crc rec_type dev_id rec)
      unfolding append_rec append_record
      append_rec-Adding tab_crc meta_crc rec_type dev_id rec s k =
          let head = rec_head tab_crc meta_crc rec_type dev_id rec in
          let first = append head s in
          let n = rec_data_len + length rec in
          let refused = (length rec == 0) || ltb write_buffer_size (length rec) in
          let full = leb cmt_log_file_size (s.file_size + pos s + rec_data_len + length rec) in
          let same : no_room n s ≡ full = ap (leb cmt_log_file_size) (omega arith) in
          let Kept : PdbErr × CommitLogFile N → Type 0 = λ r.
            is_full r.0 ≡ true
            → (r.1 ≡ s) × (no_room n s ≡ true) × (n ≤ rec_data_len + write_buffer_size) in
          let Room : PdbErr × CommitLogFile N → Type 0 = λ r. r.0 ≡ ok → no_room n s ≡ false in
          (
            append_record_lem F head rec s k,
            if_cases Kept refused (λ _ h. absurd (cc h))
                (λ e.
                  if_cases Kept full (λ f _. (refl, same ∙ f, ground (arith, e)))
                    (λ _.
                      on_ok_cases Kept (first.0)
                        (λ _. full_or_not (append rec (first.1)) (append-NotFull rec (first.1)))
                        (λ _. full_or_not first (append-NotFull head s)))),
            if_cases Room refused (λ _ h. absurd (cc h))
                (λ _. if_cases Room full (λ _ h. absurd (cc h)) (λ f _. same ∙ f)),
          )

      append_sync-Adding :
          (sync_pos : ℕ) → Adding {N = N} rec_sync_len (sync_record sync_pos) (append_sync sync_pos)
      unfolding append_sync
      append_sync-Adding sync_pos s k =
          let full = no_room rec_sync_len s in
          let Kept : PdbErr × CommitLogFile N → Type 0 = λ r.
            is_full r.0 ≡ true
            → (r.1 ≡ s) × (full ≡ true) × (rec_sync_len ≤ rec_data_len + write_buffer_size) in
          let Room : PdbErr × CommitLogFile N → Type 0 = λ r. r.0 ≡ ok → full ≡ false in
          (
            append_sync_lem F sync_pos s k,
            if_cases Kept full (λ f _. (refl, f, omega arith))
                (λ _.
                  full_or_not (append (sync_record sync_pos) s)
                    (append-NotFull (sync_record sync_pos) s)),
            if_cases Room full (λ _ h. absurd (cc h)) (λ f _. f),
          )

      -- The files of the log together are a stream that only grows: an AppendRec that succeeds adds
      -- the head and the record behind the bytes of all the files, an AppendPoint the sync point;
      -- behind the head of a new file if no file was written or the one that was had no room for
      -- what is added, and directly otherwise. No file reports that the log is full, the file that
      -- is written, if there is one, is well-formed, and those behind it have nothing left in their
      -- write buffers.
      pub list_append-Adds :
          (tab_crc meta_crc rec_type dev_id : ℕ) (rec : List ℕ) (dir : LogDir N)
          (l : CommitLogList N) (last : Option (CommitLogFile N))
          → LastIsStored last
          → All IsFlushed l.log_files
          → (let l1 = record l { write_log = last } in
              Adds l1
                (rec_data_len + length rec)
                (rec_head tab_crc meta_crc rec_type dev_id rec ++ rec)
                (list_append_rec tab_crc meta_crc rec_type dev_id rec dir l1)
              × Adds l1 rec_sync_len (sync_record l.cur_sync_pos) (append_point dir l1))
      unfolding list_append_rec append_point
      list_append-Adds tab_crc meta_crc rec_type dev_id rec dir l last k flushed = (
        append_last-Adds F (rec_data_len + length rec)
            (rec_head tab_crc meta_crc rec_type dev_id rec ++ rec)
            (append_rec tab_crc meta_crc rec_type dev_id rec)
            (append_rec-Adding tab_crc meta_crc rec_type dev_id rec) dir l last k flushed,
        append_last-Adds F rec_sync_len (sync_record l.cur_sync_pos) (append_sync l.cur_sync_pos)
            (append_sync-Adding l.cur_sync_pos) dir l last k flushed,
      )
