-- ===== src/Log/Files/Added.antt =====
-- An operation on the file that is written (src/pinusdb/commitlog/commit_log_list.cpp) adds its bytes
-- to the log, perhaps behind the head of a new file.
use pinusdb.Prelude.{
  ℕ, ◌≡◌, refl, sym, ap, ◌∙◌, false, List, [], ◌∷◌, ◌++◌, Option, none, some, arith, All,
  if◌then◌else◌, if_cases,
}
use pinusdb.Value.{PdbErr, ok, on_ok, on_ok_cases, when_ok}
use pinusdb.Log.{NormalFile, CommitLogFile, close_write}
use pinusdb.Log.Stream.{FileLaws, IsStored, stored, stream, append_lem}
use pinusdb.Log.Appends.{sync_lem}
use pinusdb.Log.Records.{file_head}
use pinusdb.Log.Recover.{create_log_file}
use pinusdb.Log.Files.{
  LogDir, CommitLogList, is_full, free_old, new_log_file, append_with, write_with, free_code,
  close_log,
}
use mathlib.Core.Path.{subst}
use mathlib.Core.List.{append_assoc, append-nil}
use pinusdb.Log.Files.Bytes.{
  bytes_of_files, total, IsFlushed, LastIsStored, bytes-push, bytes-free_old, IsMade, AddsHead,
  Adds, Adding, closed_with, renewed, IsNew, bytes-free_flushed, added_behind, head-room,
}

module _ {N : NormalFile} where
  module _ (F : FileLaws N) where
    create_log_file-IsMade :
        (created : PdbErr × N.File) (file_code sync_pos : ℕ)
        → IsMade (file_head file_code sync_pos) (create_log_file {N = N} created file_code sync_pos)
    unfolding create_log_file IsStored stream stored
    create_log_file-IsMade created file_code sync_pos =
        let s : CommitLogFile N = record {
          read_only = false;
          file_code = file_code;
          file = created.1;
          file_size = 0;
          cache_vec = [];
          write_buf = [];
        } in
        let (k, c) =
          append_lem F (file_head file_code sync_pos) s (omega arith, omega arith, (refl, refl)) in
        on_ok_cases (IsMade (file_head file_code sync_pos)) (created.0) (λ _ e. (k, when_ok e c))
          (λ f e. absurd (f e))

    new_log_file-IsNew : (dir : LogDir N) (l : CommitLogList N) → IsNew l (new_log_file dir l)
    unfolding new_log_file
    new_log_file-IsNew dir l =
        let (code, path) = free_code dir 100 l.next_file_code l.next_file_code in
        let made = create_log_file (dir.create_file path) code l.cur_sync_pos in
        on_ok_cases (IsNew l) (made.0)
          (λ e _.
            let (k, t) = create_log_file-IsMade (dir.create_file path) code l.cur_sync_pos e in
            (code, made.1, refl, k, t))
          (λ g e. absurd (g e))

    module _ (n : ℕ) (b : List ℕ) (op : CommitLogFile N → PdbErr × CommitLogFile N)
        (adding : Adding n b op) where
      -- The operation on the file that is written.
      write_with-Adds :
          (l : CommitLogList N) (w : CommitLogFile N)
          → IsStored w
          → (write_with op (record l { write_log = some w })).0 ≡ ok
          → total ((write_with op (record l { write_log = some w })).1)
            ≡ bytes_of_files (l.log_files ++ (w ∷ [])) ++ b
      write_with-Adds l w k e =
          let (_, c) = (adding w k).0 in
          bytes-push l.log_files ((op w).1)
          ∙ ap (λ x. bytes_of_files l.log_files ++ x) (when_ok e c)
          ∙ sym (append_assoc (bytes_of_files l.log_files) (stream w) b)
          ∙ ap (λ x. x ++ b) (sym (bytes-push l.log_files w))

      HeadAdds : CommitLogList N → PdbErr × CommitLogList N → Type 0
      HeadAdds l r = r.0 ≡ ok → AddsHead l b r

      new_log_file-Adds :
          (dir : LogDir N) (l : CommitLogList N) (f : CommitLogFile N)
          → All IsFlushed l.log_files
          → (let second = new_log_file dir (closed_with l f) in
              HeadAdds
                (closed_with l f)
                (on_ok second.0 (write_with op (second.1)) (second.0, second.1)))
      unfolding HeadAdds
      new_log_file-Adds dir l f flushed =
          let l1 = closed_with l f in
          let second = new_log_file dir l1 in
          let files = l.log_files ++ (f ∷ []) in
          let same : bytes_of_files (free_old (files ++ [])) ≡ bytes_of_files (files ++ []) =
            subst (λ fs. bytes_of_files (free_old fs) ≡ bytes_of_files fs) (sym (append-nil files))
              (bytes-free_old l.log_files f flushed) in
          on_ok_cases (HeadAdds l1) (second.0)
            (λ e.
              let (code, w, is, k, t) = new_log_file-IsNew dir l1 e in
              subst (λ x. HeadAdds l1 (write_with op x)) (sym is)
                (λ done. (
                  code,
                  added_behind (files ++ []) w (file_head code l.cur_sync_pos) b _ same t
                      (write_with-Adds (renewed l1 code w) w k done),
                )))
            (λ g e. absurd (g e))

      -- The first file.
      first_file-Adds :
          (dir : LogDir N) (l : CommitLogList N)
          → All IsFlushed l.log_files
          → (let l0 = record l { write_log = none } in Adds l0 n b (append_with op dir l0))
      unfolding append_with HeadAdds
      first_file-Adds dir l flushed =
          let l0 = record l { write_log = none } in
          let first = new_log_file dir l0 in
          let go : CommitLogList N → PdbErr × CommitLogList N = λ x.
            let r = write_with op x in
            let second = new_log_file dir (close_log r.1) in
            if is_full r.0
            then on_ok second.0 (write_with op (second.1)) (second.0, second.1)
            else r in
          on_ok_cases (HeadAdds l0) (first.0)
            (λ e.
              let (code, w, is, k, t) = new_log_file-IsNew dir l0 e in
              subst (λ x. HeadAdds l0 (go x)) (sym is)
                (if_cases (HeadAdds l0) (is_full ((op w).0))
                  (λ full.
                    let (_, none', small) = (adding w k).1 full in
                    absurd (head-room w code l.cur_sync_pos n k t small none'))
                  (λ _ done. (
                    code,
                    added_behind (l.log_files ++ []) w (file_head code l.cur_sync_pos) b _
                        (subst (λ fs. bytes_of_files (free_old fs) ≡ bytes_of_files fs)
                          (sym (append-nil l.log_files)) (bytes-free_flushed l.log_files flushed))
                        t (write_with-Adds (renewed l0 code w) w k done),
                  ))))
            (λ g e. absurd (g e))

      append_with-Adds :
          (dir : LogDir N) (l : CommitLogList N) (w : CommitLogFile N)
          → IsStored w
          → All IsFlushed l.log_files
          → (let l1 = record l { write_log = some w } in Adds l1 n b (append_with op dir l1))
      unfolding append_with HeadAdds
      append_with-Adds dir l w k flushed =
          let l1 = record l { write_log = some w } in
          let r = write_with op l1 in
          if_cases (Adds l1 n b) (is_full r.0)
            (λ full.
              let (stays, none', _) = (adding w k).1 full in
              let c = (close_write (op w).1).1 in
              let (_, same, _) = (sync_lem F ((op w).1) ((adding w k).0.0)).1 in
              let bytes : total (closed_with l c) ≡ total l1 =
                ap bytes_of_files (append-nil (l.log_files ++ (c ∷ [])))
                ∙ bytes-push l.log_files c
                ∙ ap (λ y. bytes_of_files l.log_files ++ y) (same ∙ ap stream stays)
                ∙ sym (bytes-push l.log_files w) in
              let second = new_log_file dir (closed_with l c) in
              let x = on_ok second.0 (write_with op (second.1)) (second.0, second.1) in
              let added =
                subst
                  (λ y.
                    x.0 ≡ ok
                    → (file_code : ℕ) × (total x.1
                        ≡ y ++ (file_head file_code l.cur_sync_pos ++ b)))
                  bytes (new_log_file-Adds dir l c flushed) in
              λ e. rw none' (added e))
            (λ _ e. rw ((adding w k).2 e) (write_with-Adds l w k e))

      pub append_last-Adds :
          (dir : LogDir N) (l : CommitLogList N) (last : Option (CommitLogFile N))
          → LastIsStored last
          → All IsFlushed l.log_files
          → (let l1 = record l { write_log = last } in Adds l1 n b (append_with op dir l1))
      append_last-Adds dir l none k flushed = first_file-Adds dir l flushed
      append_last-Adds dir l (some w) k flushed = append_with-Adds dir l w k flushed
