-- ===== src/Log/Files/Bytes.antt =====
-- The bytes of all the files of the log (src/pinusdb/commitlog/commit_log_list.cpp), and what a call
-- adds to them.
use pinusdb.Prelude.{
  suc, ℕ, ◌≡◌, refl, sym, ap, ◌∙◌, true, false, List, [], ◌∷◌, ◌++◌, Option, Bool, none, some,
  arith, length, All, ◌≤◌, leb→le, if◌then◌else◌, leb, ◌+◌, if_cases,
}
use pinusdb.Value.{PdbErr, ok}
use pinusdb.Log.{
  NormalFile, CommitLogFile, pos, free_cache, write_buffer_size, cmt_log_file_size, rec_data_len,
}
use pinusdb.Log.Stream.{IsStored, stored, stream, Appends}
use pinusdb.Log.Read.{length-stream}
use pinusdb.Log.Records.{file_head}
use pinusdb.Log.Recover.Last.{length-file_head}
use pinusdb.Log.Files.{CommitLogList, is_full, log_file_vec, free_old}
use mathlib.Core.List.{append_assoc, append-nil}

module _ {N : NormalFile} where
  -- The bytes of files that follow each other, and those of the log.
  abbrev pub bytes_of_files : List (CommitLogFile N) → List ℕ
  bytes_of_files [] = []
  bytes_of_files (f ∷ fs) = stream f ++ bytes_of_files fs

  abbrev pub total : CommitLogList N → List ℕ
  total l = bytes_of_files (log_file_vec l)

  -- A file whose bytes have all been written out.
  abbrev pub IsFlushed : CommitLogFile N → Type 0
  IsFlushed f = f.write_buf ≡ []

  -- The file that is written, if there is one, is well-formed.
  abbrev pub LastIsStored : Option (CommitLogFile N) → Type 0
  LastIsStored none = Unit
  LastIsStored (some w) = IsStored w

  pub bytes-push :
      (fs : List (CommitLogFile N)) (f : CommitLogFile N)
      → bytes_of_files (fs ++ (f ∷ [])) ≡ bytes_of_files fs ++ stream f
  bytes-push [] f = append-nil (stream f)
  bytes-push (g ∷ fs) f =
      ap (λ l. stream g ++ l) (bytes-push fs f)
      ∙ sym (append_assoc (stream g) (bytes_of_files fs) (stream f))

  stream-free_cache : (f : CommitLogFile N) → IsFlushed f → stream (free_cache f) ≡ stream f
  unfolding free_cache stream stored
  stream-free_cache f h =
      if_cases (λ (g : CommitLogFile N). stream g ≡ stream f) f.read_only
        (λ _. ap (λ l. stored f ++ l) (sym h)) (λ _. refl)

  pub bytes-free_old :
      (fs : List (CommitLogFile N)) (f : CommitLogFile N)
      → All IsFlushed fs
      → bytes_of_files (free_old (fs ++ (f ∷ []))) ≡ bytes_of_files (fs ++ (f ∷ []))
  bytes-free_old [] f h = refl
  bytes-free_old (a ∷ []) f (h, _) = ap (λ l. l ++ (stream f ++ [])) (stream-free_cache a h)
  bytes-free_old (a ∷ b ∷ []) f (h, hs) = ap (λ l. stream a ++ l) (bytes-free_old (b ∷ []) f hs)
  bytes-free_old (a ∷ b ∷ c ∷ fs) f (h, hs) =
      ap (λ l. stream a ++ l) (bytes-free_old (b ∷ c ∷ fs) f hs)

  -- A new file with the bytes `b`.
  abbrev pub IsMade : List ℕ → PdbErr × CommitLogFile N → Type 0
  IsMade b r = r.0 ≡ ok → IsStored r.1 × (stream r.1 ≡ b)

  -- The file has no room for `n` more bytes.
  abbrev pub no_room : ℕ → CommitLogFile N → Bool
  no_room n w = leb cmt_log_file_size (w.file_size + pos w + n)

  -- `b` stands behind the log and the head of a new file.
  abbrev pub AddsHead : CommitLogList N → List ℕ → PdbErr × CommitLogList N → Type 0
  AddsHead l b r =
      (file_code : ℕ) × (total r.1 ≡ total l ++ (file_head file_code l.cur_sync_pos ++ b))

  abbrev AddsTo :
      Option (CommitLogFile N) → CommitLogList N → ℕ → List ℕ → PdbErr × CommitLogList N → Type 0
  AddsTo none l n b r = AddsHead l b r
  AddsTo (some w) l n b r = if no_room n w then AddsHead l b r else total r.1 ≡ total l ++ b

  -- The result of a call that adds `b` to the log, which takes `n` bytes of a file: behind the head
  -- of a new file exactly if no file is written or the one that is has no room.
  abbrev pub Adds : CommitLogList N → ℕ → List ℕ → PdbErr × CommitLogList N → Type 0
  Adds l n b r = r.0 ≡ ok → AddsTo l.write_log l n b r

  -- What the list of files needs of an operation on the file that is written.
  abbrev pub Adding : ℕ → List ℕ → (CommitLogFile N → PdbErr × CommitLogFile N) → Type 0
  Adding n b op =
      (s : CommitLogFile N)
      → IsStored s
      → Appends s b (op s)
        × (is_full ((op s).0) ≡ true
            → ((op s).1 ≡ s) × (no_room n s ≡ true) × (n ≤ rec_data_len + write_buffer_size))
        × ((op s).0 ≡ ok → no_room n s ≡ false)

  -- The file that was written, closed, and the list with a new file.
  abbrev pub closed_with : CommitLogList N → CommitLogFile N → CommitLogList N
  closed_with l f = record l { log_files = l.log_files ++ (f ∷ []); write_log = none }

  abbrev pub renewed : CommitLogList N → ℕ → CommitLogFile N → CommitLogList N
  renewed l code w = record l {
    next_file_code = suc code;
    log_files = free_old (log_file_vec l);
    write_log = some w;
  }

  abbrev pub IsNew : CommitLogList N → PdbErr × CommitLogList N → Type 0
  IsNew l r =
      r.0 ≡ ok
      → (code : ℕ) × (w : CommitLogFile N) × (r.1 ≡ renewed l code w)
        × IsStored w
        × (stream w ≡ file_head code l.cur_sync_pos)

  pub bytes-free_flushed :
      (fs : List (CommitLogFile N))
      → All IsFlushed fs
      → bytes_of_files (free_old fs) ≡ bytes_of_files fs
  bytes-free_flushed [] h = refl
  bytes-free_flushed (a ∷ []) h = refl
  bytes-free_flushed (a ∷ b ∷ []) (h, _) = ap (λ l. l ++ (stream b ++ [])) (stream-free_cache a h)
  bytes-free_flushed (a ∷ b ∷ c ∷ fs) (h, hs) =
      ap (λ l. stream a ++ l) (bytes-free_flushed (b ∷ c ∷ fs) hs)

  pub added_behind :
      (files : List (CommitLogFile N)) (w : CommitLogFile N) (head b x : List ℕ)
      → bytes_of_files (free_old files) ≡ bytes_of_files files
      → stream w ≡ head
      → x ≡ bytes_of_files (free_old files ++ (w ∷ [])) ++ b
      → x ≡ bytes_of_files files ++ (head ++ b)
  added_behind files w head b x same t e =
      e
      ∙ ap (λ y. y ++ b) (bytes-push (free_old files) w)
      ∙ ap (λ y. (y ++ stream w) ++ b) same
      ∙ ap (λ y. (bytes_of_files files ++ y) ++ b) t
      ∙ append_assoc (bytes_of_files files) head b

  -- A file that holds its head has room.
  pub head-room :
      (w : CommitLogFile N) (code sync_pos n : ℕ)
      → IsStored w
      → stream w ≡ file_head code sync_pos
      → n ≤ rec_data_len + write_buffer_size
      → no_room n w ≡ true
      → ⊥
  head-room w code sync_pos n k t small full =
      let l = length-stream w k in
      let m = ap length t ∙ length-file_head code sync_pos in
      let big = leb→le cmt_log_file_size (w.file_size + pos w + n) full in
      omega (arith, l, m, big, small)
