-- ===== src/Log/Recover/Open.antt =====
-- Opening a file that begins with the head that CreateLogFile writes
-- (src/pinusdb/commitlog/commit_log_file.cpp).
use pinusdb.Prelude.{
  ℕ, ◌^◌, ◌≤◌, ◌<◌, ◌≡◌, refl, sym, ap, ◌∙◌, true, false, List, [], ◌++◌, some, arith, length, take,
  drop, get_or, ◌==◌, ==_iff, leb, ltb, ge→ltb, length-append, take-append_all, take_all, drop_all,
}
use pinusdb.Value.{ok}
use pinusdb.StringTool.{crc32}
use pinusdb.Coding.{fixed_encode16, fixed_encode32, fixed_encode64, fixed_decode32, bytes_of}
use pinusdb.Coding.RoundTrip.{of_bytes-bytes_of}
use pinusdb.Log.{NormalFile, CommitLogFile, cmt_log_file_size}
use pinusdb.Log.Stream.{FileLaws, IsStored, stored, stream}
use pinusdb.Log.Records.{with_crc, file_head, file_ver}
use pinusdb.Log.Recover.{open_log_file, rec_file_info_len}
use pinusdb.Log.Recover.Points.{with_crc_lem}
use pinusdb.Log.Recover.Last.{length-file_head}
use mathlib.Core.List.{append-nil}

module _ {N : NormalFile} (F : FileLaws N) where
  -- What is opened.
  abbrev opened_log : N.File → ℕ → CommitLogFile N
  opened_log f file_code = record {
    read_only = true;
    file_code = file_code;
    file = f;
    file_size = length (N.contents f);
    cache_vec = [];
    write_buf = [];
  }

  opened_log-IsStored :
      (f : N.File) (file_code : ℕ)
      → IsStored (opened_log f file_code) × (stream (opened_log f file_code) ≡ N.contents f)
  unfolding IsStored stream stored
  opened_log-IsStored f file_code =
      let whole = take_all (length (N.contents f)) (N.contents f) (omega arith) in
      (
        (
          omega arith,
          omega arith,
          (
            refl,
            sym (
                drop_all (length (stored (opened_log f file_code)))
                  (stored (opened_log f file_code)) (omega arith)),
          ),
        ),
        append-nil _ ∙ whole,
      )

  -- The head is read back.
  head_lem :
      (f : N.File) (file_code sync_pos : ℕ) (body : List ℕ)
      → N.contents f ≡ file_head file_code sync_pos ++ body
      → (N.read f 0 rec_file_info_len).0 ≡ ok
      → (N.read f 0 rec_file_info_len).1 ≡ file_head file_code sync_pos
  head_lem f file_code sync_pos body w e =
      let head = file_head file_code sync_pos in
      let head_len = length-file_head file_code sync_pos in
      F.read_ok f 0 rec_file_info_len
        (omega (arith, ap length w, length-append head body, head_len)) e
      ∙ ap (take 36) w
      ∙ ap (λ m. take m (head ++ body)) (sym head_len)
      ∙ take-append_all head body

  head_checks :
      (file_code sync_pos : ℕ)
      → file_code < 2 ^ 32
      → (let head = file_head file_code sync_pos in
          ((fixed_decode32 head == crc32 (take 32 (drop 4 head))) ≡ true)
          × ((get_or head 7 0 == file_ver) ≡ true)
          × (fixed_decode32 (drop 8 head) ≡ file_code))
  unfolding file_head with_crc fixed_encode16 fixed_encode32 fixed_encode64 fixed_decode32 bytes_of
  head_checks file_code sync_pos h =
      let head = file_head file_code sync_pos in
      (
        (==_iff (fixed_decode32 head) (crc32 (take 32 (drop 4 head)))).1 (
            ap fixed_decode32 (sym (append-nil head))
            ∙ with_crc_lem (drop 4 head) []
            ∙ ap (λ l. crc32 (take 32 (drop 4 l))) (append-nil head)),
        refl,
        of_bytes-bytes_of 4 file_code (drop 12 head) h,
      )

  -- A file of the log that begins with the head that CreateLogFile writes for the code, and holds
  -- more, is opened if it can be read: the log is read-only,
  -- of that code, well-formed, and holds the bytes of the file.
  pub open_log_file-file_head :
      (f : N.File) (file_code sync_pos : ℕ) (body : List ℕ)
      → file_code < 2 ^ 32
      → N.contents f ≡ file_head file_code sync_pos ++ body
      → 0 < length body
      → length (N.contents f) ≤ cmt_log_file_size
      → (N.read f 0 rec_file_info_len).0 ≡ ok
      → (s : CommitLogFile N) × (open_log_file (ok, length (N.contents f)) (ok, f) file_code
          ≡ (ok, some s))
        × (s.read_only ≡ true)
        × (s.file_code ≡ file_code)
        × IsStored s
        × (stream s ≡ N.contents f)
  unfolding open_log_file
  open_log_file-file_head f file_code sync_pos body h w more size e =
      let (k, t) = opened_log-IsStored f file_code in
      let (c1, c2, c3) = head_checks file_code sync_pos h in
      let len : 36 < length (N.contents f) = omega (
        arith,
        ap length w,
        length-append (file_head file_code sync_pos) body,
        length-file_head file_code sync_pos,
      ) in
      let read_is : N.read f 0 rec_file_info_len ≡ (ok, file_head file_code sync_pos) =
        λ i. (e i, head_lem f file_code sync_pos body w e i) in
      let big : leb (length (N.contents f)) rec_file_info_len ≡ false = ground arith in
      let small : ltb cmt_log_file_size (length (N.contents f)) ≡ false =
        ge→ltb cmt_log_file_size (length (N.contents f)) size in
      (
        opened_log f file_code,
        rw big (
            rw small
              (rw read_is (rw c1 (rw c2 (rw c3 (rw ((==_iff file_code file_code).1 refl) refl)))))),
        refl,
        refl,
        k,
        t,
      )
