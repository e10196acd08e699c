-- ===== src/Log/Appends.antt =====
-- AppendRecord, AppendSync, Sync and CloseWrite of src/pinusdb/commitlog/commit_log_file.cpp on the
-- stream of bytes of the log.
use pinusdb.Prelude.{
  true, false, ℕ, ◌+◌, ◌<◌, ◌≡◌, ◌≢◌, inl, inr, refl, sym, ap, ◌∙◌, List, [], ◌++◌, arith, length,
  take, ltb, leb, ◌==◌, ◌||◌, if_cases, length-append,
}
use pinusdb.Value.{PdbErr, ok, on_ok, invalid_param, logfile_full, on_ok_cases, when_ok}
use pinusdb.Log.{
  NormalFile, CommitLogFile, pos, write_buffer_size, cmt_log_file_size, rec_data_len, rec_sync_len,
  append, append_record, get_file_size, sync, close_write, flush_buffer,
}
use pinusdb.Log.Records.{append_sync, sync_record, with_crc}
use pinusdb.Log.Stream.{
  FileLaws, IsStored, stored, stream, Appends, append_lem, flush_buffer_lem, same-IsStored,
}
use pinusdb.Log.Read.{length-stream}
use pinusdb.Coding.{fixed_encode16, fixed_encode32, fixed_encode64, bytes_of}
use mathlib.Core.List.{append_assoc, append-nil}

pub length-sync_record : (sync_pos : ℕ) → length (sync_record sync_pos) ≡ rec_sync_len
unfolding sync_record with_crc fixed_encode16 fixed_encode32 fixed_encode64 bytes_of
length-sync_record sync_pos = refl

module _ {N : NormalFile} where
  refused :
      (s : CommitLogFile N) (buf : List ℕ) (e : PdbErr) → IsStored s → e ≢ ok → Appends s buf (e, s)
  refused s buf e k f = (k, inr (f, ([], buf, refl, sym (append-nil (stream s)))))

  -- One append behind another.
  pub then-Appends :
      (s : CommitLogFile N) (a b : List ℕ) (r r' : PdbErr × CommitLogFile N)
      → stream r.1 ≡ stream s ++ a
      → Appends r.1 b r'
      → Appends s (a ++ b) r'
  then-Appends s a b r r' t (k, inl (e, u)) =
      (k, inl (e, u ∙ ap (λ l. l ++ b) t ∙ append_assoc (stream s) a b))
  then-Appends s a b r r' t (k, inr (f, (pre, rest, h, u))) = (
    k,
    inr (
      f,
      (
        a ++ pre,
        rest,
        ap (λ l. a ++ l) h ∙ sym (append_assoc a pre rest),
        u ∙ ap (λ l. l ++ pre) t ∙ append_assoc (stream s) a pre,
      ),
    ),
  )

  -- The first part of what was to be appended.
  pub first-Appends :
      (s : CommitLogFile N) (a b : List ℕ) (r : PdbErr × CommitLogFile N)
      → r.0 ≢ ok
      → Appends s a r
      → Appends s (a ++ b) r
  first-Appends s a b r f (k, inl (e, _)) = absurd (f e)
  first-Appends s a b r f (k, inr (_, (pre, rest, h, u))) =
      (k, inr (f, (pre, rest ++ b, ap (λ l. l ++ b) h ∙ append_assoc pre rest b, u)))

  module _ (F : FileLaws N) where
    both-Appends :
        (rec_head rec : List ℕ) (s : CommitLogFile N)
        → IsStored s
        → (let head = append rec_head s in
            Appends s (rec_head ++ rec) (on_ok head.0 (append rec (head.1)) (head.0, head.1)))
    both-Appends rec_head rec s k =
        let head = append rec_head s in
        let done = append_lem F rec_head s k in
        on_ok_cases (Appends s (rec_head ++ rec)) (head.0)
          (λ e.
            then-Appends s rec_head rec head (append rec (head.1)) (when_ok e (done.1))
              (append_lem F rec (head.1) (done.0)))
          (λ f. first-Appends s rec_head rec head f done)

    -- AppendRecord keeps the log well-formed; if it succeeds the log holds the head and the record
    -- behind the bytes it held, and if it fails a prefix of these.
    pub append_record_lem :
        (rec_head rec : List ℕ) (s : CommitLogFile N)
        → IsStored s
        → Appends s (rec_head ++ rec) (append_record rec_head rec s)
    unfolding append_record
    append_record_lem rec_head rec s k =
        if_cases (Appends s (rec_head ++ rec))
          ((length rec == 0) || ltb write_buffer_size (length rec))
          (λ _. refused s (rec_head ++ rec) invalid_param k (λ h. absurd (cc h)))
          (λ _.
            if_cases (Appends s (rec_head ++ rec))
              (leb cmt_log_file_size (s.file_size + pos s + rec_data_len + length rec))
              (λ _. refused s (rec_head ++ rec) logfile_full k (λ h. absurd (cc h)))
              (λ _. both-Appends rec_head rec s k))

    pub append_sync_lem :
        (sync_pos : ℕ) (s : CommitLogFile N)
        → IsStored s
        → Appends s (sync_record sync_pos) (append_sync sync_pos s)
    unfolding append_sync
    append_sync_lem sync_pos s k =
        if_cases (Appends s (sync_record sync_pos))
          (leb cmt_log_file_size (s.file_size + pos s + rec_sync_len))
          (λ _. refused s (sync_record sync_pos) logfile_full k (λ h. absurd (cc h)))
          (λ _. append_lem F (sync_record sync_pos) s k)

  Appends-below :
      (s : CommitLogFile N) (buf : List ℕ) (m : ℕ) (r : PdbErr × CommitLogFile N)
      → IsStored s
      → get_file_size s + length buf < m
      → Appends s buf r
      → get_file_size r.1 < m
  Appends-below s buf m r h lt (k, inl (e, t)) =
      omega (
        arith,
        lt,
        length-stream s h,
        length-stream r.1 k,
        ap length t,
        length-append (stream s) buf,
      )
  Appends-below s buf m r h lt (k, inr (f, (pre, rest, cut, t))) = omega (
    arith,
    lt,
    length-stream s h,
    length-stream r.1 k,
    ap length t,
    length-append (stream s) pre,
    ap length cut,
    length-append pre rest,
  )

  same_bytes :
      (s : CommitLogFile N) (f : N.File)
      → take s.file_size (N.contents f) ≡ take s.file_size (N.contents s.file)
      → take s.file_size (N.contents f) ≡ stored s
  unfolding stored
  same_bytes s f h = h

  all_stored : (s : CommitLogFile N) → s.write_buf ≡ [] → stored s ≡ stream s
  unfolding stream
  all_stored s h = sym (append-nil (stored s)) ∙ ap (λ l. stored s ++ l) (sym h)

  -- The result of a call that makes the log durable.
  abbrev pub Syncs : CommitLogFile N → PdbErr × CommitLogFile N → Type 0
  Syncs s r = IsStored r.1 × (stream r.1 ≡ stream s) × (r.0 ≡ ok → stored r.1 ≡ stream s)

  module _ (F : FileLaws N) where
    -- A file of the log that is below 512 MB stays below 512 MB, whatever is appended to it: a
    -- record with a head of 27 bytes, or a sync point.
    pub append-bounds :
        (rec_head rec : List ℕ) (sync_pos : ℕ) (s : CommitLogFile N)
        → IsStored s
        → length rec_head ≡ rec_data_len
        → get_file_size s < cmt_log_file_size
        → (get_file_size ((append_record rec_head rec s).1) < cmt_log_file_size)
          × (get_file_size ((append_sync sync_pos s).1) < cmt_log_file_size)
    unfolding append_record append_sync
    append-bounds rec_head rec sync_pos s k head_len h =
        let M = cmt_log_file_size in
        let P : PdbErr × CommitLogFile N → Type 0 = λ r. get_file_size r.1 < M in
        (
          if_cases P ((length rec == 0) || ltb write_buffer_size (length rec)) (λ _. h)
              (λ g.
                if_cases P (leb M (s.file_size + pos s + rec_data_len + length rec)) (λ _. h)
                  (λ fits.
                    Appends-below s (rec_head ++ rec) M _ k
                      (ground (arith, length-append rec_head rec, head_len))
                      (both-Appends F rec_head rec s k))),
          if_cases P (leb M (s.file_size + pos s + rec_sync_len)) (λ _. h)
              (λ fits.
                Appends-below s (sync_record sync_pos) M _ k
                  (ground (arith, length-sync_record sync_pos))
                  (append_lem F (sync_record sync_pos) s k)),
        )

    sync-Syncs : (s : CommitLogFile N) → IsStored s → Syncs s (sync s)
    unfolding sync
    sync-Syncs s k =
        let (k1, t1, c1) = flush_buffer_lem F s k in
        let s1 = (flush_buffer s).1 in
        let f = (N.sync s1.file).1 in
        let same = ap (take s1.file_size) (F.sync_keeps s1.file) in
        let (k2, t2) = same-IsStored F s1 f k1 (same_bytes s1 f same) in
        on_ok_cases (Syncs s) ((flush_buffer s).0)
          (λ e. (k2, t2 ∙ t1, λ _. all_stored (record s1 { file = f }) (when_ok e c1) ∙ t2 ∙ t1))
          (λ f. (k1, t1, λ e. absurd (f e)))

    -- Sync and CloseWrite keep the log well-formed and its bytes as they are; after a Sync that
    -- succeeds, and after a CloseWrite that succeeds on a log that could be written to, all the bytes of
    -- the log are in the file.
    pub sync_lem :
        (s : CommitLogFile N)
        → IsStored s
        → Syncs s (sync s)
          × (IsStored ((close_write s).1)
              × (stream ((close_write s).1) ≡ stream s)
              × (s.read_only ≡ false
                  → (close_write s).0 ≡ ok
                  → stored ((close_write s).1) ≡ stream s))
    unfolding close_write IsStored stored stream
    sync_lem s k =
        let P : PdbErr × CommitLogFile N → Type 0 = λ r.
          IsStored r.1
          × (stream r.1 ≡ stream s)
          × (s.read_only ≡ false → r.0 ≡ ok → stored r.1 ≡ stream s) in
        let (k1, t1, c1) = sync-Syncs (record s { read_only = true }) k in
        (
          sync-Syncs s k,
          if_cases P s.read_only (λ y. (k, refl, λ n. absurd (cc (y, n)))) (λ _. (k1, t1, λ _. c1)),
        )
