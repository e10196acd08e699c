-- ===== src/Log/Stream.antt =====
-- src/pinusdb/commitlog/commit_log_file.cpp as a stream of bytes: what appending and flushing do to
-- the bytes that the log holds, wherever these are.
use pinusdb.Prelude.{
  if_cases, min, ◌-◌, ltb→ge, take-append-drop, length-drop, length-take_le, ℕ, ◌+◌, ◌-◌, ◌≤◌, ◌≡◌,
  ◌≢◌, ◌⊎◌, inl, inr, refl, sym, ap, ◌∙◌, List, [], ◌∷◌, ◌++◌, arith, length, take, drop, ltb, ◌==◌,
  ==_iff, length-take, length_zero, length-take_fits, length-append, if◌then◌else◌,
}
use pinusdb.Value.{PdbErr, ok, invalid_param, file_readonly, on_ok_cases, when_ok}
use mathlib.Core.Path.{subst}
use mathlib.Core.List.{append_assoc, append-nil}
use pinusdb.Log.Cache.{IsCache, pushed-IsCache}
use pinusdb.Log.{
  NormalFile, CacheBlock, CommitLogFile, pos, write_buffer_size, flush_buffer, append, cache_cnt,
  erase_front,
}

-- What the log relies on of a file: a write that succeeds puts the bytes where they belong and
-- leaves those before them alone, a write that fails leaves at least those before its place, a
-- read that succeeds returns the bytes that are there, and a sync changes none.
pub record FileLaws (N : NormalFile) : Type 0 where
  pub write_ok :
      (f : N.File) (off : ℕ) (b : List ℕ)
      → off ≤ length (N.contents f)
      → (N.write f off b).0 ≡ ok
      → take (off + length b) (N.contents ((N.write f off b).1)) ≡ take off (N.contents f) ++ b
  pub write_fail :
      (f : N.File) (off : ℕ) (b : List ℕ)
      → off ≤ length (N.contents f)
      → (N.write f off b).0 ≢ ok
      → take off (N.contents ((N.write f off b).1)) ≡ take off (N.contents f)
  pub read_ok :
      (f : N.File) (off n : ℕ)
      → off + n ≤ length (N.contents f)
      → (N.read f off n).0 ≡ ok
      → (N.read f off n).1 ≡ take n (drop off (N.contents f))
  pub sync_keeps : (f : N.File) → N.contents ((N.sync f).1) ≡ N.contents f

module _ {N : NormalFile} where
  -- The bytes that have been written to the file, and all the bytes of the log.
  unfoldable pub stored : CommitLogFile N → List ℕ
  stored s = take s.file_size (N.contents s.file)

  unfoldable pub stream : CommitLogFile N → List ℕ
  unfolding stored
  stream s = stored s ++ s.write_buf

  -- The file holds the bytes that are counted, the write buffer is not overfull, and the cache
  -- blocks are the end of the stored bytes.
  unfoldable pub IsStored : CommitLogFile N → Type 0
  unfolding stored
  IsStored s =
      (s.file_size ≤ length (N.contents s.file))
      × (pos s ≤ write_buffer_size)
      × IsCache s.cache_vec (stored s)

  -- The result of a call that logs the bytes `buf`: the log is kept well-formed, and it holds those
  -- bytes behind the others if the call succeeds and a prefix of them if it does not.
  abbrev pub Appends : CommitLogFile N → List ℕ → PdbErr × CommitLogFile N → Type 0
  Appends s buf r =
      IsStored r.1
      × (((r.0 ≡ ok) × (stream r.1 ≡ stream s ++ buf))
          ⊎ ((r.0 ≢ ok)
              × ((pre rest : List ℕ) × (buf ≡ pre ++ rest) × (stream r.1 ≡ stream s ++ pre))))

  -- The result of a call that writes the buffer out.
  abbrev pub Flushes : CommitLogFile N → PdbErr × CommitLogFile N → Type 0
  Flushes s r =
      IsStored r.1
      × (stream r.1 ≡ stream s)
      × (((r.0 ≡ ok) × (r.1.write_buf ≡ [])) ⊎ ((r.0 ≢ ok) × (r.1.write_buf ≡ s.write_buf)))

  -- The state behind a write of the buffer that succeeded.
  unfoldable written : CommitLogFile N → CommitLogFile N
  written s =
      let block : CacheBlock = record { cache_offset = s.file_size; cache = s.write_buf } in
      record s {
        file = (N.write s.file s.file_size s.write_buf).1;
        file_size = s.file_size + pos s;
        cache_vec =
            (if ltb (length s.cache_vec) cache_cnt then s.cache_vec else erase_front s.cache_vec)
            ++ (block ∷ []);
        write_buf = [];
      }

  module _ (F : FileLaws N) where
    -- Writing the buffer out.
    written-IsStored :
        (s : CommitLogFile N)
        → IsStored s
        → (N.write s.file s.file_size s.write_buf).0 ≡ ok
        → IsStored (written s) × (stream (written s) ≡ stream s)
    unfolding IsStored stream stored written
    written-IsStored s (h, b, c) w =
        let is : stored (written s) ≡ stored s ++ s.write_buf =
          F.write_ok s.file s.file_size s.write_buf h w in
        let len : length (stored s) ≡ s.file_size = length-take s.file_size (N.contents s.file) h in
        let fits : s.file_size + pos s ≤ length (N.contents (written s).file) = omega (
          arith,
          length-take_fits (s.file_size + pos s) (N.contents (written s).file),
          ap length is,
          length-append (stored s) s.write_buf,
          len,
        ) in
        let cache =
          pushed-IsCache s.cache_vec (stored s)
            (record { cache_offset = s.file_size; cache = s.write_buf }) (sym len) c in
        (
          (fits, omega arith, subst (IsCache (written s).cache_vec) (sym is) cache),
          append-nil (stored (written s)) ∙ is,
        )

    -- Another file with the same bytes before the end of the log.
    pub same-IsStored :
        (s : CommitLogFile N) (f : N.File)
        → IsStored s
        → take s.file_size (N.contents f) ≡ stored s
        → IsStored (record s { file = f }) × (stream (record s { file = f }) ≡ stream s)
    unfolding IsStored stream stored
    same-IsStored s f (h, b, c) e =
        let len = length-take s.file_size (N.contents s.file) h in
        (
          (
            omega (arith, length-take_fits s.file_size (N.contents f), ap length e, len),
            b,
            subst (IsCache s.cache_vec) (sym e) c,
          ),
          ap (λ l. l ++ s.write_buf) e,
        )

    -- Flushing keeps the log and its bytes; if it succeeds the buffer is empty, and otherwise it
    -- is as it was.
    pub flush_buffer_lem : (s : CommitLogFile N) → IsStored s → Flushes s (flush_buffer s)
    unfolding flush_buffer stored written IsStored
    flush_buffer_lem s k =
        if_cases (Flushes s) (pos s == 0)
          (λ z. (k, refl, inl (refl, length_zero s.write_buf ((==_iff (pos s) 0).0 z))))
          (λ z.
            on_ok_cases (Flushes s) ((N.write s.file s.file_size s.write_buf).0)
              (λ w. let (i, t) = written-IsStored s k w in (i, t, inl (refl, refl)))
              (λ w.
                let (i, t) =
                  same-IsStored s _ k (F.write_fail s.file s.file_size s.write_buf (k.0) w) in
                (i, t, inr (w, refl))))

    -- Bytes put into the write buffer, where they fit.
    staged-IsStored :
        (s : CommitLogFile N) (b : List ℕ)
        → IsStored s
        → pos s + length b ≤ write_buffer_size
        → IsStored (record s { write_buf = s.write_buf ++ b })
          × (stream (record s { write_buf = s.write_buf ++ b }) ≡ stream s ++ b)
    unfolding IsStored stream stored
    staged-IsStored s b (h, p, c) fits =
        ((h, rw (length-append s.write_buf b) fits, c), sym (append_assoc (stored s) s.write_buf b))

    -- An empty write buffer takes the bytes that are left.
    refilled-IsStored :
        (s : CommitLogFile N) (b : List ℕ)
        → IsStored s
        → s.write_buf ≡ []
        → length b ≤ write_buffer_size
        → IsStored (record s { write_buf = b })
          × (stream (record s { write_buf = b }) ≡ stream s ++ b)
    unfolding IsStored stream stored
    refilled-IsStored s b (h, p, c) e fits = (
      (h, fits, c),
      ap (λ l. l ++ b) (sym (append-nil (stored s)) ∙ ap (λ l. stored s ++ l) (sym e)),
    )

    -- An append that succeeds adds its bytes to those of the log; one that fails adds a prefix of
    -- them, those that were put into the buffer before it could not be flushed.
    pub append_lem :
        (buf : List ℕ) (s : CommitLogFile N) → IsStored s → Appends s buf (append buf s)
    unfolding append IsStored
    append_lem buf s k =
        let n = min (length buf) (write_buffer_size - pos s) in
        let s1 = record s { write_buf = s.write_buf ++ take n buf } in
        let split = take-append-drop n buf in
        let room : pos s + length (take n buf) ≤ write_buffer_size =
          omega (arith, length-take_le n buf, k.1) in
        let (k1, t1) = staged-IsStored s (take n buf) k room in
        let (k2, t2, c2) = flush_buffer_lem s1 k1 in
        let unchanged : (e : PdbErr) → e ≢ ok → Appends s buf (e, s) =
          λ e f. (k, inr (f, ([], buf, refl, sym (append-nil (stream s))))) in
        if_cases (Appends s buf) (ltb write_buffer_size (length buf))
          (λ big. unchanged invalid_param (λ h. absurd (cc h)))
          (λ small.
            if_cases (Appends s buf) s.read_only (λ y. unchanged file_readonly (λ h. absurd (cc h)))
              (λ y.
                if_cases (Appends s buf) (length (drop n buf) == 0)
                  (λ z.
                    let none_left =
                      length_zero (drop n buf) ((==_iff (length (drop n buf)) 0).0 z) in
                    let whole =
                      sym (append-nil (take n buf))
                      ∙ ap (λ l. take n buf ++ l) (sym none_left)
                      ∙ split in
                    (k1, inl (refl, t1 ∙ ap (λ l. stream s ++ l) whole)))
                  (λ z.
                    on_ok_cases (Appends s buf) ((flush_buffer s1).0)
                      (λ e.
                        let fits : length (drop n buf) ≤ write_buffer_size =
                          omega (
                            arith,
                            length-drop n buf,
                            ltb→ge write_buffer_size (length buf) small,
                          ) in
                        let (k3, t3) =
                          refilled-IsStored ((flush_buffer s1).1) (drop n buf) k2 (when_ok e c2)
                            fits in
                        (
                          k3,
                          inl (
                            refl,
                            t3
                                ∙ ap (λ l. l ++ drop n buf) (t2 ∙ t1)
                                ∙ append_assoc (stream s) (take n buf) (drop n buf)
                                ∙ ap (λ l. stream s ++ l) split,
                          ),
                        ))
                      (λ f. (k2, inr (f, (take n buf, drop n buf, sym split, t2 ∙ t1)))))))
