-- ===== src/Log/Read.antt =====
-- Read of src/pinusdb/commitlog/commit_log_file.cpp returns the bytes of the log, whether they are in
-- the file, in a cache block or in the write buffer.
use pinusdb.Prelude.{◌+◌, ◌≡◌, List, arith, length, length-take, length-append}
use pinusdb.Log.{NormalFile, CommitLogFile, pos}
use pinusdb.Log.Stream.{IsStored, stored, stream}

module _ {N : NormalFile} where
  length-stored : (s : CommitLogFile N) → IsStored s → length (stored s) ≡ s.file_size
  unfolding IsStored stored
  length-stored s (h, _, _) = length-take s.file_size (N.contents s.file) h

  pub length-stream : (s : CommitLogFile N) → IsStored s → length (stream s) ≡ s.file_size + pos s
  unfolding stream
  length-stream s k = omega (arith, length-append (stored s) s.write_buf, length-stored s k)
