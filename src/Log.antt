-- ===== src/Log.antt =====
-- src/pinusdb/commitlog/commit_log_file.cpp: one file of the commit log, which is appended to
-- through a write buffer and keeps the last blocks that it wrote in memory. The file behind it is
-- the interface NormalFile of src/pinusdb/port/env.h. `write_buf` holds the bytes of `pWriteBuf_`
-- before `pos_`, so that `pos_` is its length, and a cache block its `cacheSize_` bytes. Mutexes and
-- the allocation of buffers are left out.
pub mod Tests
pub mod Cache
pub mod Stream
pub mod Read
pub mod Records
pub mod Appends
pub mod Recover
pub mod Files
use pinusdb.Prelude.{
  ℕ, zero, suc, ◌+◌, ◌-◌, ◌*◌, Bool, true, false, List, [], ◌∷◌, ◌++◌, length, take, drop, ltb, leb,
  ◌==◌, ◌&&◌, ◌||◌, min, if◌then◌else◌,
}
use pinusdb.Value.{PdbErr, ok, on_ok, invalid_param, file_readonly, logfile_full}

-- The virtual functions of NormalFile that the log calls, on the state of a file.
pub record NormalFile : Type 1 where
  pub File : Type 0
  pub contents : File → List ℕ
  pub write : File → ℕ → List ℕ → PdbErr × File
  pub read : File → ℕ → ℕ → PdbErr × List ℕ
  pub sync : File → PdbErr × File

abbrev pub write_buffer_size : ℕ
write_buffer_size = 65536

abbrev pub cache_cnt : ℕ
cache_cnt = 16

abbrev pub cmt_log_file_size : ℕ
cmt_log_file_size = 536870912

-- kRecDataLen and kRecSyncLen.
abbrev pub rec_data_len : ℕ
rec_data_len = 27

abbrev pub rec_sync_len : ℕ
rec_sync_len = 31

pub record CacheBlock : Type 0 where
  pub cache_offset : ℕ
  pub cache : List ℕ

pub record CommitLogFile (N : NormalFile) : Type 0 where
  pub read_only : Bool
  pub file_code : ℕ
  pub file : N.File
  pub file_size : ℕ
  pub cache_vec : List CacheBlock
  pub write_buf : List ℕ

-- The first cache block makes room for a new one.
abbrev pub erase_front : List CacheBlock → List CacheBlock
erase_front [] = []
erase_front (c ∷ cs) = cs

-- The place of the first cache block, or of what follows if there is none.
abbrev pub cache_start : List CacheBlock → ℕ → ℕ
cache_start [] end_ = end_
cache_start (c ∷ cs) end_ = c.cache_offset

-- The loop over the cache blocks, with room for `left` bytes: `take` ends with the block, as the
-- minimum of the source does.
abbrev pub copy_caches : List CacheBlock → ℕ → ℕ → List ℕ
copy_caches [] offset left = []
copy_caches (c ∷ cs) offset left =
    let here = ltb offset (c.cache_offset + length c.cache) in
    let part = if here then take left (drop (offset - c.cache_offset) c.cache) else [] in
    let rest = copy_caches cs offset (left - length part) in
    part ++ (if here && leb left (length part) then [] else rest)

module _ {N : NormalFile} where
  abbrev pub pos : CommitLogFile N → ℕ
  pos s = length s.write_buf

  unfoldable pub flush_buffer : CommitLogFile N → PdbErr × CommitLogFile N
  flush_buffer s =
      let r = N.write s.file s.file_size s.write_buf in
      let block : CacheBlock = record { cache_offset = s.file_size; cache = s.write_buf } in
      let room =
        if ltb (length s.cache_vec) cache_cnt then s.cache_vec else erase_front s.cache_vec in
      if pos s == 0
      then (ok, s)
      else on_ok r.0
          (
            ok,
            record s {
              file = r.1;
              file_size = s.file_size + pos s;
              cache_vec = room ++ (block ∷ []);
              write_buf = [];
            },
          )
          (r.0, record s { file = r.1 })

  unfoldable pub append : List ℕ → CommitLogFile N → PdbErr × CommitLogFile N
  unfolding flush_buffer
  append buf s =
      let copy_size = min (length buf) (write_buffer_size - pos s) in
      let s1 = record s { write_buf = s.write_buf ++ take copy_size buf } in
      let rest = drop copy_size buf in
      let flushed = flush_buffer s1 in
      if ltb write_buffer_size (length buf)
      then (invalid_param, s)
      else if s.read_only
      then (file_readonly, s)
      else if length rest == 0
      then (ok, s1)
      else on_ok flushed.0 (ok, record (flushed.1) { write_buf = rest }) (flushed.0, flushed.1)

  -- `append` copies the bytes that fit, flushes a full buffer and copies the others. AppendRecord
  -- takes the head of a record and its data; a null pointer is not modelled.
  unfoldable pub append_record : List ℕ → List ℕ → CommitLogFile N → PdbErr × CommitLogFile N
  append_record rec_head rec s =
      let head = append rec_head s in
      let body = append rec (head.1) in
      if (length rec == 0) || ltb write_buffer_size (length rec)
      then (invalid_param, s)
      else if leb cmt_log_file_size (s.file_size + pos s + rec_data_len + length rec)
      then (logfile_full, s)
      else on_ok head.0 body (head.0, head.1)

  unfoldable pub sync : CommitLogFile N → PdbErr × CommitLogFile N
  sync s =
      let flushed = flush_buffer s in
      let r = N.sync flushed.1.file in
      on_ok flushed.0 (r.0, record (flushed.1) { file = r.1 }) (flushed.0, flushed.1)

  unfoldable pub close_write : CommitLogFile N → PdbErr × CommitLogFile N
  close_write s = if s.read_only then (ok, s) else sync (record s { read_only = true })

  -- The write buffer is freed with the cache.
  unfoldable pub free_cache : CommitLogFile N → CommitLogFile N
  free_cache s = if s.read_only then record s { cache_vec = []; write_buf = [] } else s

  -- GetFileSize.
  abbrev pub get_file_size : CommitLogFile N → ℕ
  get_file_size s = s.file_size + pos s

  -- The file code is at least 1.
  abbrev pub get_file_begin_pos : CommitLogFile N → ℕ
  get_file_begin_pos s = (s.file_code - 1) * cmt_log_file_size

  abbrev pub get_file_end_pos : CommitLogFile N → ℕ
  get_file_end_pos s = (s.file_code - 1) * cmt_log_file_size + s.file_size + pos s

  -- Where the bytes that are only in the file end for a reader.
  abbrev pub file_end : CommitLogFile N → ℕ
  file_end s = cache_start s.cache_vec s.file_size

  -- The bytes that the file has to give of the `n` from `offset` on.
  abbrev pub file_bytes : ℕ → ℕ → CommitLogFile N → ℕ
  file_bytes offset n s = if ltb offset s.file_size then min n (file_end s - offset) else 0

  -- The file, the cache blocks and the write buffer fill the buffer of `n` bytes in turn; where the
  -- source breaks off, nothing is left to copy.
  unfoldable pub read : ℕ → ℕ → CommitLogFile N → PdbErr × List ℕ
  read offset n s =
      let want = file_bytes offset n s in
      let from_file = if want == 0 then (ok, []) else N.read s.file offset want in
      let cached =
        if ltb offset s.file_size then copy_caches s.cache_vec offset (n - want) else [] in
      let buffered = take (n - want - length cached) (drop (offset - s.file_size) s.write_buf) in
      if leb (s.file_size + pos s) offset
      then (ok, [])
      else on_ok from_file.0 (ok, from_file.1 ++ (cached ++ buffered)) (from_file.0, [])
