-- ===== src/Log/Recover/Last.antt =====
-- RecoverPoint of src/pinusdb/commitlog/commit_log_file.cpp on a file that is shorter than its buffer.
use pinusdb.Prelude.{ℕ, ◌≡◌, refl, List, length}
use pinusdb.Coding.{fixed_encode16, fixed_encode32, fixed_encode64, bytes_of}
use pinusdb.Log.Records.{with_crc, file_head}

pub length-file_head : (file_code sync_pos : ℕ) → length (file_head file_code sync_pos) ≡ 36
unfolding file_head with_crc fixed_encode16 fixed_encode32 fixed_encode64 bytes_of
length-file_head file_code sync_pos = refl
