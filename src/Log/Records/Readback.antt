-- ===== src/Log/Records/Readback.antt =====
-- What ReadRecList of src/pinusdb/commitlog/commit_log_file.cpp finds in a log of records.
use pinusdb.Prelude.{
  ℕ, ◌+◌, ◌-◌, ◌≤◌, ◌<◌, ◌≡◌, ◌⊎◌, inl, inr, refl, ap, ◌∙◌, Bool-cases, List, [], ◌∷◌, ◌++◌, arith,
  length, take, drop, leb, leb→le, length-take, drop-take, take-append, take_all,
}
use pinusdb.Value.{PdbErr, ok, on_ok}
use pinusdb.Coding.{fixed_decode16, fixed_encode16, fixed_encode32, fixed_encode64, bytes_of}
use pinusdb.Coding.RoundTrip.{of_bytes-bytes_of}
use pinusdb.Log.{NormalFile, CommitLogFile, rec_data_len}
use pinusdb.Log.Stream.{Appends}
use pinusdb.Log.Records.{rec_fields, rec_head, append_rec}
use pinusdb.Log.Records.RoundTrip.{LogRec, IsLoggable, IsTorn, encode, length-encode}

-- The length field of a record that is cut off behind it.
torn_len :
    (r : LogRec) (k : ℕ)
    → IsLoggable r
    → 7 < k
    → fixed_decode16 (drop 5 (take k (encode r))) ≡ length r.rec + rec_data_len
unfolding encode rec_head rec_fields fixed_encode16 fixed_encode32 fixed_encode64 fixed_decode16
    bytes_of
torn_len r k v h =
    let len = length r.rec + rec_data_len in
    let behind = drop 7 (encode r) in
    let all : length (bytes_of 2 len) ≤ k - 5 = omega arith in
    ap fixed_decode16 (
      drop-take 5 k (encode r)
      ∙ take-append (k - 5) (bytes_of 2 len) behind
      ∙ ap (λ l. l ++ take (k - 5 - length (bytes_of 2 len)) behind)
          (take_all (k - 5) (bytes_of 2 len) all))
    ∙ of_bytes-bytes_of 2 len (take (k - 5 - length (bytes_of 2 len)) behind) (omega arith)

pub torn_stops :
    (tail : List ℕ) → IsTorn tail → (length tail ≤ 7) ⊎ (length tail < fixed_decode16 (drop 5 tail))
torn_stops tail (r, v, (k, short, e)) =
    let tail_len : length tail ≡ k = ap length e ∙ length-take k (encode r) (omega arith) in
    elim (Bool-cases (leb k 7)) [
      | inl y ↦ inl (omega (arith, tail_len, leb→le k 7 y))
      | inr n ↦
          let len = ap (λ l. fixed_decode16 (drop 5 l)) e ∙ torn_len r k v (ground arith) in
          inr (omega (arith, tail_len, len, length-encode r [] v, short))
    ]

pub nothing-IsTorn : (r : LogRec) → IsLoggable r → IsTorn []
nothing-IsTorn r v = (r, v, (0, omega (arith, length-encode r [] v), refl))

module _ {N : NormalFile} where
  -- AppendRec for one record after another, until one fails.
  abbrev pub log_all : List LogRec → CommitLogFile N → PdbErr × CommitLogFile N
  log_all [] s = (ok, s)
  log_all (r ∷ rs) s =
      let logged = append_rec r.tab_crc r.meta_crc r.rec_type r.dev_id r.rec s in
      let others = log_all rs (logged.1) in on_ok logged.0 others logged
