-- ===== src/Log/Recover/Points.antt =====
-- The sync points that RecoverPoint of src/pinusdb/commitlog/commit_log_file.cpp finds.
use pinusdb.Prelude.{
  ℕ, zero, suc, ◌+◌, ◌-◌, ◌^◌, ◌≤◌, ◌<◌, ◌≡◌, ◌⊎◌, inl, inr, refl, sym, ap, ◌∙◌, true, false, List,
  [], ◌∷◌, ◌++◌, arith, length, take, drop, get_or, All, length-append, drop-append_all,
  take-append_all,
}
use pinusdb.StringTool.{crc32, crc32-fits}
use pinusdb.Coding.{
  fixed_decode16, fixed_decode32, fixed_decode64, fixed_encode16, fixed_encode32, fixed_encode64,
  bytes_of, of_bytes,
}
use pinusdb.Coding.RoundTrip.{of_bytes-bytes_of}
use pinusdb.Log.{rec_data_len}
use pinusdb.Log.Records.{with_crc, sync_record, file_head, is_meta}
use pinusdb.Log.Records.RoundTrip.{
  LogRec, IsLoggable, IsTorn, encode, length-encode, encode_len, no_meta,
}
use pinusdb.Log.Records.Readback.{torn_stops}
use pinusdb.Log.Recover.{point_reached, point_no_fuel, scan_point}
use mathlib.Core.List.{append_assoc}

-- A record whose length field is 0 and that is not about the file is met again and again: no fuel is enough.
pub scan_point-stuck :
    (n sync_pos : ℕ) (p : List ℕ)
    → 7 < length p
    → fixed_decode16 (drop 5 p) ≡ 0
    → is_meta (get_or p 4 0) ≡ false
    → scan_point n p sync_pos ≡ point_no_fuel
unfolding scan_point
scan_point-stuck zero sync_pos p h e m = refl
scan_point-stuck (suc n) sync_pos p h e m =
    rw e (rw m (ground (arith, scan_point-stuck n sync_pos p h e m)))

pub scan_point-torn :
    (n sync_pos : ℕ) (p : List ℕ)
    → (length p ≤ 7) ⊎ (length p < fixed_decode16 (drop 5 p))
    → scan_point (suc n) p sync_pos ≡ point_reached sync_pos p
unfolding scan_point
scan_point-torn n sync_pos p h = elim h [ inl a ↦ ground arith | inr b ↦ ground arith ]

scan_point-pass :
    (n len sync_pos : ℕ) (p : List ℕ)
    → fixed_decode16 (drop 5 p) ≡ len
    → 7 < length p
    → len ≤ length p
    → is_meta (get_or p 4 0) ≡ false
    → scan_point (suc n) p sync_pos ≡ scan_point n (drop len p) sync_pos
unfolding scan_point
scan_point-pass n len sync_pos p e h1 h2 m = rw e (ground arith)

scan_point-meta :
    (n len sync_pos : ℕ) (p : List ℕ)
    → fixed_decode16 (drop 5 p) ≡ len
    → 7 < length p
    → len ≤ length p
    → 24 ≤ len
    → fixed_decode32 p ≡ crc32 (take (len - 4) (drop 4 p))
    → is_meta (get_or p 4 0) ≡ true
    → scan_point (suc n) p sync_pos ≡ scan_point n (drop len p) (fixed_decode64 (drop (len - 24) p))
unfolding scan_point
scan_point-meta n len sync_pos p e h1 h2 h3 crc m = rw e (ground arith)

pub with_crc_lem :
    (fields rest : List ℕ)
    → fixed_decode32 (with_crc fields ++ rest)
      ≡ crc32 (take (length fields) (drop 4 (with_crc fields ++ rest)))
unfolding with_crc fixed_encode32 fixed_decode32 bytes_of
with_crc_lem fields rest =
    of_bytes-bytes_of 4 (crc32 fields) (fields ++ rest) (crc32-fits fields)
    ∙ ap crc32 (sym (take-append_all fields rest))

module _ (sync_pos : ℕ) (rest : List ℕ) (fits : sync_pos < 2 ^ 64) where
  scan_point-sync :
      (n before : ℕ)
      → scan_point (suc n) (sync_record sync_pos ++ rest) before ≡ scan_point n rest sync_pos
  unfolding sync_record with_crc fixed_encode16 fixed_encode32 fixed_encode64 bytes_of
      fixed_decode16 fixed_decode64 of_bytes
  scan_point-sync n before =
      let p = sync_record sync_pos ++ rest in
      let pos_is : fixed_decode64 (drop (31 - 24) p) ≡ sync_pos =
        of_bytes-bytes_of 8 sync_pos (drop 15 p) fits in
      scan_point-meta n 31 before p refl (omega arith) (omega arith) (omega arith)
        (with_crc_lem (drop 4 (sync_record sync_pos)) rest) refl
      ∙ ap (scan_point n rest) pos_is

  pub scan_point-head :
      (n before file_code : ℕ)
      → scan_point (suc n) (file_head file_code sync_pos ++ rest) before
        ≡ scan_point n rest sync_pos
  unfolding file_head with_crc fixed_encode16 fixed_encode32 fixed_encode64 bytes_of fixed_decode16
      fixed_decode64 of_bytes
  scan_point-head n before file_code =
      let p = file_head file_code sync_pos ++ rest in
      let pos_is : fixed_decode64 (drop (36 - 24) p) ≡ sync_pos =
        of_bytes-bytes_of 8 sync_pos (drop 20 p) fits in
      scan_point-meta n 36 before p refl (omega arith) (omega arith) (omega arith)
        (with_crc_lem (drop 4 (file_head file_code sync_pos)) rest) refl
      ∙ ap (scan_point n rest) pos_is

scan_point-rec :
    (n before : ℕ) (r : LogRec) (rest : List ℕ)
    → IsLoggable r
    → scan_point (suc n) (encode r ++ rest) before ≡ scan_point n rest before
scan_point-rec n before r rest v =
    let len = length r.rec + rec_data_len in
    let p = encode r ++ rest in
    let r_len = length-encode r rest v in
    let p_len : length p ≡ len + length rest =
      omega (arith, length-append (encode r) rest, r_len) in
    let behind : drop len p ≡ rest =
      ap (λ m. drop m p) (sym r_len) ∙ drop-append_all (encode r) rest in
    scan_point-pass n len before p (encode_len r rest v) (omega (arith, p_len))
      (omega (arith, p_len)) (no_meta r rest v)
    ∙ ap (λ q. scan_point n q before) behind

-- What is appended to a file behind its head: the record of a table, or a sync point.
pub data Entry : Type 0 where
  data_entry : LogRec → Entry
  sync_entry : ℕ → Entry

abbrev pub IsEntry : Entry → Type 0
IsEntry (data_entry r) = IsLoggable r
IsEntry (sync_entry sync_pos) = sync_pos < 2 ^ 64

abbrev pub entries : List Entry → List ℕ
entries [] = []
entries (data_entry r ∷ es) = encode r ++ entries es
entries (sync_entry sync_pos ∷ es) = sync_record sync_pos ++ entries es

-- The last sync point.
abbrev pub last_sync : ℕ → List Entry → ℕ
last_sync before [] = before
last_sync before (data_entry r ∷ es) = last_sync before es
last_sync before (sync_entry sync_pos ∷ es) = last_sync sync_pos es

pub scan_point-entries :
    (n before : ℕ) (es : List Entry) (tail : List ℕ)
    → All IsEntry es
    → IsTorn tail
    → length es < n
    → scan_point n (entries es ++ tail) before ≡ point_reached (last_sync before es) tail
scan_point-entries zero before es tail v t h = absurd (omega arith)
scan_point-entries (suc n) before [] tail v t h = scan_point-torn n before tail (torn_stops tail t)
scan_point-entries (suc n) before (data_entry r ∷ es) tail (v, vs) t h =
    ap (λ l. scan_point (suc n) l before) (append_assoc (encode r) (entries es) tail)
    ∙ scan_point-rec n before r (entries es ++ tail) v
    ∙ scan_point-entries n before es tail vs t (omega arith)
scan_point-entries (suc n) before (sync_entry sync_pos ∷ es) tail (v, vs) t h =
    ap (λ l. scan_point (suc n) l before) (append_assoc (sync_record sync_pos) (entries es) tail)
    ∙ scan_point-sync sync_pos (entries es ++ tail) v n before
    ∙ scan_point-entries n sync_pos es tail vs t (omega arith)
