-- ===== src/Log/Records/RoundTrip.antt =====
-- Reading back the records of the commit log (ReadRecList of
-- src/pinusdb/commitlog/commit_log_file.cpp).
use pinusdb.Prelude.{
  ◌%◌, ℕ, zero, suc, ◌+◌, ◌-◌, ◌^◌, ◌≤◌, ◌<◌, ◌≡◌, ◌⊎◌, inl, inr, refl, sym, ap, ◌∙◌, false, List,
  [], ◌∷◌, ◌++◌, arith, length, take, drop, get_or, length-append, drop-append_all, take-append_all,
}
use pinusdb.StringTool.{crc32, crc64, crc64_to_crc32, crc64-append}
use pinusdb.Coding.{
  fixed_encode16, fixed_encode32, fixed_encode64, fixed_decode16, fixed_decode32, fixed_decode64,
  bytes_of,
}
use pinusdb.Coding.RoundTrip.{of_bytes-bytes_of}
use pinusdb.Log.{rec_data_len}
use pinusdb.Log.Records.{
  LogRecInfo, rec_fields, rec_head, reached, scan_recs, rec_info, is_meta, char_code,
}

-- A record to log: the arguments of AppendRec.
pub record LogRec : Type 0 where
  pub tab_crc : ℕ
  pub meta_crc : ℕ
  pub rec_type : ℕ
  pub dev_id : ℕ
  pub rec : List ℕ

-- The arguments fit their types, the type is that of data, and the record with its head is below
-- 65536 bytes, so that its length fits the field.
abbrev pub IsLoggable : LogRec → Type 0
IsLoggable r =
    (r.tab_crc < 2 ^ 64)
    × (r.meta_crc < 2 ^ 32)
    × (2 < r.rec_type)
    × (r.rec_type < 128)
    × (r.dev_id < 2 ^ 64)
    × (length r.rec + rec_data_len < 2 ^ 16)

unfoldable pub encode : LogRec → List ℕ
encode r = rec_head r.tab_crc r.meta_crc r.rec_type r.dev_id r.rec ++ r.rec

abbrev pub encode_all : List LogRec → List ℕ
encode_all [] = []
encode_all (r ∷ rs) = encode r ++ encode_all rs

-- What is read back.
abbrev pub info : LogRec → LogRecInfo
info r = record {
  tab_crc = r.tab_crc;
  meta_crc = r.meta_crc;
  rec_type = r.rec_type;
  rec_len = length r.rec;
  dev_id = r.dev_id;
  rec = r.rec;
}

-- The end of a buffer in the middle of a record, or behind one.
abbrev pub IsTorn : List ℕ → Type 0
IsTorn tail =
    (r : LogRec) × IsLoggable r × ((k : ℕ) × (k < length (encode r)) × (tail ≡ take k (encode r)))

scan_step :
    (n len : ℕ) (p : List ℕ)
    → fixed_decode16 (drop 5 p) ≡ len
    → 7 < length p
    → len ≤ length p
    → 4 ≤ len
    → fixed_decode32 p ≡ crc32 (take (len - 4) (drop 4 p))
    → is_meta (get_or p 4 0) ≡ false
    → scan_recs (suc n) p
      ≡ (let next = scan_recs n (drop len p) in record next { recs = rec_info len p ∷ next.recs })
unfolding scan_recs
scan_step n len p e h1 h2 h3 crc m = rw e (ground arith)

pub scan_torn :
    (n : ℕ) (p : List ℕ)
    → (length p ≤ 7) ⊎ (length p < fixed_decode16 (drop 5 p))
    → scan_recs n p ≡ record { recs = []; rest = p; scan_end = reached }
unfolding scan_recs
scan_torn zero p h = refl
scan_torn (suc n) p h = elim h [ inl a ↦ ground arith | inr b ↦ ground arith ]

not_meta_lem : (t : ℕ) → 2 < t → is_meta t ≡ false
not_meta_lem t h = ground arith

module _ (r : LogRec) (rest : List ℕ) (v : IsLoggable r) where
  pub length-encode : length (encode r) ≡ length r.rec + rec_data_len
  unfolding encode rec_head rec_fields fixed_encode16 fixed_encode32 fixed_encode64 bytes_of
  length-encode = omega arith

  pub encode_len : fixed_decode16 (drop 5 (encode r ++ rest)) ≡ length r.rec + rec_data_len
  unfolding encode rec_head rec_fields fixed_encode16 fixed_encode32 fixed_encode64 bytes_of
      fixed_decode16
  encode_len =
      of_bytes-bytes_of 2 (length r.rec + rec_data_len) (drop 7 (encode r ++ rest)) (omega arith)

  checksum : ℕ
  checksum =
      crc64_to_crc32
        (crc64 r.rec (crc64 (rec_fields r.tab_crc r.meta_crc r.rec_type r.dev_id (length r.rec)) 0))

  fields : List ℕ
  fields = rec_fields r.tab_crc r.meta_crc r.rec_type r.dev_id (length r.rec)

  encode_shape : encode r ++ rest ≡ bytes_of 4 checksum ++ ((fields ++ r.rec) ++ rest)
  unfolding encode rec_head fixed_encode32 checksum fields bytes_of
  encode_shape = refl

  checksum_fits : checksum < 2 ^ 32
  unfolding checksum crc64_to_crc32
  checksum_fits = omega arith

  fields_len : length (fields ++ r.rec) ≡ length r.rec + rec_data_len - 4
  unfolding fields rec_fields fixed_encode16 fixed_encode32 fixed_encode64 bytes_of
  fields_len = omega arith

  behind_checksum : drop 4 (encode r ++ rest) ≡ (fields ++ r.rec) ++ rest
  unfolding bytes_of
  behind_checksum = ap (drop 4) encode_shape

  encode_crc :
      fixed_decode32 (encode r ++ rest)
      ≡ crc32 (take (length r.rec + rec_data_len - 4) (drop 4 (encode r ++ rest)))
  unfolding fixed_decode32 crc32 checksum fields
  encode_crc =
      ap fixed_decode32 encode_shape
      ∙ of_bytes-bytes_of 4 checksum ((fields ++ r.rec) ++ rest) checksum_fits
      ∙ ap crc64_to_crc32 (sym (crc64-append fields r.rec 0))
      ∙ ap crc32 (
          sym (take-append_all (fields ++ r.rec) rest)
          ∙ ap (λ m. take m ((fields ++ r.rec) ++ rest)) fields_len
          ∙ ap (take (length r.rec + rec_data_len - 4)) (sym behind_checksum))

  laid_out : List ℕ
  laid_out = bytes_of 4 checksum ++ ((fields ++ r.rec) ++ rest)

  encode_info : rec_info (length r.rec + rec_data_len) laid_out ≡ info r
  unfolding laid_out fields rec_fields fixed_encode16 fixed_encode32 fixed_encode64 fixed_decode32
      fixed_decode64 bytes_of
  encode_info =
      let (tab, meta, not_meta, char, dev, size) = v in
      let tab_is : fixed_decode64 (drop 7 laid_out) ≡ r.tab_crc =
        of_bytes-bytes_of 8 r.tab_crc (drop 15 laid_out) tab in
      let meta_is : fixed_decode32 (drop 15 laid_out) ≡ r.meta_crc =
        of_bytes-bytes_of 4 r.meta_crc (drop 19 laid_out) meta in
      let dev_is : fixed_decode64 (drop 19 laid_out) ≡ r.dev_id =
        of_bytes-bytes_of 8 r.dev_id (r.rec ++ rest) dev in
      let type_is : char_code r.rec_type ≡ r.rec_type = ground arith in
      let len = (length r.rec + rec_data_len + 2 ^ 16 - rec_data_len) % 2 ^ 16 in
      let len_is : len ≡ length r.rec = omega arith in
      let rec_is : take len (r.rec ++ rest) ≡ r.rec =
        ap (λ m. take m (r.rec ++ rest)) len_is ∙ take-append_all r.rec rest in
      λ i. record {
        tab_crc = tab_is i;
        meta_crc = meta_is i;
        rec_type = type_is i;
        rec_len = len_is i;
        dev_id = dev_is i;
        rec = rec_is i;
      }

  pub no_meta : is_meta (get_or (encode r ++ rest) 4 0) ≡ false
  unfolding encode rec_head rec_fields fixed_encode32 bytes_of
  no_meta = let (_, _, not_meta, _, _, _) = v in not_meta_lem r.rec_type not_meta

  -- One record of the buffer.
  pub scan_encode :
      (n : ℕ)
      → scan_recs (suc n) (encode r ++ rest)
        ≡ (let next = scan_recs n rest in record next { recs = info r ∷ next.recs })
  unfolding laid_out
  scan_encode n =
      let len = length r.rec + rec_data_len in
      let p = encode r ++ rest in
      let p_len : length p ≡ len + length rest =
        omega (arith, length-append (encode r) rest, length-encode) in
      let behind : drop len p ≡ rest =
        ap (λ m. drop m p) (sym length-encode) ∙ drop-append_all (encode r) rest in
      scan_step n len p encode_len (omega (arith, p_len)) (omega (arith, p_len)) (omega arith)
        encode_crc no_meta
      ∙ ap (λ q. let next = scan_recs n q in record next { recs = rec_info len p ∷ next.recs })
          behind
      ∙ ap (λ q. let next = scan_recs n rest in record next { recs = q ∷ next.recs })
          (ap (rec_info len) encode_shape ∙ encode_info)
