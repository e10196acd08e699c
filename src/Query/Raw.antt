-- ===== src/Query/Raw.antt =====
-- src/pinusdb/query/query_raw.cpp: a query that returns records, and PushBackToResult of
-- query/iquery.h. The conditions are the list of the filter, `field_vec` the items of the result;
-- the flag that a call sets through `pIsAdded` is returned, false where the call leaves it alone.
mod Tests
pub mod Rows
pub mod Blocks
pub mod Singles
use pinusdb.Prelude.{
  ℕ, zero, suc, ◌+◌, ◌-◌, Bool, true, false, Option, none, some, List, [], ◌∷◌, ◌++◌, length, ltb,
  leb, ◌%◌, ◌^◌, not, if◌then◌else◌,
}
use pinusdb.Prelude.Int.{ℤ}
use pinusdb.Value.{
  Floats, DbVal, PdbErr, ok, on_ok, result_full, null, bool, int8, int16, int32, int64, datetime,
  float, double, string, blob, data_type,
}
use pinusdb.Coding.{put_varint64, put_fixed32, put_fixed64, zigzag_encode64}
use pinusdb.Query.Block.{BlockValues, get_record_value}
use pinusdb.Query.Items.{ValueItem}
use pinusdb.Query.Conditions.{run_condition, run_condition_array}

-- PutVarint64 has room for every uint64.
abbrev put_varint : List ℕ → ℕ → List ℕ
put_varint dst v = elim (put_varint64 dst v) [ none ↦ dst | some bs ↦ bs ]

-- `Coding::PutVarint64(&resultData, Coding::ZigzagEncode64(n))`.
abbrev put_int : List ℕ → ℤ → List ℕ
put_int dst n = put_varint dst (zigzag_encode64 n)

pub record QueryRaw (F : Floats) : Type 0 where
  pub query_offset : ℕ
  pub query_record : ℕ
  pub condition_vec : List (ValueItem F)
  pub field_vec : List (ValueItem F)
  pub cur_record : ℕ
  pub result_data : List ℕ

module _ {F : Floats} where
  -- What follows the type of a value.
  abbrev push_value : List ℕ → DbVal F → List ℕ
  push_value dst null = dst
  push_value dst (bool b) = dst ++ ((if b then 1 else 0) ∷ [])
  push_value dst (int8 n) = put_int dst n
  push_value dst (int16 n) = put_int dst n
  push_value dst (int32 n) = put_int dst n
  push_value dst (int64 n) = put_int dst n
  push_value dst (datetime n) = put_int dst n
  push_value dst (float x) = put_fixed32 dst (F.encode_float x)
  push_value dst (double x) = put_fixed64 dst (F.encode_double x)
  push_value dst (string s) = put_varint dst (length s) ++ s
  push_value dst (blob s) = put_varint dst (length s) ++ s

  unfoldable pub push_back_to_result : List ℕ → DbVal F → List ℕ
  push_back_to_result dst v = push_value (dst ++ (data_type v ∷ [])) v

  -- The loop over the fields; what was pushed before an error stays.
  unfoldable pub push_fields : List (ValueItem F) → List (DbVal F) → List ℕ → PdbErr × List ℕ
  push_fields [] vals dst = (ok, dst)
  push_fields (it ∷ its) vals dst =
      let r = it.get_value vals in
      let rest = push_fields its vals (push_back_to_result dst r.1) in on_ok r.0 rest (r.0, dst)

  -- GetIsFullFlag.
  abbrev pub get_is_full_flag : QueryRaw F → Bool
  get_is_full_flag q = leb q.query_record q.cur_record

  -- A record that passes the conditions, behind the offset.
  abbrev pub add_record : List (DbVal F) → QueryRaw F → PdbErr × QueryRaw F
  add_record vals q =
      let pushed = push_fields q.field_vec vals q.result_data in
      on_ok pushed.0 (ok, record q { cur_record = suc q.cur_record; result_data = pushed.1 })
        (pushed.0, record q { result_data = pushed.1 })

  unfoldable pub append_single : List (DbVal F) → QueryRaw F → PdbErr × QueryRaw F × Bool
  append_single vals q =
      let r = run_condition q.condition_vec vals in
      let added = add_record vals q in
      if get_is_full_flag q
      then (result_full, q, false)
      else on_ok r.0
          (if r.1
            then if ltb 0 q.query_offset
              then (ok, record q { query_offset = q.query_offset - 1 }, false)
              else on_ok added.0 (ok, added.1, true) (added.0, added.1, false)
            else (ok, q, false))
          (r.0, q, false)

  -- The loop of AppendArray over `n` records from the place `idx` on.
  unfoldable pub record_loop : ℕ → ℕ → BlockValues F → QueryRaw F → PdbErr × QueryRaw F
  record_loop zero idx b q = (ok, q)
  record_loop (suc n) idx b q =
      let v = get_record_value idx b in
      let added = add_record (v.1) q in
      let rest = record_loop n (suc idx) (v.2) (added.1) in
      on_ok v.0
        (on_ok added.0 (if get_is_full_flag (added.1) then (result_full, added.1) else rest)
          (added.0, added.1))
        (v.0, q)

  unfoldable pub append_array : BlockValues F → QueryRaw F → PdbErr × QueryRaw F × Bool
  append_array b q =
      let r = run_condition_array q.condition_vec b in
      let size = r.1.result_size in
      let looped =
        record_loop (size - q.query_offset) q.query_offset r.1 (record q { query_offset = 0 }) in
      if get_is_full_flag q
      then (result_full, q, false)
      else on_ok r.0
          (if not (ltb 0 size)
            then (ok, q, false)
            else if ltb size q.query_offset
            then (ok, record q { query_offset = q.query_offset - size }, false)
            else (looped.0, looped.1, true))
          (r.0, q, false)

  -- The data, the number of fields and the number of records; the data of the query is left empty.
  unfoldable pub get_result : QueryRaw F → (List ℕ × ℕ × ℕ) × QueryRaw F
  get_result q = (
    (q.result_data, length q.field_vec % 2 ^ 32, q.cur_record % 2 ^ 32),
    record q { result_data = [] },
  )
