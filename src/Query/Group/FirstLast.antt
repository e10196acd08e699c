-- ===== src/Query/Group/FirstLast.antt =====
-- FirstOrLastValueFunc of src/pinusdb/query/group_function.h. `pValBuf_` holds the bytes that a
-- string or blob result points to; the model keeps the bytes in the value itself.
use pinusdb.Prelude.{
  ℕ, ◌+◌, ◌-◌, ◌*◌, Bool, true, false, List, none, ◌==◌, ◌&&◌, ◌||◌, not, get_or, if◌then◌else◌,
}
use pinusdb.Prelude.Int.{ℤ, pos, leb_ℤ}
use pinusdb.Value.{
  Floats, DbVal, PdbErr, ok, invalid_param, FieldType, code, data_type, is_null, get_datetime,
  get_block, block_value, null, type_string, type_blob, type_datetime,
}
use pinusdb.Query.Block.{BlockValues, column, cell}
use pinusdb.Query.Group.{scan, skips, append_array_with}
use pinusdb.Query.Group.Count.{tstamp_index}

-- DateTime::MinMicrosecond and DateTime::MaxMicrosecond (util/date_time.h).
abbrev pub min_microsecond : ℤ
min_microsecond = pos 0

abbrev pub max_microsecond : ℤ
max_microsecond =
    pos (
      (146097 * 7 + 36524 * 2 - 366 - (146097 * 4 + 36524 * 3 + 1461 * 17 + 365)) * 86400000000 - 1)

abbrev pub is_block : FieldType → Bool
is_block type_string = true
is_block type_blob = true
is_block _ = false

pub record FirstOrLast (F : Floats) : Type 0 where
  pub field_pos : ℕ
  pub cur_ts : ℤ
  pub cur_val : DbVal F

module _ {F : Floats} where
  unfoldable pub new : Bool → ℕ → FirstOrLast F
  new is_first p = record {
    field_pos = p;
    cur_ts = if is_first then max_microsecond else min_microsecond;
    cur_val = null;
  }

  -- The value that `curVal_` takes: a string or blob is copied through the buffer.
  abbrev pub stored : FieldType → DbVal F → DbVal F
  stored ty v = if is_block ty then if is_null v then null else block_value ty (get_block v) else v

  unfoldable pub append_single :
      FieldType → Bool → List (DbVal F) → FirstOrLast F → PdbErr × FirstOrLast F
  append_single ty is_first vals s =
      let v = get_or vals s.field_pos null in
      let ts = get_datetime (get_or vals tstamp_index null) in
      if not (is_null v) && not (data_type v == code ty)
      then (invalid_param, s)
      else if is_first && leb_ℤ s.cur_ts ts
      then (ok, s)
      else if not is_first && leb_ℤ ts s.cur_ts
      then (ok, s)
      else (ok, record s { cur_val = stored ty v; cur_ts = ts })

  -- The body of the loop in `AppendArrayInner`.
  unfoldable pub append_cell :
      FieldType → Bool → BlockValues F → ℕ → FirstOrLast F → PdbErr × FirstOrLast F
  append_cell ty is_first b i s =
      let v = cell (column b s.field_pos) i in
      let tv = cell (column b tstamp_index) i in
      if not (data_type tv == code type_datetime)
      then (invalid_param, s)
      else if not (is_null v) && not (data_type v == code ty)
      then (invalid_param, s)
      else if is_first && leb_ℤ s.cur_ts (get_datetime tv)
      then (ok, s)
      else if not is_first && leb_ℤ (get_datetime tv) s.cur_ts
      then (ok, s)
      else (ok, record s { cur_ts = get_datetime tv; cur_val = stored ty v })

  abbrev pub is_loaded : BlockValues F → ℕ → Bool
  is_loaded b p = elim (column b p) [ none ↦ false | _ ↦ true ]

  unfoldable pub append_array_inner :
      FieldType
      → Bool
      → BlockValues F
      → Bool
      → Bool
      → ℕ
      → List ℕ
      → FirstOrLast F
      → PdbErr × FirstOrLast F
  append_array_inner ty is_first b have_group have_filter group_id group_ids s =
      if not (is_loaded b tstamp_index) || not (is_loaded b s.field_pos)
      then (invalid_param, s)
      else scan (skips have_group have_filter b group_id group_ids) (append_cell ty is_first b)
          b.record_size 0 s

  unfoldable pub append_array :
      FieldType → Bool → BlockValues F → ℕ → List ℕ → FirstOrLast F → PdbErr × FirstOrLast F
  append_array ty is_first b = append_array_with (append_array_inner ty is_first b) b

  unfoldable pub get_result : FirstOrLast F → DbVal F → PdbErr × DbVal F
  get_result s out = (ok, s.cur_val)
