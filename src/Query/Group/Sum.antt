-- ===== src/Query/Group/Sum.antt =====
-- SumFunc of src/pinusdb/query/group_function.h.
use pinusdb.Prelude.{ℕ, Bool, true, false, List, ◌==◌, not, get_or, if◌then◌else◌}
use pinusdb.Value.{
  Floats, DbVal, PdbErr, ok, invalid_param, FieldType, code, data_type, is_null, get_int, get_float,
  get_double, null, int64, double, is_number, is_float_or_double, type_int8, type_int16, type_int32,
  type_int64, type_float, type_double,
}
use pinusdb.Query.Block.{BlockValues, column, cell}
use pinusdb.Query.Group.{scan, skips, append_array_with}
use pinusdb.Query.Group.Avg.{Totals, zero_total, add_int, add_double_to}

pub record SumFunc (F : Floats) : Type 0 where
  pub have_val : Bool
  pub field_pos : ℕ
  pub sum_val : Totals F

module _ {F : Floats} where
  unfoldable pub new : ℕ → SumFunc F
  new pos = record { have_val = false; field_pos = pos; sum_val = zero_total }

  -- `haveVal_` is set before the ladder of types is tried.
  unfoldable pub add_value : FieldType → DbVal F → SumFunc F → PdbErr × SumFunc F
  add_value type_int8 v s = (ok, record s { sum_val = add_int (get_int v) s.sum_val })
  add_value type_int16 v s = (ok, record s { sum_val = add_int (get_int v) s.sum_val })
  add_value type_int32 v s = (ok, record s { sum_val = add_int (get_int v) s.sum_val })
  add_value type_int64 v s = (ok, record s { sum_val = add_int (get_int v) s.sum_val })
  add_value type_float v s = (
    ok,
    record s { sum_val = add_double_to (F.widen (get_float (F.narrow F.zero_double) v)) s.sum_val },
  )
  add_value type_double v s = (ok, record s { sum_val = add_double_to (get_double v) s.sum_val })
  add_value _ v s = (invalid_param, s)

  unfoldable pub append_single : FieldType → List (DbVal F) → SumFunc F → PdbErr × SumFunc F
  unfolding add_value
  append_single ty vals s =
      let v = get_or vals s.field_pos null in
      if is_null v
      then (ok, s)
      else if not (data_type v == code ty)
      then (invalid_param, s)
      else add_value ty v (record s { have_val = true })

  unfoldable pub append_cell : FieldType → BlockValues F → ℕ → SumFunc F → PdbErr × SumFunc F
  unfolding add_value
  append_cell ty b i s =
      let v = cell (column b s.field_pos) i in
      if is_null v
      then (ok, s)
      else if not (data_type v == code ty)
      then (invalid_param, s)
      else add_value ty v (record s { have_val = true })

  unfoldable pub append_array_inner :
      FieldType → BlockValues F → Bool → Bool → ℕ → List ℕ → SumFunc F → PdbErr × SumFunc F
  append_array_inner ty b have_group have_filter group_id group_ids =
      scan (skips have_group have_filter b group_id group_ids) (append_cell ty b) b.record_size 0

  unfoldable pub append_array :
      FieldType → BlockValues F → ℕ → List ℕ → SumFunc F → PdbErr × SumFunc F
  append_array ty b = append_array_with (append_array_inner ty b) b

  -- DBVAL_SET_INT64 and DBVAL_SET_DOUBLE cast a total of either type T to the one they store;
  -- the branch that is taken has the matching T.
  unfoldable pub get_result : FieldType → SumFunc F → DbVal F → PdbErr × DbVal F
  get_result ty s out =
      if not s.have_val
      then (ok, null)
      else if is_number ty
      then (ok, int64 s.sum_val.int_total)
      else if is_float_or_double ty
      then (ok, double s.sum_val.double_total)
      else (ok, out)
