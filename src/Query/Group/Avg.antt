-- ===== src/Query/Group/Avg.antt =====
-- AvgFunc of src/pinusdb/query/group_function.h. `T` is int64_t for the integer types and double
-- for the floating ones, as `CreateAggAvg` and `CreateAggSum` instantiate the templates. An int64
-- total wraps around.
use pinusdb.Prelude.{ℕ, suc, Bool, List, ◌==◌, ltb, not, get_or, if◌then◌else◌}
use pinusdb.Prelude.Int.{ℤ, pos, ◌+ℤ◌, tdiv, cast8, cast16, cast32, cast64}
use pinusdb.Value.{
  Floats, DbVal, PdbErr, ok, invalid_param, FieldType, code, data_type, is_null, get_int, get_float,
  get_double, null, int8, int16, int32, int64, float, double, type_int8, type_int16, type_int32,
  type_int64, type_float, type_double,
}
use pinusdb.Query.Block.{BlockValues, column, cell}
use pinusdb.Query.Group.{scan, skips, append_array_with}

-- The total, in the member of T that the type uses.
pub record Totals (F : Floats) : Type 0 where
  pub int_total : ℤ
  pub double_total : F.Double

module _ {F : Floats} where
  abbrev pub zero_total : Totals F
  zero_total = record { int_total = pos 0; double_total = F.zero_double }

  abbrev pub add_int : ℤ → Totals F → Totals F
  add_int n t = record t { int_total = cast64 (t.int_total +ℤ n) }

  abbrev pub add_double_to : F.Double → Totals F → Totals F
  add_double_to x t = record t { double_total = F.add_double t.double_total x }

  abbrev to_float : DbVal F → F.Float
  to_float v = get_float (F.narrow F.zero_double) v

pub record AvgFunc (F : Floats) : Type 0 where
  pub field_pos : ℕ
  pub total_val : Totals F
  pub data_cnt : ℕ

module _ {F : Floats} where
  unfoldable pub new : ℕ → AvgFunc F
  new pos_ = record { field_pos = pos_; total_val = zero_total; data_cnt = 0 }

  -- `totalVal_ += v; dataCnt_++;`
  abbrev pub count_in : Totals F → AvgFunc F → PdbErr × AvgFunc F
  count_in t s = (ok, record s { total_val = t; data_cnt = suc s.data_cnt })

  -- The ladder of `if constexpr` in `AppendSingle`.
  unfoldable pub add_value : FieldType → DbVal F → AvgFunc F → PdbErr × AvgFunc F
  add_value type_int8 v s = count_in (add_int (get_int v) s.total_val) s
  add_value type_int16 v s = count_in (add_int (get_int v) s.total_val) s
  add_value type_int32 v s = count_in (add_int (get_int v) s.total_val) s
  add_value type_int64 v s = count_in (add_int (get_int v) s.total_val) s
  add_value type_float v s = count_in (add_double_to (F.widen (to_float v)) s.total_val) s
  add_value type_double v s = count_in (add_double_to (get_double v) s.total_val) s
  add_value _ v s = (invalid_param, s)

  unfoldable pub append_single : FieldType → List (DbVal F) → AvgFunc F → PdbErr × AvgFunc F
  unfolding add_value
  append_single ty vals s =
      let v = get_or vals s.field_pos null in
      if is_null v
      then (ok, s)
      else if not (data_type v == code ty)
      then (invalid_param, s)
      else add_value ty v s

  -- The body of the loop in `AppendArrayInner`.
  unfoldable pub append_cell : FieldType → BlockValues F → ℕ → AvgFunc F → PdbErr × AvgFunc F
  unfolding add_value
  append_cell ty b i s =
      let v = cell (column b s.field_pos) i in
      if is_null v
      then (ok, s)
      else if not (data_type v == code ty)
      then (invalid_param, s)
      else add_value ty v s

  unfoldable pub append_array_inner :
      FieldType → BlockValues F → Bool → Bool → ℕ → List ℕ → AvgFunc F → PdbErr × AvgFunc F
  append_array_inner ty b have_group have_filter group_id group_ids =
      scan (skips have_group have_filter b group_id group_ids) (append_cell ty b) b.record_size 0

  unfoldable pub append_array :
      FieldType → BlockValues F → ℕ → List ℕ → AvgFunc F → PdbErr × AvgFunc F
  append_array ty b = append_array_with (append_array_inner ty b) b

  -- The value that the first ladder of `GetResult` stores, over the old one.
  abbrev small_result : FieldType → ℤ → DbVal F → DbVal F
  small_result type_int8 q out = int8 (cast8 q)
  small_result type_int16 q out = int16 (cast16 q)
  small_result type_int32 q out = int32 (cast32 q)
  small_result _ q out = out

  -- The second ladder, which starts anew at INT64 and whose last `else` returns an error.
  abbrev wide_result : FieldType → AvgFunc F → DbVal F → PdbErr × DbVal F
  wide_result type_int64 s out = (ok, int64 (tdiv s.total_val.int_total s.data_cnt))
  wide_result type_float s out =
      (ok, float (F.narrow (F.div_int64 s.total_val.double_total (pos s.data_cnt))))
  wide_result type_double s out =
      (ok, double (F.div_int64 s.total_val.double_total (pos s.data_cnt)))
  wide_result _ s out = (invalid_param, out)

  unfoldable pub get_result : FieldType → AvgFunc F → DbVal F → PdbErr × DbVal F
  get_result ty s out =
      if ltb 0 s.data_cnt
      then wide_result ty s (small_result ty (tdiv s.total_val.int_total s.data_cnt) out)
      else (ok, null)
