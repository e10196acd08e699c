-- ===== src/Query/Conditions.antt =====
-- src/pinusdb/query/condition_filter.cpp: the conditions of a query. A condition is given as the
-- tree of its ANDs; what `BuildGeneralValueItem` makes of any other expression stands in the tree,
-- `none` for nullptr. GetValue(nullptr, ..) is a call on no values. GetUseFields, the destructor
-- and the null tests of pointers are left out.
mod Tests
pub mod Laws
pub mod Ranges
pub mod Comparisons
use pinusdb.Prelude.{
  Bool, true, false, Option, none, some, List, [], ◌∷◌, ◌++◌, ◌==◌, ◌&&◌, ◌||◌, not, if◌then◌else◌,
}
use pinusdb.Prelude.Int.{ℤ, pos, ltb_ℤ, leb_ℤ}
use pinusdb.Value.{
  Floats, DbVal, PdbErr, ok, sql_condition_expr_error, int64, bool, null, is_true, data_type,
}
use pinusdb.Query.Block.{BlockValues, merge_filter}
use pinusdb.Query.Items.{ValueItem, int64_max}

-- DateTime::MinMicrosecond and DateTime::MaxMicrosecond (util/date_time.h).
abbrev pub min_microsecond : ℤ
min_microsecond = pos 0

abbrev pub max_microsecond : ℤ
max_microsecond = pos 32503593599999999

-- The expression of a WHERE clause.
pub data ExprValue (F : Floats) : Type 0 where
  and_expr : ExprValue F → ExprValue F → ExprValue F
  -- An AND without one of its operands.
  and_missing : ExprValue F
  general : Option (ValueItem F) → ExprValue F

pub record ConditionFilter (F : Floats) : Type 0 where
  pub always_false : Bool
  pub min_dev_id : ℤ
  pub max_dev_id : ℤ
  pub min_tstamp : ℤ
  pub max_tstamp : ℤ
  pub condition_vec : List (ValueItem F)
  pub dev_id_condi_vec : List (ValueItem F)

module _ {F : Floats} where
  -- ConditionFilter::ConditionFilter
  abbrev pub new : ConditionFilter F
  new = record {
    always_false = false;
    min_dev_id = pos 1;
    max_dev_id = int64_max;
    min_tstamp = min_microsecond;
    max_tstamp = max_microsecond;
    condition_vec = [];
    dev_id_condi_vec = [];
  }

  -- DBVAL_IS_BOOL(v) && !DBVAL_GET_BOOL(v)
  abbrev pub is_false : DbVal F → Bool
  is_false (bool b) = not b
  is_false _ = false

  -- The test of a constant condition.
  unfoldable pub note_const : ValueItem F → ConditionFilter F → ConditionFilter F
  note_const it c =
      let r = it.get_value [] in
      let closed : Bool = elim r.0 [ ok ↦ is_false r.1 | e ↦ false ] in
      if it.is_const_value && closed then record c { always_false = true } else c

  -- The conditions on the device id.
  unfoldable pub note_dev_id : ValueItem F → ConditionFilter F → ConditionFilter F
  note_dev_id it c = if not it.is_dev_id_condition then c else elim it.dev_id_range [
    | none ↦ record c { dev_id_condi_vec = c.dev_id_condi_vec ++ (it ∷ []) }
    | some r ↦ record c {
      dev_id_condi_vec = c.dev_id_condi_vec ++ (it ∷ []);
      min_dev_id = if leb_ℤ c.min_dev_id r.0 then r.0 else c.min_dev_id;
      max_dev_id = if leb_ℤ r.1 c.max_dev_id then r.1 else c.max_dev_id;
    }
  ]

  -- The conditions on the time stamp.
  unfoldable pub note_tstamp : ValueItem F → ConditionFilter F → ConditionFilter F
  note_tstamp it c = if not it.is_tstamp_condition then c else elim it.tstamp_range [
    | none ↦ c
    | some r ↦ record c {
      min_tstamp = if leb_ℤ c.min_tstamp r.0 then r.0 else c.min_tstamp;
      max_tstamp = if leb_ℤ r.1 c.max_tstamp then r.1 else c.max_tstamp;
    }
  ]

  abbrev pub push_condition : ValueItem F → ConditionFilter F → ConditionFilter F
  push_condition it c = record c { condition_vec = c.condition_vec ++ (it ∷ []) }

  unfoldable pub build_condition : ExprValue F → ConditionFilter F → PdbErr × ConditionFilter F
  unfolding note_const note_dev_id note_tstamp
  build_condition (and_expr left right) c =
      let r = build_condition left c in elim r.0 [ ok ↦ build_condition right r.1 | e ↦ (e, r.1) ]
  build_condition and_missing c = (sql_condition_expr_error, c)
  build_condition (general none) c = (sql_condition_expr_error, c)
  build_condition (general (some it)) c =
      let c1 = push_condition it c in
      if not (it.value_type == 1)
      then (sql_condition_expr_error, c1)
      else (ok, note_tstamp it (note_dev_id it (note_const it c1)))

  -- The loop of RunCondition.
  unfoldable pub run_condition : List (ValueItem F) → List (DbVal F) → PdbErr × Bool
  run_condition [] vals = (ok, true)
  run_condition (it ∷ its) vals =
      let r = it.get_value vals in
      let rest = run_condition its vals in
      elim r.0 [ ok ↦ if is_true r.1 then rest else (ok, false) | e ↦ (e, false) ]

  -- The loop of RunConditionArray.
  unfoldable pub run_condition_array : List (ValueItem F) → BlockValues F → PdbErr × BlockValues F
  run_condition_array [] b = (ok, b)
  run_condition_array (it ∷ its) b =
      let r = it.get_value_array b in
      let m = merge_filter r.1 b in
      let rest = run_condition_array its m.1 in
      elim r.0 [
        | ok ↦ elim m.0 [ ok ↦ if m.1.result_size == 0 then (ok, m.1) else rest | e ↦ (e, m.1) ]
        | e ↦ (e, b)
      ]

  -- The loop of FilterDevId; `&tmpVal` is a record of one value.
  unfoldable pub filter_dev_id : List (ValueItem F) → ℤ → Bool
  filter_dev_id [] dev_id = true
  filter_dev_id (it ∷ its) dev_id =
      let r = it.get_value (int64 dev_id ∷ []) in
      let rest = filter_dev_id its dev_id in elim r.0 [ ok ↦ is_true r.1 && rest | e ↦ false ]

  -- AlwaysFalse
  unfoldable pub is_always_false : ConditionFilter F → Bool
  is_always_false c =
      c.always_false || ltb_ℤ c.max_dev_id c.min_dev_id || ltb_ℤ c.max_tstamp c.min_tstamp
