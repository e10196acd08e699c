-- ===== src/Query/Conditions/Tests.antt =====
-- Concrete conditions for src/pinusdb/query/condition_filter.cpp.
use pinusdb.Prelude.{◌≡◌, refl, true, false, some, List, [], ◌∷◌, get_or, inl, arith}
use pinusdb.Prelude.Int.{pos, ◌≤ℤ◌}
use pinusdb.Value.{DbVal, ok, null, int32, int64, datetime, type_int32, type_int64, type_datetime}
use pinusdb.Value.Integral.{integral}
use pinusdb.Query.Block.{BlockValues, row}
use pinusdb.Query.Block.Laws.{IsSized}
use pinusdb.Query.Block.Positions.{positions}
use pinusdb.Query.Items.{ValueItem, field_compare, compared, compare_field, tk_gt, tk_eq, tk_le}
use pinusdb.Query.Items.Laws.{field_compare-IsPointwise}
use pinusdb.Query.Conditions.{
  ExprValue, new, build_condition, run_condition, run_condition_array, filter_dev_id,
  is_always_false, note_const, note_dev_id, note_tstamp,
}
use pinusdb.Query.Conditions.Laws.{keep_if, run_condition_array-run_condition}
use pinusdb.Query.Conditions.Ranges.{InWindow, build_condition_lem}
use pinusdb.Query.Conditions.Comparisons.{field_compare-IsRanged}

abbrev of_dev : ValueItem integral
of_dev = field_compare type_int64 tk_eq 0 (int64 (pos 7))

abbrev until : ValueItem integral
until = field_compare type_datetime tk_le 1 (int64 (pos 200))

abbrev above_six : ValueItem integral
above_six = field_compare type_int32 tk_gt 2 (int64 (pos 6))

abbrev block : BlockValues integral
block = record {
  record_size = 3;
  result_size = 3;
  result_idx_vec = [];
  filter_vec = [];
  column_vec =
      some (int64 (pos 7) ∷ int64 (pos 7) ∷ int64 (pos 7) ∷ [])
      ∷ some (datetime (pos 100) ∷ datetime (pos 200) ∷ datetime (pos 300) ∷ [])
      ∷ some (int32 (pos 5) ∷ int32 (pos 8) ∷ int32 (pos 9) ∷ [])
      ∷ [];
}

block-IsSized : IsSized block
block-IsSized = record { unfiltered = λ e. refl; filtered = inl refl; counted = inl refl }

run_condition_array-run_condition_example :
    let r = run_condition_array (until ∷ above_six ∷ []) block in
    (r.0 ≡ ok)
    × IsSized r.1
    × (r.1.column_vec ≡ block.column_vec)
    × (r.1.record_size ≡ 3)
    × (positions r.1
        ≡ keep_if (λ i. (run_condition (until ∷ above_six ∷ []) (row block i)).1) (positions block))
run_condition_array-run_condition_example =
    run_condition_array-run_condition (until ∷ above_six ∷ [])
      ((λ r. compared type_datetime tk_le (int64 (pos 200)) (get_or r 1 null))
        ∷ (λ r. compared type_int32 tk_gt (int64 (pos 6)) (get_or r 2 null))
        ∷ [])
      block
      (
        field_compare-IsPointwise type_datetime tk_le 1 (int64 (pos 200)),
        (field_compare-IsPointwise type_int32 tk_gt 2 (int64 (pos 6)), tt),
      )
      block-IsSized

-- WHERE devid = 7 AND tstamp <= 200
abbrev where_clause : ExprValue integral
where_clause = ExprValue.and_expr (ExprValue.general (some of_dev)) (ExprValue.general (some until))

abbrev second : List (DbVal integral)
second = int64 (pos 7) ∷ datetime (pos 200) ∷ int32 (pos 8) ∷ []

second-InWindow : InWindow second (pos 7) (pos 200)
second-InWindow = record {
  device = refl;
  low_id = omega arith;
  high_id = omega arith;
  stamp = refl;
  low_time = omega arith;
  high_time = omega arith;
}

accepted : run_condition (build_condition where_clause new).1.condition_vec second ≡ (ok, true)
unfolding build_condition run_condition field_compare compare_field note_const note_dev_id
    note_tstamp
accepted = refl

build_condition_lem_example :
    let c = (build_condition where_clause new).1 in
    (c.min_dev_id ≤ℤ pos 7)
    × (pos 7 ≤ℤ c.max_dev_id)
    × (c.min_tstamp ≤ℤ pos 200)
    × (pos 200 ≤ℤ c.max_tstamp)
    × (filter_dev_id c.dev_id_condi_vec (pos 7) ≡ true)
    × (is_always_false c ≡ false)
build_condition_lem_example =
    build_condition_lem where_clause second (pos 7) (pos 200)
      (
        field_compare-IsRanged type_int64 tk_eq 0 (int64 (pos 7)),
        field_compare-IsRanged type_datetime tk_le 1 (int64 (pos 200)),
      )
      second-InWindow accepted
