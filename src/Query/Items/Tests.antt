-- ===== src/Query/Items/Tests.antt =====
-- Concrete value items for src/pinusdb/query/value_item.cpp.
use pinusdb.Prelude.{◌≡◌, refl, Bool, true, false, some, List, [], ◌∷◌, get_or}
use pinusdb.Prelude.Int.{pos}
use pinusdb.Value.{DbVal, ok, null, bool, int32, int64, type_int32}
use pinusdb.Value.Integral.{integral}
use pinusdb.Query.Block.{BlockValues}
use pinusdb.Query.Items.{
  const_value, field_compare, compared, compare_field, and_function, column_loop, value_loop, tk_gt,
}
use pinusdb.Query.Items.Laws.{IsPointwise, const_value-IsPointwise, field_compare-IsPointwise}
use pinusdb.Query.Items.And.{IsTest, all_tests, and_function-IsPointwise}

-- Three records of which the filter drops the second.
abbrev block : BlockValues integral
block = record {
  record_size = 3;
  result_size = 2;
  result_idx_vec = [];
  filter_vec = true ∷ false ∷ true ∷ [];
  column_vec =
      some (int64 (pos 7) ∷ int64 (pos 7) ∷ int64 (pos 7) ∷ [])
      ∷ some (int32 (pos 5) ∷ int32 (pos 8) ∷ int32 (pos 9) ∷ [])
      ∷ [];
}

greater_six_of_block :
    (field_compare type_int32 tk_gt 1 (int64 (pos 6))).get_value_array block
    ≡ (ok, bool false ∷ bool true ∷ [])
unfolding field_compare column_loop value_loop compare_field
greater_six_of_block = refl

field_compare-IsPointwise_example :
    IsPointwise {F = integral}
      (field_compare type_int32 tk_gt 1 (int64 (pos 6)))
      (λ r. compared type_int32 tk_gt (int64 (pos 6)) (get_or r 1 null))
field_compare-IsPointwise_example = field_compare-IsPointwise type_int32 tk_gt 1 (int64 (pos 6))

abbrev test_of : Bool → List (DbVal integral) → Bool
test_of b r = b

and_function-IsPointwise_example :
    IsTest {F = integral}
      (and_function (const_value (bool true)) (const_value (bool false) ∷ []))
      (all_tests (test_of true ∷ test_of false ∷ []))
and_function-IsPointwise_example =
    and_function-IsPointwise (const_value (bool true)) (const_value (bool false) ∷ [])
      (test_of true) (test_of false ∷ []) (const_value-IsPointwise (bool true))
      (const_value-IsPointwise (bool false), tt)
