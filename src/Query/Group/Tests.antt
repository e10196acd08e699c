-- ===== src/Query/Group/Tests.antt =====
-- Concrete blocks for the aggregates of src/pinusdb/query/group_function.h.
use pinusdb.Prelude.{
  ℕ, zero, suc, get_or, ◌≤◌, ◌<◌, ◌≡◌, ◌⊎◌, inl, inr, refl, true, false, some, List, [], ◌∷◌, All,
  arith, if◌then◌else◌, ltb,
}
use pinusdb.Prelude.Int.{pos, ◌+ℤ◌, tdiv, cast, cast64}
use pinusdb.Value.{
  DbVal, ok, null, string, int32, int64, datetime, is_null, data_type, code, type_int32,
  type_string, type_int64, type_datetime,
}
use pinusdb.Value.Integral.{integral}
use pinusdb.Query.Block.{BlockValues, cell, column}
use pinusdb.Query.Group.{scan, append_rows, append_array_with, rows_from}
use pinusdb.Query.Group.Laws.{append_selected}
use pinusdb.Query.Group.Avg
use pinusdb.Query.Group.Sum
use pinusdb.Query.Group.Count
use pinusdb.Query.Group.FirstLast
use pinusdb.Query.Group.Extreme
use pinusdb.Query.Group.Arrays.{
  avg_append_array, sum_append_array, count_append_array, first_last_append_array,
  extreme_append_array,
}
use pinusdb.Query.Group.Total.{exact_sum, non_null, sum_result, avg_result}
use pinusdb.Query.Group.Extremes.{Dominated, Occurs, max_result}

-- Three records of the device 7, of which the filter drops the second.
abbrev block : BlockValues integral
block = record {
  record_size = 3;
  result_size = 2;
  result_idx_vec = [];
  filter_vec = true ∷ false ∷ true ∷ [];
  column_vec =
      some (int64 (pos 7) ∷ int64 (pos 7) ∷ int64 (pos 7) ∷ [])
      ∷ some (datetime (pos 100) ∷ datetime (pos 200) ∷ datetime (pos 300) ∷ [])
      ∷ some (int32 (pos 5) ∷ int32 (pos 8) ∷ int32 (pos 9) ∷ [])
      ∷ [];
}

-- The same records without a filter.
abbrev whole_block : BlockValues integral
whole_block = record block { result_size = 3; filter_vec = [] }

abbrev rows : List (List (DbVal integral))
rows = (int64 (pos 5) ∷ []) ∷ (null ∷ []) ∷ (int64 (pos 8) ∷ []) ∷ []

sum_of_block : (Sum.append_array type_int32 block 0 [] (Sum.new 2)).1.sum_val.int_total ≡ pos 14
unfolding Sum.append_array Sum.append_array_inner append_array_with scan Sum.append_cell Sum.new
    cast ◌+ℤ◌
sum_of_block = refl

avg_append_array_example :
    Avg.append_array type_int32 block 0 [] (Avg.new 2)
    ≡ append_selected (Avg.append_single type_int32) block 0 [] (Avg.new 2)
avg_append_array_example = avg_append_array block type_int32 0 [] (Avg.new 2)

sum_append_array_example :
    Sum.append_array type_int32 block 1 (1 ∷ 1 ∷ 2 ∷ []) (Sum.new 2)
    ≡ append_selected (Sum.append_single type_int32) block 1 (1 ∷ 1 ∷ 2 ∷ []) (Sum.new 2)
sum_append_array_example = sum_append_array block type_int32 1 (1 ∷ 1 ∷ 2 ∷ []) (Sum.new 2)

keys_there : (p j : ℕ) → p ≤ 1 → j < 3 → is_null (cell (column block p) j) ≡ false
keys_there zero zero h k = refl
keys_there zero (suc zero) h k = refl
keys_there zero (suc (suc zero)) h k = refl
keys_there (suc zero) zero h k = refl
keys_there (suc zero) (suc zero) h k = refl
keys_there (suc zero) (suc (suc zero)) h k = refl
keys_there zero (suc (suc (suc j))) h k = absurd (omega arith)
keys_there (suc zero) (suc (suc (suc j))) h k = absurd (omega arith)
keys_there (suc (suc p)) j h k = absurd (omega arith)

count_append_array_example :
    Count.append_array block 0 [] (Count.new 0)
    ≡ append_selected Count.append_single block 0 [] (Count.new 0)
unfolding rows_from
count_append_array_example = count_append_array block 0 [] (Count.new 0) refl keys_there

stamps : (i : ℕ) → i < 3 → data_type (cell (column block 1) i) ≡ code type_datetime
stamps zero h = refl
stamps (suc zero) h = refl
stamps (suc (suc zero)) h = refl
stamps (suc (suc (suc i))) h = absurd (omega arith)

first_last_append_array_example :
    FirstLast.append_array type_int32 true block 0 [] (FirstLast.new true 2)
    ≡ append_selected (FirstLast.append_single type_int32 true) block 0 [] (FirstLast.new true 2)
unfolding FirstLast.new
first_last_append_array_example =
    first_last_append_array block type_int32 true 0 [] (FirstLast.new true 2) refl refl stamps

-- A string of at least 15 bytes.
abbrev grow : ℕ → ℕ → ℕ
grow c n = if ltb 15 n then n else 15

-- The first string that AppendSingle stores is all zeros.
string_lost :
    append_rows
      (Extreme.append_single {F = integral} grow type_int32 type_string true)
      ((int32 (pos 5) ∷ string (97 ∷ 98 ∷ []) ∷ []) ∷ [])
      (Extreme.new grow 0 1)
    ≡ (
      ok,
      record (Extreme.new {F = integral} grow 0 1) {
        compare_val = int32 (pos 5);
        target_val = string (0 ∷ 0 ∷ []);
        target_buf = 0 ∷ 0 ∷ [];
      },
    )
unfolding append_rows Extreme.append_single Extreme.new
string_lost = refl

extreme_append_array_example :
    Extreme.append_array grow type_int32 type_int32 true block 0 [] (Extreme.new grow 2 2)
    ≡ append_selected
        (Extreme.append_single grow type_int32 type_int32 true)
        block
        0
        []
        (Extreme.new grow 2 2)
extreme_append_array_example =
    extreme_append_array block grow type_int32 type_int32 true 0 [] (Extreme.new grow 2 2) refl
      (λ e. cc) (λ e. cc)

sum_result_example :
    let r = append_rows (Sum.append_single type_int64) rows (Sum.new 0) in
    (r.0 ≡ ok)
    × (Sum.get_result type_int64 r.1 null
        ≡ (ok, if ltb 0 (non_null 0 rows) then int64 (cast64 (exact_sum 0 rows)) else null))
sum_result_example = sum_result type_int64 0 rows null refl (inr refl, (inl refl, (inr refl, tt)))

avg_result_example :
    let r = append_rows (Avg.append_single type_int64) rows (Avg.new 0) in
    (r.0 ≡ ok)
    × (Avg.get_result type_int64 r.1 null ≡ (
      ok,
      if ltb 0 (non_null 0 rows)
          then int64 (tdiv (cast64 (exact_sum 0 rows)) (non_null 0 rows))
          else null,
    ))
avg_result_example = avg_result 0 rows null (inr refl, (inl refl, (inr refl, tt)))

abbrev small_rows : List (List (DbVal integral))
small_rows = (int32 (pos 5) ∷ []) ∷ (null ∷ []) ∷ []

max_result_example :
    let r =
      append_rows
        (Extreme.append_single grow type_int64 type_int64 true)
        rows
        (Extreme.new grow 0 0) in
    let m = (Extreme.get_result r.1 null).1 in
    (r.0 ≡ ok)
    × All (λ v. Dominated (get_or v 0 null) m) rows
    × ((is_null m ≡ true) ⊎ Occurs 0 m rows)
max_result_example =
    max_result grow type_int64 (inr (inr (inr refl))) 0 rows null
      (inr refl, (inl refl, (inr refl, tt)))
