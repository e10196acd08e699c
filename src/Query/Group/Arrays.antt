-- ===== src/Query/Group/Arrays.antt =====
-- What the aggregates of src/pinusdb/query/group_function.h do with a whole block: the same as with
-- its selected records one by one, under the conditions that each of them needs.
use pinusdb.Prelude.{
  ℕ, zero, suc, ◌+◌, ◌≤◌, ◌<◌, ◌≡◌, ◌≢◌, refl, Bool, true, false, List, [], ◌∷◌, length, arith, leb,
  leb→le, Bool-cases, inl, inr,
}
use pinusdb.Value.{
  Floats, DbVal, ok, FieldType, code, data_type, is_null, type_datetime, type_int64, type_float,
}
use pinusdb.Query.Block.{BlockValues, row, cell, column}
use pinusdb.Query.Group.{append_array_with, selected, selected_rows, rows_from, append_rows}
use pinusdb.Query.Group.Laws.{get_or-row, append_selected, append_array_with-append_rows}
use pinusdb.Query.Group.Avg
use pinusdb.Query.Group.Avg.{AvgFunc}
use pinusdb.Query.Group.Sum
use pinusdb.Query.Group.Sum.{SumFunc}
use pinusdb.Query.Group.Count
use pinusdb.Query.Group.Count.{CountFunc, tstamp_index}
use pinusdb.Query.Group.FirstLast
use pinusdb.Query.Group.FirstLast.{FirstOrLast, is_block}
use pinusdb.Query.Group.Extreme
use pinusdb.Query.Group.Extreme.{ExtremeValue}

module _ {F : Floats} (b : BlockValues F) where
  avg_cell :
      (ty : FieldType) (i : ℕ) (s : AvgFunc F)
      → Avg.append_cell ty b i s ≡ Avg.append_single ty (row b i) s
  unfolding Avg.append_cell Avg.append_single
  avg_cell ty i s = rw (get_or-row b i s.field_pos)

  -- AvgFunc: a block adds what its selected records add one by one, error and partial state
  -- included; a list of groups of another length than the block is refused.
  pub avg_append_array :
      (ty : FieldType) (group_id : ℕ) (group_ids : List ℕ) (s : AvgFunc F)
      → Avg.append_array ty b group_id group_ids s
        ≡ append_selected (Avg.append_single ty) b group_id group_ids s
  unfolding Avg.append_array Avg.append_array_inner
  avg_append_array ty =
      append_array_with-append_rows b (Avg.append_cell ty b) (Avg.append_single ty)
        (λ i h. avg_cell ty i)

  sum_cell :
      (ty : FieldType) (i : ℕ) (s : SumFunc F)
      → Sum.append_cell ty b i s ≡ Sum.append_single ty (row b i) s
  unfolding Sum.append_cell Sum.append_single
  sum_cell ty i s = rw (get_or-row b i s.field_pos)

  -- SumFunc: a block adds what its selected records add one by one, error and partial state
  -- included; a list of groups of another length than the block is refused.
  pub sum_append_array :
      (ty : FieldType) (group_id : ℕ) (group_ids : List ℕ) (s : SumFunc F)
      → Sum.append_array ty b group_id group_ids s
        ≡ append_selected (Sum.append_single ty) b group_id group_ids s
  unfolding Sum.append_array Sum.append_array_inner
  sum_append_array ty =
      append_array_with-append_rows b (Sum.append_cell ty b) (Sum.append_single ty)
        (λ i h. sum_cell ty i)

  count_cell : (i : ℕ) (s : CountFunc) → Count.append_cell b i s ≡ Count.append_single (row b i) s
  unfolding Count.append_cell Count.append_single
  count_cell i s = rw (get_or-row b i s.field_pos)

  count_array :
      (group_id : ℕ) (group_ids : List ℕ) (s : CountFunc)
      → append_array_with (Count.append_array_inner b) b group_id group_ids s
        ≡ append_selected Count.append_single b group_id group_ids s
  unfolding Count.append_array_inner
  count_array =
      append_array_with-append_rows b (Count.append_cell b) Count.append_single
        (λ i h. count_cell i)

  -- A count of records in which the counted value is there.
  count_rows :
      (keep : ℕ → Bool) (n i : ℕ) (s : CountFunc)
      → n + i ≤ b.record_size
      → ((j : ℕ) → j < b.record_size → is_null (cell (column b s.field_pos) j) ≡ false)
      → append_rows Count.append_single (rows_from keep b n i) s
        ≡ (ok, record s { data_cnt = s.data_cnt + length (rows_from keep b n i) })
  unfolding append_rows rows_from Count.append_single
  count_rows keep zero i s r h = ground arith
  count_rows keep (suc n) i s r h = ground (
    arith,
    h i (omega arith),
    get_or-row b i s.field_pos,
    count_rows keep n (suc i) s (omega arith) h,
    count_rows keep n (suc i) (record s { data_cnt = suc s.data_cnt }) (omega arith) h,
  )

  -- CountFunc: a block counts what its selected records count one by one, also where the class
  -- takes the size of the result instead of reading the column. That needs the size to be the
  -- number of the records that the filter keeps, and no null device id or time stamp.
  pub count_append_array :
      (group_id : ℕ) (group_ids : List ℕ) (s : CountFunc)
      → b.result_size ≡ length (selected_rows b 0 [])
      → ((p j : ℕ) → p ≤ tstamp_index → j < b.record_size → is_null (cell (column b p) j) ≡ false)
      → Count.append_array b group_id group_ids s
        ≡ append_selected Count.append_single b group_id group_ids s
  unfolding Count.append_array
  count_append_array group_id [] s size keys = elim (Bool-cases (leb s.field_pos tstamp_index)) [
    | inl key ↦
        let all =
          count_rows (selected b group_id []) b.record_size 0 s (omega arith)
            (λ j. keys s.field_pos j (omega (arith, leb→le s.field_pos 1))) in
        ground (arith, all, size)
    | inr other ↦ ground (arith, count_array group_id [] s)
  ]
  count_append_array group_id (g ∷ gs) s size keys = count_array group_id (g ∷ gs) s

  first_last_cell :
      (ty : FieldType) (is_first : Bool) (i : ℕ) (s : FirstOrLast F)
      → data_type (cell (column b tstamp_index) i) ≡ code type_datetime
      → FirstLast.append_cell ty is_first b i s ≡ FirstLast.append_single ty is_first (row b i) s
  unfolding FirstLast.append_cell FirstLast.append_single
  first_last_cell ty is_first i s stamp =
      rw (get_or-row b i s.field_pos, get_or-row b i tstamp_index, stamp)

  -- FirstOrLastValueFunc: a block in which both columns are loaded and every time stamp is one
  -- does what its selected records do one by one.
  pub first_last_append_array :
      (ty : FieldType) (is_first : Bool) (group_id : ℕ) (group_ids : List ℕ) (s : FirstOrLast F)
      → FirstLast.is_loaded b tstamp_index ≡ true
      → FirstLast.is_loaded b s.field_pos ≡ true
      → ((i : ℕ)
          → i < b.record_size
          → data_type (cell (column b tstamp_index) i) ≡ code type_datetime)
      → FirstLast.append_array ty is_first b group_id group_ids s
        ≡ append_selected (FirstLast.append_single ty is_first) b group_id group_ids s
  unfolding FirstLast.append_array FirstLast.append_array_inner append_array_with
  first_last_append_array ty is_first group_id group_ids s l1 l2 stamps =
      rw (l1, l2)
        (append_array_with-append_rows b (FirstLast.append_cell ty is_first b)
          (FirstLast.append_single ty is_first)
          (λ i h s'. first_last_cell ty is_first i s' (stamps i h)) group_id group_ids s)

  -- The two ladders of ExtremeValueFunc agree but for int64 and float.
  array_stays-single_stays :
      (ty : FieldType) (is_max : Bool) (v c : DbVal F)
      → ty ≢ type_int64
      → ty ≢ type_float
      → Extreme.array_stays ty is_max v c ≡ Extreme.single_stays ty is_max v c
  unfolding Extreme.array_stays Extreme.single_stays
  array_stays-single_stays type_int64 is_max v c h k = absurd (h refl)
  array_stays-single_stays type_float is_max v c h k = absurd (k refl)
  array_stays-single_stays _ is_max v c h k = refl

  extreme_cell :
      (grow : ℕ → ℕ → ℕ) (cty tty : FieldType) (is_max : Bool) (i : ℕ) (s : ExtremeValue F)
      → is_block tty ≡ false
      → cty ≢ type_int64
      → cty ≢ type_float
      → Extreme.append_cell grow cty tty is_max b i s
        ≡ Extreme.append_single grow cty tty is_max (row b i) s
  unfolding Extreme.append_cell Extreme.append_single
  extreme_cell grow cty tty is_max i s plain h k = rw (
    plain,
    get_or-row b i s.compare_pos,
    get_or-row b i s.target_pos,
    array_stays-single_stays cty is_max (cell (column b s.compare_pos) i) s.compare_val h k,
  )

  -- ExtremeValueFunc with a target that is no string or blob: for every compared type but int64 and
  -- float a block does what its selected records do one by one, error and partial state included.
  pub extreme_append_array :
      (grow : ℕ → ℕ → ℕ) (cty tty : FieldType) (is_max : Bool) (group_id : ℕ) (group_ids : List ℕ)
      (s : ExtremeValue F)
      → is_block tty ≡ false
      → cty ≢ type_int64
      → cty ≢ type_float
      → Extreme.append_array grow cty tty is_max b group_id group_ids s
        ≡ append_selected (Extreme.append_single grow cty tty is_max) b group_id group_ids s
  unfolding Extreme.append_array Extreme.append_array_inner
  extreme_append_array grow cty tty is_max group_id group_ids s plain h k =
      append_array_with-append_rows b (Extreme.append_cell grow cty tty is_max b)
        (Extreme.append_single grow cty tty is_max)
        (λ i r s'. extreme_cell grow cty tty is_max i s' plain h k) group_id group_ids s
