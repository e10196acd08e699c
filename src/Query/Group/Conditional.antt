-- ===== src/Query/Group/Conditional.antt =====
-- AggIfExtendFunc of src/pinusdb/query/group_function.h over a whole block.
use pinusdb.Prelude.{ℕ, zero, suc, ◌+◌, ◌≤◌, ◌<◌, ◌≡◌, ◌≢◌, refl, true, List, [], arith}
use pinusdb.Value.{Floats, DbVal, PdbErr, ok}
use pinusdb.Query.Block.{BlockValues, get_record_value, row}
use pinusdb.Query.Block.Records.{get_record_value_sizes, get_record_value_whole}
use pinusdb.Query.Group.{append_rows, rows_from}
use pinusdb.Query.Group.AggIf

module _ {F : Floats} {S : Type 0} (condition : List (DbVal F) → PdbErr × DbVal F)
    (field : List (DbVal F) → S → PdbErr × S) where
  append_loop_short :
      (n i : ℕ) (b : BlockValues F) (s : S)
      → i ≤ b.result_size
      → b.result_size < n + i
      → (AggIf.append_loop condition field n i b s).0 ≢ ok
  unfolding AggIf.append_loop
  append_loop_short zero i b s h k = absurd (omega arith)
  append_loop_short (suc n) i b s h k = ground (
    arith,
    get_record_value_sizes i b,
    append_loop_short n (suc i) (get_record_value i b).2
        (AggIf.append_single condition field (get_record_value i b).1 s).1,
  )

  -- A block whose filter drops a record makes the call fail, whatever the condition and the inner
  -- aggregate are: the loop runs over all the records and asks for those past the result.
  append_array_filtered :
      (b : BlockValues F) (group_id : ℕ) (group_ids : List ℕ) (s : S)
      → b.result_size < b.record_size
      → (AggIf.append_array condition field b group_id group_ids s).0 ≢ ok
  unfolding AggIf.append_array
  append_array_filtered b group_id group_ids s h =
      append_loop_short b.record_size 0 b s (omega arith) (omega arith)

  append_loop_whole :
      (n i : ℕ) (b : BlockValues F) (s : S)
      → b.filter_vec ≡ []
      → n + i ≤ b.result_size
      → let r = append_rows (AggIf.append_single condition field) (rows_from (λ j. true) b n i) s in
        AggIf.append_loop condition field n i b s ≡ (r.0, r.1, b)
  unfolding AggIf.append_loop append_rows rows_from
  append_loop_whole zero i b s e h = refl
  append_loop_whole (suc n) i b s e h = ground (
    arith,
    get_record_value_whole i b e (omega arith),
    append_loop_whole n (suc i) b (AggIf.append_single condition field (row b i) s).1 e
        (omega arith),
  )

  -- Without a filter the call appends every record of the block one by one, also the records of
  -- other groups than the one that it is given.
  pub append_array_whole :
      (b : BlockValues F) (group_id : ℕ) (group_ids : List ℕ) (s : S)
      → b.filter_vec ≡ []
      → b.result_size ≡ b.record_size
      → let r =
          append_rows
            (AggIf.append_single condition field)
            (rows_from (λ j. true) b b.record_size 0)
            s in
        AggIf.append_array condition field b group_id group_ids s ≡ (r.0, r.1, b)
  unfolding AggIf.append_array
  append_array_whole b group_id group_ids s e h =
      append_loop_whole b.record_size 0 b s e (omega arith)
