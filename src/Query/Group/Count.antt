-- ===== src/Query/Group/Count.antt =====
-- CountFunc of src/pinusdb/query/group_function.h.
use pinusdb.Prelude.{ℕ, suc, ◌+◌, Bool, List, leb, get_or, if◌then◌else◌}
use pinusdb.Value.{Floats, DbVal, PdbErr, ok, is_null, null, int64}
use pinusdb.Prelude.Int.{pos}
use pinusdb.Query.Block.{BlockValues, column, cell}
use pinusdb.Query.Group.{scan, skips, is_empty, append_array_with}

pub record CountFunc : Type 0 where
  pub field_pos : ℕ
  pub data_cnt : ℕ

-- PDB_TSTAMP_INDEX, the place of the time stamp in a record; PDB_DEVID_INDEX is 0.
abbrev pub tstamp_index : ℕ
tstamp_index = 1

unfoldable pub new : ℕ → CountFunc
new p = record { field_pos = p; data_cnt = 0 }

module _ {F : Floats} where
  unfoldable pub append_single : List (DbVal F) → CountFunc → PdbErr × CountFunc
  append_single vals s =
      if is_null (get_or vals s.field_pos null)
      then (ok, s)
      else (ok, record s { data_cnt = suc s.data_cnt })

  -- The body of the loop in `AppendArrayInner`.
  unfoldable pub append_cell : BlockValues F → ℕ → CountFunc → PdbErr × CountFunc
  append_cell b i s =
      if is_null (cell (column b s.field_pos) i)
      then (ok, s)
      else (ok, record s { data_cnt = suc s.data_cnt })

  unfoldable pub append_array_inner :
      BlockValues F → Bool → Bool → ℕ → List ℕ → CountFunc → PdbErr × CountFunc
  append_array_inner b have_group have_filter group_id group_ids =
      scan (skips have_group have_filter b group_id group_ids) (append_cell b) b.record_size 0

  -- The device id and the time stamp are never null: without groups the size of the result is
  -- added and no column is read.
  unfoldable pub append_array : BlockValues F → ℕ → List ℕ → CountFunc → PdbErr × CountFunc
  append_array b group_id group_ids s =
      if is_empty group_ids
      then if leb s.field_pos tstamp_index
        then (ok, record s { data_cnt = s.data_cnt + b.result_size })
        else append_array_with (append_array_inner b) b group_id group_ids s
      else append_array_with (append_array_inner b) b group_id group_ids s

  unfoldable pub get_result : CountFunc → DbVal F → PdbErr × DbVal F
  get_result s out = (ok, int64 (pos s.data_cnt))
