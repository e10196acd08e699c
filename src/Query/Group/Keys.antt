-- ===== src/Query/Group/Keys.antt =====
-- GroupTstampField and GroupDevIdField of src/pinusdb/query/group_function.h: the columns of a
-- group that hold its key. They take in no record.
use pinusdb.Prelude.{ℕ, List}
use pinusdb.Prelude.Int.{ℤ}
use pinusdb.Value.{Floats, DbVal, PdbErr, ok, int64, datetime}
use pinusdb.Query.Block.{BlockValues}

pub data GroupKey : Type 0 where
  group_tstamp : ℤ → GroupKey
  group_dev_id : ℤ → GroupKey

-- `NewField(devId, tstamp)`: the key of another group.
unfoldable pub new_field : ℤ → ℤ → GroupKey → GroupKey
new_field dev_id tstamp (group_tstamp t) = group_tstamp tstamp
new_field dev_id tstamp (group_dev_id d) = group_dev_id dev_id

module _ {F : Floats} where
  unfoldable pub append_single : List (DbVal F) → GroupKey → PdbErr × GroupKey
  append_single vals s = (ok, s)

  unfoldable pub append_array : BlockValues F → ℕ → List ℕ → GroupKey → PdbErr × GroupKey
  append_array b group_id group_ids s = (ok, s)

  unfoldable pub get_result : GroupKey → DbVal F → PdbErr × DbVal F
  get_result (group_tstamp t) out = (ok, datetime t)
  get_result (group_dev_id d) out = (ok, int64 d)
