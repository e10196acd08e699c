-- ===== src/Query/Group/AggIf.antt =====
-- AggIfExtendFunc of src/pinusdb/query/group_function.h: an aggregate over the records that meet a
-- condition. The condition (a `ValueItem`) and the inner aggregate (a `GroupField`) are virtual
-- objects, here their `GetValue` and `AppendSingle`.
use pinusdb.Prelude.{ℕ, zero, suc, List, if◌then◌else◌}
use pinusdb.Value.{Floats, DbVal, PdbErr, ok, is_true}
use pinusdb.Query.Block.{BlockValues, get_record_value}

module _ {F : Floats} {S : Type 0} (condition : List (DbVal F) → PdbErr × DbVal F)
    (field : List (DbVal F) → S → PdbErr × S) where
  unfoldable pub append_single : List (DbVal F) → S → PdbErr × S
  append_single vals s = elim (condition vals).0 [
    | ok ↦ if is_true (condition vals).1 then field vals s else (ok, s)
    | e ↦ (e, s)
  ]

  -- The loop of `AppendArray`, with `n` records left from `i` on. It passes over the group.
  unfoldable pub append_loop : ℕ → ℕ → BlockValues F → S → PdbErr × S × BlockValues F
  append_loop zero i b s = (ok, s, b)
  append_loop (suc n) i b s =
      let got = get_record_value i b in
      elim got.0 [
        | ok ↦
            let r = append_single got.1 s in
            elim r.0 [ ok ↦ append_loop n (suc i) got.2 r.1 | e ↦ (e, r.1, got.2) ]
        | e ↦ (e, s, got.2)
      ]

  unfoldable pub append_array : BlockValues F → ℕ → List ℕ → S → PdbErr × S × BlockValues F
  unfolding append_loop
  append_array b group_id group_ids s = append_loop b.record_size 0 b s
