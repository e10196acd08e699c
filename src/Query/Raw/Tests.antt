-- ===== src/Query/Raw/Tests.antt =====
-- A block of three records in a query with an offset and a limit.
use pinusdb.Prelude.{◌≡◌, refl, some, [], ◌∷◌, map, get_or, inl, arith, ap}
use pinusdb.Prelude.Int.{pos}
use pinusdb.Value.{null, int32, int64, datetime, type_int32, type_datetime}
use pinusdb.Value.Integral.{integral}
use pinusdb.Query.Block.{BlockValues, row}
use pinusdb.Query.Block.Laws.{IsSized}
use pinusdb.Query.Block.Positions.{positions}
use pinusdb.Query.Items.{ValueItem, field_compare, compared, tk_gt, tk_le}
use pinusdb.Query.Items.Laws.{field_compare-IsPointwise}
use pinusdb.Query.Raw.{QueryRaw, append_array}
use pinusdb.Query.Raw.Blocks.{passing, IsTaken}
use pinusdb.Query.Raw.Singles.{append_all, append_array-append_single}

abbrev until : ValueItem integral
until = field_compare type_datetime tk_le 1 (int64 (pos 300))

abbrev above_six : ValueItem integral
above_six = field_compare type_int32 tk_gt 2 (int64 (pos 6))

abbrev block : BlockValues integral
block = record {
  record_size = 3;
  result_size = 3;
  result_idx_vec = [];
  filter_vec = [];
  column_vec =
      some (int64 (pos 7) ∷ int64 (pos 7) ∷ int64 (pos 7) ∷ [])
      ∷ some (datetime (pos 100) ∷ datetime (pos 200) ∷ datetime (pos 300) ∷ [])
      ∷ some (int32 (pos 5) ∷ int32 (pos 8) ∷ int32 (pos 9) ∷ [])
      ∷ [];
}

block-IsSized : IsSized block
block-IsSized = record { unfiltered = λ e. refl; filtered = inl refl; counted = inl refl }

-- LIMIT 1, 5
abbrev query : QueryRaw integral
query = record {
  query_offset = 1;
  query_record = 5;
  condition_vec = until ∷ [];
  field_vec = above_six ∷ [];
  cur_record = 0;
  result_data = [];
}

append_array-append_single_example :
    IsTaken (passing block query) query (append_array block query)
    × ((append_array block query).1 ≡ append_all (map (row block) (positions block)) query)
append_array-append_single_example =
    append_array-append_single block
      ((λ r. compared type_datetime tk_le (int64 (pos 300)) (get_or r 1 null)) ∷ []) query
      (field_compare-IsPointwise type_datetime tk_le 1 (int64 (pos 300)), tt) block-IsSized refl
      (
        (λ r.
            ap (λ p. p.0)
              ((field_compare-IsPointwise type_int32 tk_gt 2 (int64 (pos 6))).single r)),
        tt,
      )
      (omega arith)
