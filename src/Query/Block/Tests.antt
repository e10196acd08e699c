-- ===== src/Query/Block/Tests.antt =====
-- A concrete block for src/pinusdb/query/block_values.h.
use pinusdb.Prelude.{◌≡◌, refl, true, false, some, [], ◌∷◌, inr}
use pinusdb.Value.{ok, bool, null}
use pinusdb.Value.Integral.{integral}
use pinusdb.Query.Block.{BlockValues, kept, merge_filter}
use pinusdb.Query.Block.Laws.{IsSized, keep_true, merge_filter_lem}

abbrev filtered : BlockValues integral
filtered = record {
  record_size = 3;
  result_size = 2;
  result_idx_vec = [];
  filter_vec = true ∷ false ∷ true ∷ [];
  column_vec = some (bool true ∷ bool false ∷ null ∷ []) ∷ [];
}

filtered-IsSized : IsSized filtered
filtered-IsSized = record { unfiltered = λ e. cc; filtered = inr refl; counted = inr refl }

-- Of the two records that are left a second condition drops the first.
merged_filter :
    (merge_filter (bool false ∷ bool true ∷ []) filtered).1.filter_vec ≡ false ∷ false ∷ true ∷ []
unfolding merge_filter
merged_filter = refl

merge_filter_lem_example :
    let r = merge_filter (bool false ∷ bool true ∷ []) filtered in
    (r.0 ≡ ok)
    × IsSized r.1
    × (r.1.record_size ≡ 3)
    × (kept r.1.filter_vec 0
        ≡ keep_true {F = integral}
            (bool false ∷ bool true ∷ [])
            (kept (true ∷ false ∷ true ∷ []) 0))
merge_filter_lem_example =
    merge_filter_lem (bool false ∷ bool true ∷ []) filtered filtered-IsSized refl
