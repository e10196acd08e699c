-- ===== src/Query/Block.antt =====
-- src/pinusdb/query/block_values.h: a block of records held by columns, with a filter. A column
-- that is not loaded (nullptr) is `none`; an empty filter stands for no filter, as in the class.
-- A read past the end of a column is undefined in C++ and gives `null` here. `resultIdxVec_` is a
-- cache that `get_record_value` fills on demand.
mod Tests
pub mod Laws
pub mod Records
pub mod Positions
use pinusdb.Prelude.{
  ℕ, zero, suc, ◌+◌, Bool, true, false, Option, none, some, List, [], ◌∷◌, map, leb, ◌==◌, not,
  length, get_or, if◌then◌else◌,
}
use pinusdb.Value.{Floats, DbVal, PdbErr, ok, invalid_param, null, is_true}

pub record BlockValues (F : Floats) : Type 0 where
  pub record_size : ℕ
  pub result_size : ℕ
  pub result_idx_vec : List ℕ
  pub filter_vec : List Bool
  pub column_vec : List (Option (List (DbVal F)))

-- The positions that the filter keeps, counted from `i`.
unfoldable pub kept : List Bool → ℕ → List ℕ
kept [] i = []
kept (true ∷ fs) i = i ∷ kept fs (suc i)
kept (false ∷ fs) i = kept fs (suc i)

module _ {F : Floats} where
  abbrev clear_columns : List (Option (List (DbVal F))) → List (Option (List (DbVal F)))
  clear_columns [] = []
  clear_columns (c ∷ cs) = none ∷ clear_columns cs

  unfoldable pub reset : BlockValues F → BlockValues F
  reset b = record b {
    record_size = 0;
    result_size = 0;
    filter_vec = [];
    column_vec = clear_columns b.column_vec;
  }

  unfoldable pub set_record_size : ℕ → BlockValues F → BlockValues F
  set_record_size n b = record b { record_size = n; result_size = n; filter_vec = [] }

  abbrev set_at :
      List (Option (List (DbVal F))) → ℕ → List (DbVal F) → List (Option (List (DbVal F)))
  set_at [] i v = []
  set_at (c ∷ cs) zero v = some v ∷ cs
  set_at (c ∷ cs) (suc i) v = c ∷ set_at cs i v

  unfoldable pub set_column_values : ℕ → List (DbVal F) → BlockValues F → BlockValues F
  set_column_values i v b = record b { column_vec = set_at b.column_vec i v }

  -- The first merge: the filter is built from the values.
  unfoldable pub first_filter : List (DbVal F) → List Bool × ℕ
  first_filter [] = ([], 0)
  first_filter (v ∷ vs) =
      let rest = first_filter vs in
      if is_true v then (true ∷ rest.0, rest.1 + 1) else (false ∷ rest.0, rest.1)

  -- A later merge: the values belong to the places that are still set. `none` is the return of
  -- PdbE_INVALID_PARAM when the places run out.
  unfoldable pub next_filter : List Bool → List (DbVal F) → Option (List Bool × ℕ)
  next_filter fs [] = some (fs, 0)
  next_filter [] (v ∷ vs) = none
  next_filter (false ∷ fs) (v ∷ vs) = elim (next_filter fs (v ∷ vs)) [
    | none ↦ none
    | some r ↦ some (false ∷ r.0, r.1)
  ]
  next_filter (true ∷ fs) (v ∷ vs) = elim (next_filter fs vs) [
    | none ↦ none
    | some r ↦ some (if is_true v then (true ∷ r.0, r.1 + 1) else (false ∷ r.0, r.1))
  ]

  -- The places behind that loop, which has cleared some where it returns PdbE_INVALID_PARAM too.
  abbrev pub cleared : List Bool → List (DbVal F) → List Bool
  cleared [] vs = []
  cleared (f ∷ fs) [] = f ∷ fs
  cleared (false ∷ fs) (v ∷ vs) = false ∷ cleared fs (v ∷ vs)
  cleared (true ∷ fs) (v ∷ vs) = is_true v ∷ cleared fs vs

  unfoldable pub merge_filter : List (DbVal F) → BlockValues F → PdbErr × BlockValues F
  unfolding first_filter next_filter
  merge_filter vs b =
      if not (length vs == b.result_size) then (invalid_param, b) else elim b.filter_vec [
        | [] ↦
            (ok, record b { filter_vec = (first_filter vs).0; result_size = (first_filter vs).1 })
        | f ∷ fs ↦ elim (next_filter (f ∷ fs) vs) [
          | none ↦ (invalid_param, record b { filter_vec = cleared (f ∷ fs) vs })
          | some r ↦ (ok, record b { filter_vec = r.0; result_size = r.1 })
        ]
      ]

  -- pVals[idx] of a loaded column.
  abbrev pub cell : Option (List (DbVal F)) → ℕ → DbVal F
  cell none i = null
  cell (some vs) i = get_or vs i null

  abbrev pub column : BlockValues F → ℕ → Option (List (DbVal F))
  column b i = get_or b.column_vec i none

  -- All the values of one record, as `get_record_value` gathers them.
  abbrev pub row : BlockValues F → ℕ → List (DbVal F)
  row b i = map (λ c. cell c i) b.column_vec

  unfoldable pub get_record_value : ℕ → BlockValues F → PdbErr × List (DbVal F) × BlockValues F
  unfolding kept
  get_record_value i b = if leb b.result_size i then (invalid_param, [], b) else elim b.filter_vec [
    | [] ↦ (ok, row b i, b)
    | f ∷ fs ↦
        let ixs =
          if length b.result_idx_vec == b.result_size then b.result_idx_vec else kept (f ∷ fs) 0 in
        (ok, row b (get_or ixs i 0), record b { result_idx_vec = ixs })
  ]
