-- ===== src/Query/Group.antt =====
-- src/pinusdb/query/group_function.h: the aggregate functions. What their templates have in common
-- stands here: the loop of `AppendArrayInner<HaveGroup, HaveFilter>`, which skips the records that
-- the filter or the group excludes and stops at the first error, and the choice among its four
-- instances in `AppendArray`. An object that fails keeps what it has added so far, so every
-- function returns the state beside the error.
pub mod Avg
pub mod Sum
pub mod Count
pub mod Extreme
pub mod FirstLast
pub mod Keys
pub mod Laws
pub mod Total
pub mod AggIf
pub mod Arrays
pub mod Extremes
pub mod Conditional
mod Tests
use pinusdb.Prelude.{
  ℕ, zero, suc, Bool, true, false, List, [], ◌∷◌, ◌==◌, ◌&&◌, ◌||◌, not, length, get_or,
  if◌then◌else◌,
}
use pinusdb.Value.{Floats, DbVal, PdbErr, ok, invalid_param}
use pinusdb.Query.Block.{BlockValues, row}

abbrev pub is_empty {ℓ} : {A : Type ℓ} → List A → Bool
is_empty [] = true
is_empty (x ∷ xs) = false

-- The `for` loop over the records `i`, `i + 1`, ..., of which `n` are left.
unfoldable pub scan : {S : Type 0} → (ℕ → Bool) → (ℕ → S → PdbErr × S) → ℕ → ℕ → S → PdbErr × S
scan skip body zero i s = (ok, s)
scan skip body (suc n) i s =
    let r = if skip i then (ok, s) else body i s in
    elim r.0 [ ok ↦ scan skip body n (suc i) r.1 | e ↦ (e, r.1) ]

-- One record after the other through `AppendSingle`, up to the first error.
unfoldable pub append_rows : {R S : Type 0} → (R → S → PdbErr × S) → List R → S → PdbErr × S
append_rows single [] s = (ok, s)
append_rows single (v ∷ vs) s =
    let r = single v s in elim r.0 [ ok ↦ append_rows single vs r.1 | e ↦ (e, r.1) ]

module _ {F : Floats} where
  -- The two `continue` tests of the loop.
  abbrev pub skips : Bool → Bool → BlockValues F → ℕ → List ℕ → ℕ → Bool
  skips have_group have_filter b group_id group_ids i =
      have_filter && not (get_or b.filter_vec i false)
      || have_group && not (get_or group_ids i 0 == group_id)

  -- `AppendArray`, over the class's `AppendArrayInner`.
  unfoldable pub append_array_with :
      {S : Type 0}
      → (Bool → Bool → ℕ → List ℕ → S → PdbErr × S)
      → BlockValues F
      → ℕ
      → List ℕ
      → S
      → PdbErr × S
  append_array_with inner b group_id group_ids s =
      if is_empty group_ids
      then if is_empty b.filter_vec then inner false false 0 [] s else inner false true 0 [] s
      else if not (length group_ids == b.record_size)
      then (invalid_param, s)
      else if is_empty b.filter_vec
      then inner true false group_id group_ids s
      else inner true true group_id group_ids s

  -- The records that a call is about: those that the filter keeps, of the group, if one is given.
  abbrev pub selected : BlockValues F → ℕ → List ℕ → ℕ → Bool
  selected b group_id group_ids i =
      (is_empty b.filter_vec || get_or b.filter_vec i false)
      && (is_empty group_ids || get_or group_ids i 0 == group_id)

  unfoldable pub rows_from : (ℕ → Bool) → BlockValues F → ℕ → ℕ → List (List (DbVal F))
  rows_from keep b zero i = []
  rows_from keep b (suc n) i =
      let rest = rows_from keep b n (suc i) in if keep i then row b i ∷ rest else rest

  abbrev pub selected_rows : BlockValues F → ℕ → List ℕ → List (List (DbVal F))
  selected_rows b group_id group_ids = rows_from (selected b group_id group_ids) b b.record_size 0
