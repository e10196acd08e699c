-- ===== src/Query/Group/Laws.antt =====
-- The loop over the columns of a block and the loop over single records.
use pinusdb.Prelude.{
  ℕ, zero, suc, ◌+◌, ◌≤◌, ◌<◌, ◌≡◌, refl, Bool, true, false, List, [], ◌∷◌, ◌==◌, ◌||◌, not, none,
  length, get_or, get_or-map, if◌then◌else◌, Bool-cases, inl, inr, arith,
}
use pinusdb.Value.{Floats, DbVal, PdbErr, ok, invalid_param, null}
use pinusdb.Query.Block.{BlockValues, row, cell, column}
use pinusdb.Query.Group.{
  is_empty, scan, append_rows, skips, selected, rows_from, selected_rows, append_array_with,
}

-- `AppendArray` as a whole: a list of groups of another length than the block is refused, and
-- otherwise the selected records are appended one by one.
module _ {F : Floats} where
  abbrev pub append_selected :
      {S : Type 0} → (List (DbVal F) → S → PdbErr × S) → BlockValues F → ℕ → List ℕ → S → PdbErr × S
  append_selected single b group_id group_ids s =
      if is_empty group_ids || length group_ids == b.record_size
      then append_rows single (selected_rows b group_id group_ids) s
      else (invalid_param, s)

-- A record that is taken in without error.
pub append_rows_step :
    {R S : Type 0} (single : R → S → PdbErr × S) (v : R) (vs : List R) (s s' : S)
    → single v s ≡ (ok, s')
    → append_rows single (v ∷ vs) s ≡ append_rows single vs s'
unfolding append_rows
append_rows_step single v vs s s' h = ground (arith, h)

module _ {F : Floats} where
  -- The value of a record in a column is the cell of that column.
  pub get_or-row : (b : BlockValues F) (i p : ℕ) → get_or (row b i) p null ≡ cell (column b p) i
  get_or-row b i p = get_or-map (λ c. cell c i) b.column_vec p none

  module _ {S : Type 0} (b : BlockValues F) (body : ℕ → S → PdbErr × S)
      (single : List (DbVal F) → S → PdbErr × S)
      (agree : (i : ℕ) → i < b.record_size → (s : S) → body i s ≡ single (row b i) s) where
    -- The loop does what `single` does on the records that are not skipped, in order.
    pub scan-append_rows :
        (skip keep : ℕ → Bool)
        → ((i : ℕ) → skip i ≡ not (keep i))
        → (n i : ℕ) (s : S) → n + i ≤ b.record_size
        → scan skip body n i s ≡ append_rows single (rows_from keep b n i) s
    unfolding scan append_rows rows_from
    scan-append_rows skip keep h zero i s in_range = refl
    scan-append_rows skip keep h (suc n) i s in_range = elim (Bool-cases (keep i)) [
      | inl k ↦ ground (
        arith,
        h i,
        agree i (omega arith) s,
        scan-append_rows skip keep h n (suc i) (single (row b i) s).1 (omega arith),
      )
      | inr k ↦ ground (arith, h i, scan-append_rows skip keep h n (suc i) s (omega arith))
    ]

    pub append_array_with-append_rows :
        (group_id : ℕ) (group_ids : List ℕ) (s : S)
        → append_array_with
            (λ g f id ids. scan (skips g f b id ids) body b.record_size 0)
            b
            group_id
            group_ids
            s
          ≡ append_selected single b group_id group_ids s
    unfolding append_array_with
    append_array_with-append_rows group_id group_ids s = elim (Bool-cases (is_empty group_ids)) [
      | inl e ↦ elim (Bool-cases (is_empty b.filter_vec)) [
        | inl f ↦ ground (arith, whole false false 0 [] (λ i. ground arith))
        | inr f ↦ ground (arith, whole false true 0 [] (λ i. ground arith))
      ]
      | inr e ↦ elim (Bool-cases (is_empty b.filter_vec)) [
        | inl f ↦ ground (arith, whole true false group_id group_ids (λ i. ground arith))
        | inr f ↦ ground (arith, whole true true group_id group_ids (λ i. ground arith))
      ]
    ]
      where
        whole :
            (g f : Bool) (id : ℕ) (ids : List ℕ)
            → ((i : ℕ) → skips g f b id ids i ≡ not (selected b group_id group_ids i))
            → scan (skips g f b id ids) body b.record_size 0 s
              ≡ append_rows single (selected_rows b group_id group_ids) s
        whole g f id ids h =
            scan-append_rows (skips g f b id ids) (selected b group_id group_ids) h b.record_size 0
              s (omega arith)
