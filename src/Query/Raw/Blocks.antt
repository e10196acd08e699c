-- ===== src/Query/Raw/Blocks.antt =====
-- A block and its records one by one in a query that returns records
-- (src/pinusdb/query/query_raw.cpp).
use pinusdb.Prelude.{
  not, ◌==◌, ℕ, zero, suc, ◌+◌, ◌-◌, ◌≤◌, ◌<◌, ◌≡◌, inl, refl, sym, ap, ◌∙◌, Bool, true, false,
  List, [], ◌∷◌, arith, length, take, drop, map, get_or, ltb, ltb→lt, ltb→ge, leb→le, if_cases,
  drop_all, take_nil,
}
use pinusdb.Value.{Floats, DbVal, PdbErr, ok, on_ok_cases, code_cases}
use pinusdb.Query.Block.{BlockValues, get_record_value, row, cell, merge_filter, kept}
use pinusdb.Query.Block.Laws.{IsSized, range_from}
use pinusdb.Query.Block.Records.{IsFresh, get_record_value_lem, get_record_value_whole}
use pinusdb.Query.Block.Positions.{positions, length-positions}
use pinusdb.Query.Items.{ValueItem}
use pinusdb.Query.Conditions.{run_condition, run_condition_array}
use pinusdb.Query.Conditions.Laws.{ArePointwise, keep_if, run_condition_array-run_condition}
use pinusdb.Query.Raw.{QueryRaw, append_array, get_is_full_flag}
use pinusdb.Query.Raw.Rows.{
  NeverFail, shown, not_full_lem, taken, limited, outcome, record_loop_lem, Serves, shown_none,
}
use mathlib.Core.Path.{subst}

get_or-range_from : (n i j : ℕ) → j < n → get_or (range_from n i) j 0 ≡ i + j
get_or-range_from zero i j h = absurd (omega arith)
get_or-range_from (suc n) i zero h = omega arith
get_or-range_from (suc n) i (suc j) h = omega (arith, get_or-range_from n (suc i) j (omega arith))

not_positive : (n : ℕ) → not (ltb 0 n) ≡ true → n ≡ 0
not_positive n h = ground arith

positive : (n : ℕ) → not (ltb 0 n) ≡ false → 0 < n
positive n h = ground arith

zero_plus : (i : ℕ) → 0 + i ≡ i
zero_plus i = omega arith

drop_next : (i : ℕ) (ps : List ℕ) → i < length ps → drop i ps ≡ get_or ps i 0 ∷ drop (suc i) ps
drop_next i [] h = absurd (omega arith)
drop_next zero (p ∷ ps) h = refl
drop_next (suc i) (p ∷ ps) h = drop_next i ps (omega arith)

module _ {ℓ} {A : Type ℓ} where
  drop-map : (f : ℕ → A) (i : ℕ) (ps : List ℕ) → drop i (map f ps) ≡ map f (drop i ps)
  drop-map f zero ps = refl
  drop-map f (suc i) [] = refl
  drop-map f (suc i) (p ∷ ps) = drop-map f i ps

  length-map : (f : ℕ → A) (ps : List ℕ) → length (map f ps) ≡ length ps
  length-map f [] = refl
  length-map f (p ∷ ps) = ap suc (length-map f ps)

module _ {F : Floats} where
  -- The cache of positions is all that reading a record changes.
  served_block :
      (i : ℕ) (b : BlockValues F)
      → (get_record_value i b).2
        ≡ record b { result_idx_vec = (get_record_value i b).2.result_idx_vec }
  unfolding get_record_value
  served_block i b = ground arith

  -- A record that is read is the one at its position, and the cache stays fresh.
  abbrev IsServed : ℕ → BlockValues F → PdbErr × List (DbVal F) × BlockValues F → Type 0
  IsServed i b r = (r.0 ≡ ok) × (r.1 ≡ row b (get_or (positions b) i 0)) × IsFresh r.2

  served :
      (i : ℕ) (b : BlockValues F)
      → IsSized b
      → IsFresh b
      → i < b.result_size
      → IsServed i b (get_record_value i b)
  served i b sized fresh h = go b.filter_vec refl
    where
      go : (fs : List Bool) → b.filter_vec ≡ fs → IsServed i b (get_record_value i b)
      go [] e =
          let place : get_or (positions b) i 0 ≡ i = rw e (
            get_or-range_from b.record_size 0 i (omega (arith, h, sized.unfiltered e))
            ∙ zero_plus i) in
          rw (get_record_value_whole i b e h) (refl, ap (row b) (sym place), fresh)
      go (f ∷ fs) e =
          let (r, _) = get_record_value_lem i b (λ z. absurd (cc (z, e))) fresh in
          let (k, v, fresh') = r h in
          let same : kept b.filter_vec 0 ≡ positions b = rw e refl in
          (k, v ∙ ap (λ ps. row b (get_or ps i 0)) same, fresh')

  result_idx_vec-merge_filter :
      (vs : List (DbVal F)) (b : BlockValues F)
      → (merge_filter vs b).1.result_idx_vec ≡ b.result_idx_vec
  unfolding merge_filter
  result_idx_vec-merge_filter vs b = ground arith

  result_idx_vec-run_condition_array :
      (its : List (ValueItem F)) (b : BlockValues F)
      → (run_condition_array its b).1.result_idx_vec ≡ b.result_idx_vec
  unfolding run_condition_array
  result_idx_vec-run_condition_array [] b = refl
  result_idx_vec-run_condition_array (it ∷ its) b =
      let r = it.get_value_array b in
      let m = merge_filter (r.1) b in
      let rest = run_condition_array its (m.1) in
      let P : PdbErr × BlockValues F → Type 0 = λ x. x.1.result_idx_vec ≡ b.result_idx_vec in
      let same = result_idx_vec-merge_filter (r.1) b in
      code_cases P (r.0) _ (λ e. (e, b))
        (code_cases P (m.0) _ (λ e. (e, m.1))
          (if_cases P (m.1.result_size == 0) (λ _. same)
            (λ _. result_idx_vec-run_condition_array its (m.1) ∙ same))
          (λ _. same))
        (λ _. refl)

  same-IsSized :
      (b : BlockValues F) (ixs : List ℕ) → IsSized b → IsSized (record b { result_idx_vec = ixs })
  same-IsSized b ixs sized = record {
    unfiltered = sized.unfiltered;
    filtered = sized.filtered;
    counted = sized.counted;
  }

  -- The block serves the records at its positions.
  serves_lem :
      (n idx : ℕ) (b : BlockValues F)
      → IsSized b
      → IsFresh b
      → n + idx ≡ b.result_size
      → Serves n idx b (map (row b) (drop idx (positions b)))
  serves_lem zero idx b sized fresh h =
      ap (map (row b)) (drop_all idx (positions b) (omega (arith, h, length-positions b sized)))
  serves_lem (suc n) idx b sized fresh h =
      let inside : idx < b.result_size = omega (arith, h) in
      let (k, v, fresh') = served idx b sized fresh inside in
      let ixs = (get_record_value idx b).2.result_idx_vec in
      let same = served_block idx b in
      let b' : BlockValues F = record b { result_idx_vec = ixs } in
      let rest = map (row b) (drop (suc idx) (positions b)) in
      let more : Serves n (suc idx) b' rest =
        serves_lem n (suc idx) b' (same-IsSized b ixs sized) (subst IsFresh same fresh')
          (omega (arith, h)) in
      subst (λ ps. Serves (suc n) idx b (map (row b) ps))
        (sym (drop_next idx (positions b) (omega (arith, inside, length-positions b sized))))
        (k, v, subst (λ c. Serves n (suc idx) c rest) (sym same) more)

  -- The call takes these records.
  abbrev pub IsTaken : List (List (DbVal F)) → QueryRaw F → PdbErr × QueryRaw F × Bool → Type 0
  IsTaken rows q r = let ended : PdbErr × QueryRaw F = (r.0, r.1) in ended ≡ outcome (taken rows q)

  -- The records of a block that pass the conditions of a query.
  abbrev pub passing : BlockValues F → QueryRaw F → List (List (DbVal F))
  passing b q =
      map (row b) (keep_if (λ i. (run_condition q.condition_vec (row b i)).1) (positions b))

  abbrev pub moved : QueryRaw F → ℕ → QueryRaw F
  moved q o = record q { query_offset = o }

  -- With no record behind the offset.
  pub taken_before :
      (rows : List (List (DbVal F))) (q : QueryRaw F)
      → length rows ≤ q.query_offset
      → taken rows q ≡ moved q (q.query_offset - length rows)
  taken_before rows q h =
      let o = q.query_offset - length rows in
      let m = q.query_record - q.cur_record in
      ap (λ l. shown (take m l) (moved q o)) (drop_all q.query_offset rows h)
      ∙ ap (λ l. shown l (moved q o)) (take_nil m)
      ∙ shown_none (moved q o)

  -- With the offset within the records.
  taken_within :
      (rows : List (List (DbVal F))) (q : QueryRaw F)
      → q.query_offset ≤ length rows
      → taken rows q ≡ limited (drop q.query_offset rows) (moved q 0)
  taken_within rows q h =
      let past : q.query_offset - length rows ≡ 0 = omega arith in
      ap (λ o. shown (take (q.query_record - q.cur_record) (drop q.query_offset rows)) (moved q o))
        past

  -- A call that does not fill the query.
  open_outcome : (q x : QueryRaw F) → q.cur_record < q.query_record → x ≡ q → (ok, q) ≡ outcome x
  open_outcome q x lt e =
      let done : PdbErr × QueryRaw F = (ok, q) in
      subst (λ y. done ≡ outcome y) (sym e) (rw (not_full_lem q.query_record q.cur_record lt) refl)

  -- The records that pass are those that the block holds behind the conditions.
  passing_lem :
      (b : BlockValues F) (vs : List (List (DbVal F) → DbVal F)) (q : QueryRaw F)
      → ArePointwise q.condition_vec vs
      → IsSized b
      → (let c = (run_condition_array q.condition_vec b).1 in
          passing b q ≡ map (row c) (positions c))
  passing_lem b vs q h sized =
      let c = (run_condition_array q.condition_vec b).1 in
      let (_, _, columns, _, places) =
        run_condition_array-run_condition q.condition_vec vs b h sized in
      ap (map (row b)) (sym places)
      ∙ ap (λ cs. map (λ i. map (λ x. cell x i) cs) (positions c)) (sym columns)

  -- A block.
  pub append_array-IsTaken :
      (b : BlockValues F) (vs : List (List (DbVal F) → DbVal F)) (q : QueryRaw F)
      → ArePointwise q.condition_vec vs
      → IsSized b
      → b.result_idx_vec ≡ []
      → NeverFail q.field_vec
      → q.cur_record < q.query_record
      → IsTaken (passing b q) q (append_array b q)
  unfolding append_array
  append_array-IsTaken b vs q h sized fresh fields lt =
      let r = run_condition_array q.condition_vec b in
      let c = r.1 in
      let rows = passing b q in
      let (k, sized', _, _, _) = run_condition_array-run_condition q.condition_vec vs b h sized in
      let rows_is = passing_lem b vs q h sized in
      let size_is : length rows ≡ c.result_size =
        ap length rows_is ∙ length-map (row c) (positions c) ∙ length-positions c sized' in
      let P = IsTaken rows q in
      if_cases P (get_is_full_flag q)
        (λ y. absurd (omega (arith, leb→le q.query_record q.cur_record y, lt)))
        (λ _.
          on_ok_cases P (r.0)
            (λ _.
              if_cases P (not (ltb 0 c.result_size))
                (λ z.
                  let empty : length rows ≡ 0 = size_is ∙ not_positive c.result_size z in
                  let same : q.query_offset - length rows ≡ q.query_offset = omega (arith, empty) in
                  open_outcome q (taken rows q) lt
                    (taken_before rows q (omega (arith, empty)) ∙ ap (moved q) same))
                (λ some_left.
                  if_cases P (ltb c.result_size q.query_offset)
                    (λ less.
                      let before : length rows ≤ q.query_offset =
                        omega (arith, size_is, ltb→lt c.result_size q.query_offset less) in
                      open_outcome (moved q (q.query_offset - c.result_size)) (taken rows q) lt (
                        taken_before rows q before
                        ∙ ap (λ m. moved q (q.query_offset - m)) size_is))
                    (λ within.
                      let inside : q.query_offset ≤ c.result_size =
                        ltb→ge c.result_size q.query_offset within in
                      let none_cached : length c.result_idx_vec ≡ 0 =
                        ap length (result_idx_vec-run_condition_array q.condition_vec b ∙ fresh) in
                      let fresh' : IsFresh c = inl (λ e.
                        absurd (omega (arith, e, none_cached, positive c.result_size some_left))) in
                      let place : c.result_size - q.query_offset + q.query_offset ≡ c.result_size =
                        omega (arith, inside) in
                      let serves =
                        subst (Serves (c.result_size - q.query_offset) q.query_offset c)
                          (sym (drop-map (row c) q.query_offset (positions c))
                            ∙ ap (drop q.query_offset) (sym rows_is))
                          (serves_lem (c.result_size - q.query_offset) q.query_offset c sized'
                            fresh' place) in
                      record_loop_lem (c.result_size - q.query_offset) q.query_offset c (moved q 0)
                        (drop q.query_offset rows) fields lt serves
                      ∙ ap outcome (sym (taken_within rows q (omega (arith, size_is, inside)))))))
            (λ f. absurd (f k)))
