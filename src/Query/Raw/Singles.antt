-- ===== src/Query/Raw/Singles.antt =====
-- Records one by one, and the block that holds them, in a query that returns records
-- (src/pinusdb/query/query_raw.cpp).
use pinusdb.Prelude.{
  ℕ, suc, ◌-◌, ◌≤◌, ◌<◌, ◌≡◌, ◌⊎◌, inl, inr, refl, sym, ap, ◌∙◌, Bool, true, false, List, [], ◌∷◌,
  arith, length, take, drop, map, ltb, ltb→lt, ltb→ge, leb→le, Bool-cases, if_cases, if◌then◌else◌,
}
use pinusdb.Value.{Floats, DbVal, PdbErr, ok, on_ok, on_ok_cases}
use pinusdb.Query.Block.{BlockValues, row}
use pinusdb.Query.Block.Laws.{IsSized}
use pinusdb.Query.Block.Positions.{positions}
use pinusdb.Query.Items.{ValueItem}
use pinusdb.Query.Conditions.{run_condition}
use pinusdb.Query.Conditions.Laws.{ArePointwise, keep_if, run_condition-accepts}
use pinusdb.Query.Raw.{QueryRaw, append_single, append_array, add_record, get_is_full_flag}
use pinusdb.Query.Raw.Rows.{
  NeverFail, taken, with_row, add_record_lem, limited, limited_step, limited_full, shown, lt_of_leb,
}
use pinusdb.Query.Raw.Blocks.{append_array-IsTaken, passing, IsTaken, moved, taken_before}
use mathlib.Core.Path.{subst}

module _ {F : Floats} where
  -- A caller that offers all the records, whatever the calls return.
  abbrev pub append_all : List (List (DbVal F)) → QueryRaw F → QueryRaw F
  append_all [] q = q
  append_all (r ∷ rs) q = append_all rs ((append_single r q).1)

  -- The records that the conditions accept.
  abbrev accepted : List (ValueItem F) → List (List (DbVal F)) → List (List (DbVal F))
  accepted its [] = []
  accepted its (r ∷ rs) =
      let rest = accepted its rs in if (run_condition its r).1 then r ∷ rest else rest

  accepted-map :
      (its : List (ValueItem F)) (f : ℕ → List (DbVal F)) (ps : List ℕ)
      → accepted its (map f ps) ≡ map f (keep_if (λ i. (run_condition its (f i)).1) ps)
  unfolding keep_if
  accepted-map its f [] = refl
  accepted-map its f (p ∷ ps) = elim (Bool-cases ((run_condition its (f p)).1)) [
    | inl y ↦ rw y (ap (λ l. f p ∷ l) (accepted-map its f ps))
    | inr n ↦ rw n (accepted-map its f ps)
  ]

  -- The offset has been passed when the query is full.
  IsPassed : QueryRaw F → Type 0
  IsPassed q = (q.cur_record < q.query_record) ⊎ (q.query_offset ≡ 0)

  taken_zero :
      (rows : List (List (DbVal F))) (q : QueryRaw F)
      → q.query_offset ≡ 0
      → taken rows q ≡ limited rows q
  taken_zero rows q z =
      let m = q.query_record - q.cur_record in
      let stays : q.query_offset - length rows ≡ q.query_offset = omega (arith, z) in
      ap (λ o. shown (take m (drop o rows)) (moved q (q.query_offset - length rows))) z
      ∙ ap (λ o. shown (take m rows) (moved q o)) stays

  taken_full :
      (rows : List (List (DbVal F))) (q : QueryRaw F)
      → q.query_record ≤ q.cur_record
      → q.query_offset ≡ 0
      → taken rows q ≡ q
  taken_full rows q h z = taken_zero rows q z ∙ limited_full rows q h

  taken_skip :
      (r : List (DbVal F)) (rows : List (List (DbVal F))) (q : QueryRaw F)
      → 0 < q.query_offset
      → taken rows (record q { query_offset = q.query_offset - 1 }) ≡ taken (r ∷ rows) q
  taken_skip r rows q h =
      let o = q.query_offset - 1 in
      let m = q.query_record - q.cur_record in
      let one_more : suc o ≡ q.query_offset = omega arith in
      let lower : o - length rows ≡ q.query_offset - suc (length rows) = omega arith in
      ap (λ k. shown (take m (drop k (r ∷ rows))) (moved q (o - length rows))) one_more
      ∙ ap (λ j. shown (take m (drop q.query_offset (r ∷ rows))) (moved q j)) lower

  taken_add :
      (r : List (DbVal F)) (rows : List (List (DbVal F))) (q : QueryRaw F)
      → q.cur_record < q.query_record
      → q.query_offset ≡ 0
      → taken rows (with_row r q) ≡ taken (r ∷ rows) q
  taken_add r rows q h z =
      taken_zero rows (with_row r q) z ∙ limited_step r rows q h ∙ sym (taken_zero (r ∷ rows) q z)

  append_all-taken :
      (rs : List (List (DbVal F))) (vs : List (List (DbVal F) → DbVal F)) (q : QueryRaw F)
      → ArePointwise q.condition_vec vs
      → NeverFail q.field_vec
      → IsPassed q
      → append_all rs q ≡ taken (accepted q.condition_vec rs) q
  unfolding append_single IsPassed
  append_all-taken [] vs q h fields p =
      let stays : q.query_offset - 0 ≡ q.query_offset = omega arith in
      sym (taken_before [] q (omega arith) ∙ ap (moved q) stays)
  append_all-taken (r ∷ rs) vs q h fields p =
      let its = q.condition_vec in
      let rows = accepted its rs in
      let all = accepted its (r ∷ rs) in
      let P : PdbErr × QueryRaw F × Bool → Type 0 = λ x. append_all rs (x.1) ≡ taken all q in
      let k : (run_condition its r).0 ≡ ok = ap (λ x. x.0) (run_condition-accepts its vs r h) in
      let added = add_record r q in
      if_cases P (get_is_full_flag q)
        (λ y.
          let full = leb→le q.query_record q.cur_record y in
          let passed : q.query_offset ≡ 0 = elim p [
            | inl lt ↦ absurd (omega (arith, lt, full))
            | inr z ↦ z
          ] in
          append_all-taken rs vs q h fields p
          ∙ taken_full rows q full passed
          ∙ sym (taken_full all q full passed))
        (λ y.
          let lt = lt_of_leb q.query_record q.cur_record y in
          on_ok_cases P ((run_condition its r).0)
            (λ _.
              if_cases P ((run_condition its r).1)
                (λ acc.
                  let all_is : all ≡ r ∷ rows = rw acc refl in
                  let there = ap (λ l. taken l q) (sym all_is) in
                  if_cases P (ltb 0 q.query_offset)
                    (λ o.
                      append_all-taken rs vs (moved q (q.query_offset - 1)) h fields (inl lt)
                      ∙ taken_skip r rows q (ltb→lt 0 q.query_offset o)
                      ∙ there)
                    (λ o.
                      let z : q.query_offset ≡ 0 = omega (arith, ltb→ge 0 q.query_offset o) in
                      let P' : PdbErr × QueryRaw F → Type 0 =
                        λ a. P (on_ok a.0 (ok, a.1, true) (a.0, a.1, false)) in
                      subst P' (sym (add_record_lem r q fields)) (
                        append_all-taken rs vs (with_row r q) h fields (inr z)
                        ∙ taken_add r rows q lt z
                        ∙ there)))
                (λ rej.
                  let all_is : all ≡ rows = rw rej refl in
                  append_all-taken rs vs q h fields p ∙ ap (λ l. taken l q) (sym all_is)))
            (λ f. absurd (f k)))

  -- A block that a query takes in leaves the query as its records do one by one: of the records that
  -- pass the conditions those behind the offset are added up to the limit, and the offset is lower by
  -- the number that pass. AppendArray reports RESULT_FULL exactly if the query is full in the end. The
  -- query is not full before, the items of the conditions give a block the values of its records, those of the
  -- result never fail, and no position of the block has been looked up.
  pub append_array-append_single :
      (b : BlockValues F) (vs : List (List (DbVal F) → DbVal F)) (q : QueryRaw F)
      → ArePointwise q.condition_vec vs
      → IsSized b
      → b.result_idx_vec ≡ []
      → NeverFail q.field_vec
      → q.cur_record < q.query_record
      → IsTaken (passing b q) q (append_array b q)
        × ((append_array b q).1 ≡ append_all (map (row b) (positions b)) q)
  unfolding IsPassed
  append_array-append_single b vs q h sized fresh fields lt =
      let array = append_array-IsTaken b vs q h sized fresh fields lt in
      let rows = map (row b) (positions b) in
      let singles =
        append_all-taken rows vs q h fields (inl lt)
        ∙ ap (λ l. taken l q) (accepted-map q.condition_vec (row b) (positions b)) in
      (array, ap (λ x. x.1) array ∙ sym singles)
