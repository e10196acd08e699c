-- ===== src/Query/Raw/Rows.antt =====
-- Which records a query that returns records takes (src/pinusdb/query/query_raw.cpp): those behind
-- the offset, up to the limit.
use pinusdb.Prelude.{
  ℕ, zero, suc, ◌+◌, ◌-◌, ◌≤◌, ◌<◌, ◌≡◌, refl, sym, ap, ◌∙◌, false, List, [], ◌∷◌, arith, length,
  take, drop, leb, leb→le, take_nil, All, if_cases, if◌then◌else◌,
}
use pinusdb.Value.{Floats, DbVal, PdbErr, ok, result_full}
use mathlib.Core.Path.{subst}
use pinusdb.Query.Block.{BlockValues, get_record_value}
use pinusdb.Query.Items.{ValueItem}
use pinusdb.Query.Raw.{
  QueryRaw, push_fields, add_record, get_is_full_flag, record_loop, push_back_to_result,
}

pub not_full_lem : (a b : ℕ) → b < a → leb a b ≡ false
not_full_lem a b h = ground arith

pub lt_of_leb : (a b : ℕ) → leb a b ≡ false → b < a
lt_of_leb a b h = ground arith

module _ {F : Floats} where
  -- Items that never fail.
  abbrev pub NeverFail : List (ValueItem F) → Type 0
  NeverFail its = All (λ it. (r : List (DbVal F)) → (it.get_value r).0 ≡ ok) its

  -- The bytes of the records of a result.
  abbrev pub push_rows : List (ValueItem F) → List (List (DbVal F)) → List ℕ → List ℕ
  push_rows its [] dst = dst
  push_rows its (r ∷ rs) dst = push_rows its rs ((push_fields its r dst).1)

  -- The query behind records that pass its conditions: those behind the offset are added up to the limit,
  -- and the offset is lower by the number of records.
  abbrev pub taken : List (List (DbVal F)) → QueryRaw F → QueryRaw F
  taken rows q =
      let picked = take (q.query_record - q.cur_record) (drop q.query_offset rows) in
      record q {
        query_offset = q.query_offset - length rows;
        cur_record = q.cur_record + length picked;
        result_data = push_rows q.field_vec picked q.result_data;
      }

  push_fields_ok :
      (its : List (ValueItem F)) (r : List (DbVal F)) (dst : List ℕ)
      → NeverFail its
      → (push_fields its r dst).0 ≡ ok
  unfolding push_fields
  push_fields_ok [] r dst h = refl
  push_fields_ok (it ∷ its) r dst (h, hs) =
      rw (h r) (push_fields_ok its r (push_back_to_result dst ((it.get_value r).1)) hs)

  -- What one record adds.
  abbrev pub with_row : List (DbVal F) → QueryRaw F → QueryRaw F
  with_row r q = record q {
    cur_record = suc q.cur_record;
    result_data = (push_fields q.field_vec r q.result_data).1;
  }

  pub add_record_lem :
      (r : List (DbVal F)) (q : QueryRaw F)
      → NeverFail q.field_vec
      → add_record r q ≡ (ok, with_row r q)
  add_record_lem r q h = rw (push_fields_ok q.field_vec r q.result_data h) refl

  -- The records that the block serves from a place on.
  abbrev pub Serves : ℕ → ℕ → BlockValues F → List (List (DbVal F)) → Type 0
  Serves zero idx b rs = rs ≡ []
  Serves (suc n) idx b [] = ⊥
  Serves (suc n) idx b (r ∷ rs) =
      let v = get_record_value idx b in (v.0 ≡ ok) × (v.1 ≡ r) × Serves n (suc idx) (v.2) rs

  abbrev counted : QueryRaw F → List ℕ → ℕ → QueryRaw F
  counted q dst c = record q { cur_record = c; result_data = dst }

  abbrev pub shown : List (List (DbVal F)) → QueryRaw F → QueryRaw F
  shown picked q =
      counted q (push_rows q.field_vec picked q.result_data) (q.cur_record + length picked)

  pub shown_none : (q : QueryRaw F) → shown [] q ≡ q
  shown_none q =
      let e : q.cur_record + 0 ≡ q.cur_record = omega arith in ap (counted q q.result_data) e

  -- The limit alone.
  abbrev pub limited : List (List (DbVal F)) → QueryRaw F → QueryRaw F
  limited rs q = shown (take (q.query_record - q.cur_record) rs) q

  pub limited_step :
      (r : List (DbVal F)) (rs : List (List (DbVal F))) (q : QueryRaw F)
      → q.cur_record < q.query_record
      → limited rs (with_row r q) ≡ limited (r ∷ rs) q
  limited_step r rs q h =
      let left = q.query_record - suc q.cur_record in
      let one_more : suc left ≡ q.query_record - q.cur_record = omega arith in
      let count : suc q.cur_record + length (take left rs)
          ≡ q.cur_record + suc (length (take left rs)) =
        omega arith in
      ap (counted q (push_rows q.field_vec (r ∷ take left rs) q.result_data)) count
      ∙ ap (λ m. shown (take m (r ∷ rs)) q) one_more

  pub limited_full :
      (rs : List (List (DbVal F))) (q : QueryRaw F)
      → q.query_record ≤ q.cur_record
      → limited rs q ≡ q
  limited_full rs q h =
      let none_left : q.query_record - q.cur_record ≡ 0 = omega arith in
      ap (λ m. shown (take m rs) q) none_left ∙ shown_none q

  -- What a call returns that ends with the query `q`.
  abbrev pub outcome : QueryRaw F → PdbErr × QueryRaw F
  outcome q = (if get_is_full_flag q then result_full else ok, q)

  pub record_loop_lem :
      (n idx : ℕ) (b : BlockValues F) (q : QueryRaw F) (rs : List (List (DbVal F)))
      → NeverFail q.field_vec
      → q.cur_record < q.query_record
      → Serves n idx b rs
      → record_loop n idx b q ≡ outcome (limited rs q)
  unfolding record_loop
  record_loop_lem zero idx b q rs h lt e =
      let same : limited rs q ≡ q =
        ap (λ l. limited l q) e
        ∙ ap (λ l. shown l q) (take_nil (q.query_record - q.cur_record))
        ∙ shown_none q in
      let open_ : get_is_full_flag q ≡ false = not_full_lem q.query_record q.cur_record lt in
      let done : PdbErr × QueryRaw F = (ok, q) in
      subst (λ x. done ≡ outcome x) (sym same) (rw open_ refl)
  record_loop_lem (suc n) idx b q [] h lt e = absurd e
  record_loop_lem (suc n) idx b q (r ∷ rs) h lt (e, v, more) =
      let w = with_row r q in
      let rest = record_loop n (suc idx) ((get_record_value idx b).2) w in
      let same = limited_step r rs q lt in
      let step : record_loop (suc n) idx b q
          ≡ (if get_is_full_flag w then (result_full, w) else rest) =
        rw e (rw v (rw (add_record_lem r q h) refl)) in
      step
      ∙ if_cases (λ x. x ≡ outcome (limited (r ∷ rs) q)) (get_is_full_flag w)
          (λ y.
            let here =
              sym (limited_full rs w (leb→le q.query_record (suc q.cur_record) y)) ∙ same in
            let done : PdbErr × QueryRaw F = (result_full, w) in
            subst (λ x. done ≡ outcome x) here (rw y refl))
          (λ y.
            record_loop_lem n (suc idx) ((get_record_value idx b).2) w rs h
              (lt_of_leb q.query_record (suc q.cur_record) y) more
            ∙ ap outcome same)
