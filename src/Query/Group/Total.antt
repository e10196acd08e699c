-- ===== src/Query/Group/Total.antt =====
-- What SumFunc and AvgFunc of src/pinusdb/query/group_function.h compute over integer columns.
use pinusdb.Prelude.{
  ℕ, suc, ◌+◌, ◌≡◌, ◌⊎◌, refl, Bool, true, false, List, [], ◌∷◌, arith, All, get_or, inl, inr,
  Bool-cases, if◌then◌else◌, ◌||◌, ltb, ◌∙◌, ap, sym,
}
use pinusdb.Prelude.Int.{ℤ, pos, ◌+ℤ◌, cast64, cast64-+ℤ, +ℤ_assoc, tdiv, cast}
use pinusdb.Value.{
  Floats, DbVal, ok, invalid_param, FieldType, code, data_type, is_null, is_number, get_int, null,
  int64, type_int8, type_int16, type_int32, type_int64,
}
use pinusdb.Query.Group.{append_rows}
use pinusdb.Query.Group.Laws.{append_rows_step}
use pinusdb.Query.Group.Avg
use pinusdb.Query.Group.Avg.{AvgFunc}
use pinusdb.Query.Group.Sum
use pinusdb.Query.Group.Sum.{SumFunc}

zero-+ℤ : (a : ℤ) → pos 0 +ℤ a ≡ a
unfolding ◌+ℤ◌
zero-+ℤ a = ground arith

+ℤ-zero : (a : ℤ) → a +ℤ pos 0 ≡ a
unfolding ◌+ℤ◌
+ℤ-zero a = ground arith

or_true : (b : Bool) (n : ℕ) → (true || ltb 0 n) ≡ (b || ltb 0 (suc n))
or_true b n = ground arith

module _ {F : Floats} (p : ℕ) where
  -- The exact sum of the column `p`, null counting as 0.
  abbrev pub exact_sum : List (List (DbVal F)) → ℤ
  exact_sum [] = pos 0
  exact_sum (r ∷ rs) =
      if is_null (get_or r p null) then exact_sum rs else get_int (get_or r p null) +ℤ exact_sum rs

  abbrev pub non_null : List (List (DbVal F)) → ℕ
  non_null [] = 0
  non_null (r ∷ rs) = if is_null (get_or r p null) then non_null rs else suc (non_null rs)

  -- The column holds nulls and values of the type.
  abbrev pub IsTyped : FieldType → List (List (DbVal F)) → Type 0
  IsTyped ty =
      All (λ r. (is_null (get_or r p null) ≡ true) ⊎ (data_type (get_or r p null) ≡ code ty))

module _ {F : Floats} where
  sum_step :
      (ty : FieldType) (r : List (DbVal F)) (s : SumFunc F)
      → is_number ty ≡ true
      → is_null (get_or r s.field_pos null) ≡ false
      → data_type (get_or r s.field_pos null) ≡ code ty
      → Sum.append_single ty r s ≡ (
        ok,
        record s {
          have_val = true;
          sum_val = record (s.sum_val) {
            int_total = cast64 (s.sum_val.int_total +ℤ get_int (get_or r s.field_pos null));
          };
        },
      )
  unfolding Sum.append_single
  sum_step ty r s n h t = ground arith

  sum_null :
      (ty : FieldType) (r : List (DbVal F)) (s : SumFunc F)
      → is_null (get_or r s.field_pos null) ≡ true
      → Sum.append_single ty r s ≡ (ok, s)
  unfolding Sum.append_single
  sum_null ty r s h = rw h

  sum_rows :
      (ty : FieldType) (rs : List (List (DbVal F))) (s : SumFunc F) (a : ℤ)
      → is_number ty ≡ true
      → IsTyped s.field_pos ty rs
      → s.sum_val.int_total ≡ cast64 a
      → let r = append_rows (Sum.append_single ty) rs s in
        (r.0 ≡ ok)
        × (r.1.sum_val.int_total ≡ cast64 (a +ℤ exact_sum s.field_pos rs))
        × (r.1.have_val ≡ (s.have_val || ltb 0 (non_null s.field_pos rs)))
  sum_rows ty [] s a n t e =
      unfold append_rows in (refl, e ∙ ap cast64 (sym (+ℤ-zero a)), ground arith)
  sum_rows ty (r ∷ rs) s a n (t, ts) e = elim (Bool-cases (is_null (get_or r s.field_pos null))) [
    | inl h ↦
        rw (h, append_rows_step (Sum.append_single ty) r rs s s (sum_null ty r s h))
          (sum_rows ty rs s a n ts e)
    | inr h ↦
        let v = get_int (get_or r s.field_pos null) in
        let s' = record s {
          have_val = true;
          sum_val = record (s.sum_val) { int_total = cast64 (s.sum_val.int_total +ℤ v) };
        } in
        let e' : cast64 (s.sum_val.int_total +ℤ v) ≡ cast64 (a +ℤ v) = rw e (cast64-+ℤ a v) in
        let ih = sum_rows ty rs s' (a +ℤ v) n ts e' in
        rw (h, append_rows_step (Sum.append_single ty) r rs s s' (sum_step ty r s n h (typed h t)))
          (
            ih.0,
            ih.1 ∙ ap cast64 (+ℤ_assoc a v _),
            ih.2 ∙ or_true s.have_val (non_null s.field_pos rs),
          )
  ]
    where
      typed :
          is_null (get_or r s.field_pos null) ≡ false
          → (is_null (get_or r s.field_pos null) ≡ true)
            ⊎ (data_type (get_or r s.field_pos null) ≡ code ty)
          → data_type (get_or r s.field_pos null) ≡ code ty
      typed h (inl k) = cc
      typed h (inr k) = k

  -- SumFunc over an integer column without a value of another type: no error; the result is null
  -- if every value is null, and otherwise the exact sum of the values wrapped to an int64.
  pub sum_result :
      (ty : FieldType) (p : ℕ) (rs : List (List (DbVal F))) (out : DbVal F)
      → is_number ty ≡ true
      → IsTyped p ty rs
      → let r = append_rows (Sum.append_single ty) rs (Sum.new p) in
        (r.0 ≡ ok)
        × (Sum.get_result ty r.1 out
            ≡ (ok, if ltb 0 (non_null p rs) then int64 (cast64 (exact_sum p rs)) else null))
  unfolding Sum.new Sum.get_result
  sum_result ty p rs out n t =
      let h = sum_rows ty rs (Sum.new p) (pos 0) n t (unfold cast in refl) in
      (h.0, ground (arith, h, zero-+ℤ (exact_sum p rs)))

  avg_step :
      (ty : FieldType) (r : List (DbVal F)) (s : AvgFunc F)
      → is_number ty ≡ true
      → is_null (get_or r s.field_pos null) ≡ false
      → data_type (get_or r s.field_pos null) ≡ code ty
      → Avg.append_single ty r s ≡ (
        ok,
        record s {
          total_val = record (s.total_val) {
            int_total = cast64 (s.total_val.int_total +ℤ get_int (get_or r s.field_pos null));
          };
          data_cnt = suc s.data_cnt;
        },
      )
  unfolding Avg.append_single Avg.add_value
  avg_step ty r s n h t = ground arith

  avg_rows :
      (ty : FieldType) (rs : List (List (DbVal F))) (s : AvgFunc F) (a : ℤ)
      → is_number ty ≡ true
      → IsTyped s.field_pos ty rs
      → s.total_val.int_total ≡ cast64 a
      → let r = append_rows (Avg.append_single ty) rs s in
        (r.0 ≡ ok)
        × (r.1.total_val.int_total ≡ cast64 (a +ℤ exact_sum s.field_pos rs))
        × (r.1.data_cnt ≡ s.data_cnt + non_null s.field_pos rs)
  avg_rows ty [] s a n t e =
      unfold append_rows in (refl, e ∙ ap cast64 (sym (+ℤ-zero a)), omega arith)
  avg_rows ty (r ∷ rs) s a n (t, ts) e = elim (Bool-cases (is_null (get_or r s.field_pos null))) [
    | inl h ↦
        rw (h, append_rows_step (Avg.append_single ty) r rs s s (null_step h))
          (avg_rows ty rs s a n ts e)
    | inr h ↦
        let v = get_int (get_or r s.field_pos null) in
        let s' = record s {
          total_val = record (s.total_val) { int_total = cast64 (s.total_val.int_total +ℤ v) };
          data_cnt = suc s.data_cnt;
        } in
        let e' : cast64 (s.total_val.int_total +ℤ v) ≡ cast64 (a +ℤ v) = rw e (cast64-+ℤ a v) in
        let ih = avg_rows ty rs s' (a +ℤ v) n ts e' in
        rw (h, append_rows_step (Avg.append_single ty) r rs s s' (avg_step ty r s n h (typed h t)))
          (ih.0, ih.1 ∙ ap cast64 (+ℤ_assoc a v _), omega (arith, ih.2))
  ]
    where
      null_step : is_null (get_or r s.field_pos null) ≡ true → Avg.append_single ty r s ≡ (ok, s)
      null_step h = unfold Avg.append_single in rw h

      typed :
          is_null (get_or r s.field_pos null) ≡ false
          → (is_null (get_or r s.field_pos null) ≡ true)
            ⊎ (data_type (get_or r s.field_pos null) ≡ code ty)
          → data_type (get_or r s.field_pos null) ≡ code ty
      typed h (inl k) = cc
      typed h (inr k) = k

  -- AvgFunc over an int64 column without a value of another type: no error; the result is null if
  -- every value is null, and otherwise the sum of the values, wrapped to an int64, divided by the
  -- number of values that are not null, rounded towards zero.
  pub avg_result :
      (p : ℕ) (rs : List (List (DbVal F))) (out : DbVal F)
      → IsTyped p type_int64 rs
      → let r = append_rows (Avg.append_single type_int64) rs (Avg.new p) in
        (r.0 ≡ ok)
        × (Avg.get_result type_int64 r.1 out ≡ (
          ok,
          if ltb 0 (non_null p rs)
              then int64 (tdiv (cast64 (exact_sum p rs)) (non_null p rs))
              else null,
        ))
  unfolding Avg.new Avg.get_result
  avg_result p rs out t =
      let h = avg_rows type_int64 rs (Avg.new p) (pos 0) refl t (unfold cast in refl) in
      (h.0, ground (arith, h, zero-+ℤ (exact_sum p rs)))

  -- AvgFunc over an int8, int16 or int32 column without a value of another type: appending
  -- succeeds, and `GetResult` returns an error unless every value is null.
  pub avg_small_result :
      (ty : FieldType) (p : ℕ) (rs : List (List (DbVal F))) (out : DbVal F)
      → (ty ≡ type_int8) ⊎ (ty ≡ type_int16) ⊎ (ty ≡ type_int32)
      → IsTyped p ty rs
      → let r = append_rows (Avg.append_single ty) rs (Avg.new p) in
        (r.0 ≡ ok)
        × ((Avg.get_result ty r.1 out).0 ≡ (if ltb 0 (non_null p rs) then invalid_param else ok))
  unfolding Avg.new Avg.get_result
  avg_small_result ty p rs out small t =
      let h = avg_rows ty rs (Avg.new p) (pos 0) (ground arith) t (unfold cast in refl) in
      (h.0, ground (arith, h))
