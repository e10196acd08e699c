-- ===== src/Query/Group/Extremes.antt =====
-- What ExtremeValueFunc of src/pinusdb/query/group_function.h keeps, and where its ladders of
-- comparisons lose the extreme.
use pinusdb.Prelude.{
  ℕ, ◌≡◌, ◌⊎◌, refl, Bool, true, false, List, [], ◌∷◌, ◌∙◌, arith, All, get_or, inl, ap,
}
use pinusdb.Prelude.Int.{ℤ, ◌≤ℤ◌, ◌<ℤ◌, cast32}
use pinusdb.Value.{
  Floats, DbVal, ok, FieldType, code, data_type, is_null, get_int, null, int64, type_int8,
  type_int16, type_int32, type_int64, type_datetime,
}
use pinusdb.Query.Block.{BlockValues, cell, column, row}
use pinusdb.Query.Group.{append_rows, append_array_with, scan}
use pinusdb.Query.Group.Laws.{append_rows_step, get_or-row}
use pinusdb.Query.Group.Extreme
use pinusdb.Query.Group.Extreme.{ExtremeValue}

abbrev pub IsInteger : FieldType → Type 0
IsInteger ty = (ty ≡ type_int8) ⊎ (ty ≡ type_int16) ⊎ (ty ≡ type_int32) ⊎ (ty ≡ type_int64)

-- The last element of a list that is not empty.
abbrev pub last_of : {A : Type 0} → A → List A → A
last_of a [] = a
last_of a (b ∷ bs) = last_of b bs

module _ {F : Floats} where
  -- `c` is null, or no greater than the extreme that is kept.
  abbrev pub Dominated : DbVal F → DbVal F → Type 0
  Dominated c m = (is_null c ≡ true) ⊎ ((is_null m ≡ false) × (get_int c ≤ℤ get_int m))

  -- `m` is the value of some record.
  abbrev pub Occurs : ℕ → DbVal F → List (List (DbVal F)) → Type 0
  Occurs p m [] = ⊥
  Occurs p m (r ∷ rs) = (m ≡ get_or r p null) ⊎ Occurs p m rs

  abbrev pub IsTyped : FieldType → ℕ → List (List (DbVal F)) → Type 0
  IsTyped ty p =
      All (λ r. (is_null (get_or r p null) ≡ true) ⊎ (data_type (get_or r p null) ≡ code ty))

  -- The column is its own target, as in MAX(column), and the two values agree.
  record Inv (ty : FieldType) (p : ℕ) (s : ExtremeValue F) : Type 0 where
    compares : s.compare_pos ≡ p
    targets : s.target_pos ≡ p
    same : s.target_val ≡ s.compare_val
    typed : (is_null s.compare_val ≡ true) ⊎ (data_type s.compare_val ≡ code ty)

  record Step (ty : FieldType) (p : ℕ) (c : DbVal F) (s t : ExtremeValue F) : Type 0 where
    keeps : Inv ty p t
    above_new : Dominated c t.compare_val
    above_old : Dominated s.compare_val t.compare_val
    from : (t.compare_val ≡ s.compare_val) ⊎ (t.compare_val ≡ c)

  module _ (grow : ℕ → ℕ → ℕ) (ty : FieldType) (integer : IsInteger ty) (p : ℕ) where
    max-Step :
        (r : List (DbVal F)) (s : ExtremeValue F)
        → (is_null (get_or r p null) ≡ true) ⊎ (data_type (get_or r p null) ≡ code ty)
        → Inv ty p s
        → (t : ExtremeValue F) × (Extreme.append_single grow ty ty true r s ≡ (ok, t))
          × Step ty p (get_or r p null) s t
    unfolding Extreme.append_single Extreme.single_stays
    max-Step r s h inv = ((Extreme.append_single grow ty ty true r s).1, ground arith, ground arith)

    Dominated-trans : (a b c : DbVal F) → Dominated a b → Dominated b c → Dominated a c
    Dominated-trans a b c h k = ground arith

    max_rows :
        (rs : List (List (DbVal F))) (s : ExtremeValue F)
        → IsTyped ty p rs
        → Inv ty p s
        → (t : ExtremeValue F) × (append_rows (Extreme.append_single grow ty ty true) rs s
            ≡ (ok, t))
          × Inv ty p t
          × All (λ r. Dominated (get_or r p null) t.compare_val) rs
          × Dominated s.compare_val t.compare_val
          × ((t.compare_val ≡ s.compare_val) ⊎ Occurs p t.compare_val rs)
    max_rows [] s h inv = (s, unfold append_rows in refl, inv, tt, ground arith, inl refl)
    max_rows (r ∷ rs) s (h, hs) inv =
        let (s', e, step) = max-Step r s h inv in
        let (t, e', inv', all, above, from) = max_rows rs s' hs step.keeps in
        (
          t,
          append_rows_step (Extreme.append_single grow ty ty true) r rs s s' e ∙ e',
          inv',
          (Dominated-trans _ _ _ step.above_new above, all),
          Dominated-trans _ _ _ step.above_old above,
          ground arith,
        )

    -- MAX over an integer column without a value of another type, record by record: no error; the
    -- result is null or one of the values of the column, and every value that is not null is no
    -- greater than a result that is not null.
    pub max_result :
        (rs : List (List (DbVal F))) (out : DbVal F)
        → IsTyped ty p rs
        → let r = append_rows (Extreme.append_single grow ty ty true) rs (Extreme.new grow p p) in
          let m = (Extreme.get_result r.1 out).1 in
          (r.0 ≡ ok)
          × All (λ v. Dominated (get_or v p null) m) rs
          × ((is_null m ≡ true) ⊎ Occurs p m rs)
    unfolding Extreme.new Extreme.get_result
    max_result rs out h =
        let (t, e, inv, all, above, from) = max_rows rs (Extreme.new grow p p) h (ground arith) in
        rw e (rw inv.same (refl, all, ground arith))

module _ {F : Floats} (grow : ℕ → ℕ → ℕ) (p : ℕ) where
  -- MAX over a block of an int64 column with two records and no filter: a second value that is no
  -- greater than the first one, but greater than the first one cut to an int32, is the result,
  -- where the same two records one by one give the first.
  max_int64_lost :
      (b : BlockValues F) (m v : ℤ) (out : DbVal F)
      → b.record_size ≡ 2
      → b.filter_vec ≡ []
      → cell (column b p) 0 ≡ int64 m
      → cell (column b p) 1 ≡ int64 v
      → v ≤ℤ m
      → cast32 m <ℤ v
      → let block =
          Extreme.append_array grow type_int64 type_int64 true b 0 [] (Extreme.new grow p p) in
        let single =
          append_rows
            (Extreme.append_single grow type_int64 type_int64 true)
            (row b 0 ∷ row b 1 ∷ [])
            (Extreme.new grow p p) in
        (Extreme.get_result block.1 out ≡ (ok, int64 v))
        × (Extreme.get_result single.1 out ≡ (ok, int64 m))
  unfolding Extreme.append_array Extreme.append_array_inner Extreme.append_cell Extreme.array_stays
      Extreme.append_single Extreme.single_stays Extreme.new Extreme.get_result append_array_with
      scan append_rows
  max_int64_lost b m v out size no_filter first second le lost = (
    rw (no_filter, size) (ground (arith, first, second, lost)),
    ground (arith, first, second, le, get_or-row b 0 p, get_or-row b 1 p),
  )

  datetime_step :
      (is_max : Bool) (r : List (DbVal F)) (s : ExtremeValue F)
      → data_type (get_or r p null) ≡ code type_datetime
      → s.compare_pos ≡ p
      → s.target_pos ≡ p
      → (t : ExtremeValue F) × (Extreme.append_single grow type_datetime type_datetime is_max r s
          ≡ (ok, t))
        × (t.compare_pos ≡ p)
        × (t.target_pos ≡ p)
        × (t.target_val ≡ get_or r p null)
  unfolding Extreme.append_single Extreme.single_stays
  datetime_step is_max r s h c t = (
    record s { compare_val = get_or r p null; target_val = get_or r p null },
    ground arith,
    c,
    t,
    refl,
  )

  datetime_rows :
      (is_max : Bool) (r : List (DbVal F)) (rs : List (List (DbVal F))) (s : ExtremeValue F)
      → All (λ v. data_type (get_or v p null) ≡ code type_datetime) (r ∷ rs)
      → s.compare_pos ≡ p
      → s.target_pos ≡ p
      → let e =
          append_rows (Extreme.append_single grow type_datetime type_datetime is_max) (r ∷ rs) s in
        (e.0 ≡ ok) × (e.1.target_val ≡ get_or (last_of r rs) p null)
  datetime_rows is_max r [] s (h, hs) c t =
      let (s', e, c', t', v) = datetime_step is_max r s h c t in
      rw
        (append_rows_step (Extreme.append_single grow type_datetime type_datetime is_max) r [] s s'
          e)
        (unfold append_rows in (refl, v))
  datetime_rows is_max r (r' ∷ rs) s (h, hs) c t =
      let (s', e, c', t', v) = datetime_step is_max r s h c t in
      rw
        (append_rows_step (Extreme.append_single grow type_datetime type_datetime is_max) r
          (r' ∷ rs) s s' e)
        (datetime_rows is_max r' rs s' hs c' t')

  -- MIN and MAX over a column of time stamps, record by record: whatever the time stamps are, the
  -- result is the one of the last record.
  pub extreme_datetime_last :
      (is_max : Bool) (r : List (DbVal F)) (rs : List (List (DbVal F))) (out : DbVal F)
      → All (λ v. data_type (get_or v p null) ≡ code type_datetime) (r ∷ rs)
      → let e =
          append_rows
            (Extreme.append_single grow type_datetime type_datetime is_max)
            (r ∷ rs)
            (Extreme.new grow p p) in
        (e.0 ≡ ok) × (Extreme.get_result e.1 out ≡ (ok, get_or (last_of r rs) p null))
  unfolding Extreme.new Extreme.get_result
  extreme_datetime_last is_max r rs out h =
      let k = datetime_rows is_max r rs (Extreme.new grow p p) h refl refl in
      (k.0, ap (λ v. (ok, v)) k.1)
