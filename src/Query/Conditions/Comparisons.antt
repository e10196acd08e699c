-- ===== src/Query/Conditions/Comparisons.antt =====
-- The comparison of a field with a value keeps to the ranges that BuildCondition of
-- src/pinusdb/query/condition_filter.cpp takes from it.
use pinusdb.Prelude.{
  ℕ, zero, suc, ◌≡◌, refl, Bool, true, none, some, List, arith, get_or, ◌&&◌, ◌==◌, if◌then◌else◌,
}
use pinusdb.Prelude.Int.{ℤ, pos, ◌≤ℤ◌}
use pinusdb.Value.{
  Floats, DbVal, is_true, null, int64, datetime, get_int, FieldType, code, type_int64,
  type_datetime,
}
use pinusdb.Query.Items.{
  CompOp, field_compare, compared, compare_field, int64_max, compare_int, op_range,
}
use pinusdb.Query.Conditions.Ranges.{IsRanged}

-- The range of a comparison holds for the integers that pass it.
compare_range :
    (op : CompOp) (n v lo hi : ℤ)
    → op_range op v ≡ (lo, hi)
    → pos 0 ≤ℤ n
    → n ≤ℤ int64_max
    → compare_int op n v ≡ true
    → (lo ≤ℤ n) × (n ≤ℤ hi)
compare_range op n v lo hi e l u h = ground (arith, e, l, u, h)

guarded : (b : Bool) (x y : ℤ × ℤ) → (if b then some x else none) ≡ some y → (b ≡ true) × (x ≡ y)
guarded b x y h = ground (arith, h)

module _ {F : Floats} where
  dev_case :
      (ty : FieldType) (op : CompOp) (p : ℕ) (val_ : DbVal F) (r : List (DbVal F)) (d : ℤ)
      → (p == 0 && code ty == 5) ≡ true
      → get_or r 0 null ≡ int64 d
      → is_true (compared ty op val_ (get_or r p null)) ≡ true
      → compare_int op d (get_int val_) ≡ true
  unfolding compare_field
  dev_case type_int64 op zero val_ r d k e h = ground (arith, e, h)
  dev_case _ op p val_ r d k e h = absurd (ground (arith, k))

  tstamp_case :
      (ty : FieldType) (op : CompOp) (p : ℕ) (val_ : DbVal F) (r : List (DbVal F)) (t : ℤ)
      → (p == 1 && code ty == 6) ≡ true
      → get_or r 1 null ≡ datetime t
      → is_true (compared ty op val_ (get_or r p null)) ≡ true
      → compare_int op t (get_int val_) ≡ true
  unfolding compare_field
  tstamp_case type_datetime op (suc zero) val_ r t k e h = ground (arith, e, h)
  tstamp_case _ op p val_ r t k e h = absurd (ground (arith, k))

  -- A comparison of a field with a value keeps to its ranges.
  pub field_compare-IsRanged :
      (ty : FieldType) (op : CompOp) (p : ℕ) (val_ : DbVal F)
      → IsRanged (field_compare ty op p val_)
  unfolding field_compare
  field_compare-IsRanged ty op p val_ = record {
    dev_range = λ r d t lo hi w e h.
        let (k, e') = guarded (p == 0 && code ty == 5) (op_range op (get_int val_)) (lo, hi) e in
        compare_range op d (get_int val_) lo hi e' (omega (arith, w.low_id)) w.high_id
          (dev_case ty op p val_ r d k w.device h);
    tstamp_range = λ r d t lo hi w e h.
        let (k, e') = guarded (p == 1 && code ty == 6) (op_range op (get_int val_)) (lo, hi) e in
        compare_range op t (get_int val_) lo hi e' w.low_time (omega (arith, w.high_time))
          (tstamp_case ty op p val_ r t k w.stamp h);
    constant = λ e r. ground (arith, e);
    dev_only = λ e r. let first : p ≡ 0 = ground (arith, e) in rw first refl;
  }
