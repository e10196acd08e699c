-- ===== src/Query/Items.antt =====
-- src/pinusdb/query/value_item.h and value_item.cpp: the interface ValueItem, and the items that
-- conditions on single fields are made of: ConstValue, FieldValue, FieldCompareFunction and
-- AndFunction. A call returns the value that it stores beside the error code. The operand `val_` of
-- a comparison is the DBVal whose member of the type T it is.
mod Tests
pub mod Laws
pub mod And
use pinusdb.Prelude.{
  ℕ, zero, suc, Bool, true, false, Option, none, some, List, [], ◌∷◌, ◌==◌, ◌&&◌, ◌||◌, not, length,
  get_or, if◌then◌else◌,
}
use pinusdb.Prelude.Int.{ℤ, pos, ltb_ℤ, leb_ℤ}
use pinusdb.Value.{
  Floats, DbVal, PdbErr, ok, FieldType, code, data_type, is_number, get_int, get_float, get_double,
  null, bool, string, type_bool, type_int8, type_int16, type_int32, type_int64, type_datetime,
  type_float, type_double, type_string,
}
use pinusdb.Query.Block.{BlockValues, column}

-- The virtual functions of ValueItem that the conditions call. A range that the function does not
-- set (it returns false) is `none`.
pub record ValueItem (F : Floats) : Type 0 where
  pub value_type : ℕ
  pub is_const_value : Bool
  pub is_dev_id_condition : Bool
  pub is_tstamp_condition : Bool
  pub dev_id_range : Option (ℤ × ℤ)
  pub tstamp_range : Option (ℤ × ℤ)
  pub get_value : List (DbVal F) → PdbErr × DbVal F
  pub get_value_array : BlockValues F → PdbErr × List (DbVal F)

pub data CompOp : Type 0 where
  tk_lt tk_le tk_gt tk_ge tk_eq tk_ne : CompOp

-- INT64_MAX
abbrev pub int64_max : ℤ
int64_max = pos 9223372036854775807

abbrev pub compare_int : CompOp → ℤ → ℤ → Bool
compare_int tk_lt a b = ltb_ℤ a b
compare_int tk_le a b = leb_ℤ a b
compare_int tk_gt a b = ltb_ℤ b a
compare_int tk_ge a b = leb_ℤ b a
compare_int tk_eq a b = leb_ℤ a b && leb_ℤ b a
compare_int tk_ne a b = not (leb_ℤ a b && leb_ℤ b a)

-- strncmp(a, b, n) == 0 for two strings of the length n: it stops at a zero byte.
unfoldable pub strncmp_equal : List ℕ → List ℕ → Bool
strncmp_equal [] bs = true
strncmp_equal (a ∷ as') [] = true
strncmp_equal (a ∷ as') (b ∷ bs) = let rest = strncmp_equal as' bs in a == b && (a == 0 || rest)

abbrev same_string : List ℕ → List ℕ → Bool
same_string a b = length a == length b && strncmp_equal a b

abbrev compare_string : CompOp → List ℕ → List ℕ → Bool
compare_string tk_eq a b = same_string a b
compare_string tk_ne a b = not (same_string a b)
compare_string _ a b = false

abbrev same_bool : Bool → Bool → Bool
same_bool true b = b
same_bool false b = not b

abbrev compare_bool : CompOp → Bool → Bool → Bool
compare_bool tk_eq a b = same_bool a b
compare_bool tk_ne a b = not (same_bool a b)
compare_bool _ a b = false

-- The range that GetDevIdRange and GetTstampRange set.
abbrev pub op_range : CompOp → ℤ → ℤ × ℤ
op_range tk_lt val_ = (pos 0, val_)
op_range tk_le val_ = (pos 0, val_)
op_range tk_gt val_ = (val_, int64_max)
op_range tk_ge val_ = (val_, int64_max)
op_range tk_eq val_ = (val_, val_)
op_range tk_ne val_ = (pos 0, int64_max)

abbrev compare_double : (F : Floats) → CompOp → F.Double → F.Double → Bool
compare_double F tk_lt a b = F.lt_double a b
compare_double F tk_le a b = F.le_double a b
compare_double F tk_gt a b = F.lt_double b a
compare_double F tk_ge a b = F.le_double b a
compare_double F tk_eq a b = F.eq_double a b
compare_double F tk_ne a b = not (F.eq_double a b)

module _ {F : Floats} where
  -- DBVAL_GET_BOOL. On a value of another type it reads whatever the union holds; here `false`.
  abbrev pub get_bool : DbVal F → Bool
  get_bool (bool b) = b
  get_bool _ = false

  -- The bytes that DBVAL_GET_STRING points to, as many as DBVAL_GET_LEN says.
  abbrev pub get_string : DbVal F → List ℕ
  get_string (string s) = s
  get_string _ = []

  -- The `for` loop of the array functions over the records `i`, `i + 1`, ..., of which `n` are
  -- left; `keep` is the negation of its `continue` test.
  unfoldable pub value_loop :
      (DbVal F → DbVal F) → (ℕ → Bool) → List (DbVal F) → ℕ → ℕ → List (DbVal F)
  value_loop f keep vs zero i = []
  value_loop f keep vs (suc n) i =
      let rest = value_loop f keep vs n (suc i) in
      if keep i then f (get_or vs i null) ∷ rest else rest

  -- `count` times `push_back(v)`.
  abbrev pub repeat : ℕ → DbVal F → List (DbVal F)
  repeat zero v = []
  repeat (suc n) v = v ∷ repeat n v

  -- The part that FieldValue and FieldCompareFunction share: a filter that drops nothing is not
  -- looked at, and a column that is not loaded gives the same value everywhere.
  unfoldable pub column_loop : (DbVal F → DbVal F) → DbVal F → ℕ → BlockValues F → List (DbVal F)
  unfolding value_loop
  column_loop f missing field_pos b = elim (column b field_pos) [
    | none ↦ repeat b.result_size missing
    | some vs ↦ elim b.filter_vec [
      | [] ↦ value_loop f (λ i. true) vs b.record_size 0
      | g ∷ gs ↦
          if b.record_size == b.result_size
          then value_loop f (λ i. true) vs b.record_size 0
          else value_loop f (λ i. get_or (g ∷ gs) i false) vs b.record_size 0
    ]
  ]

  -- ConstValue(DBVal val)
  unfoldable pub const_value : DbVal F → ValueItem F
  unfolding value_loop
  const_value val_ = record {
    value_type = data_type val_;
    is_const_value = true;
    is_dev_id_condition = false;
    is_tstamp_condition = false;
    dev_id_range = none;
    tstamp_range = none;
    get_value = λ vals. (ok, val_);
    get_value_array = λ b. (
      ok,
      elim b.filter_vec [
        | [] ↦ value_loop (λ v. val_) (λ i. true) [] b.record_size 0
        | g ∷ gs ↦ value_loop (λ v. val_) (λ i. get_or (g ∷ gs) i false) [] b.record_size 0
      ],
    );
  }

  -- The value of a field, or null if it has another type.
  abbrev pub typed_value : FieldType → DbVal F → DbVal F
  typed_value ty v = if data_type v == code ty then v else null

  -- FieldValue<FieldType>
  unfoldable pub field_value : FieldType → ℕ → ValueItem F
  unfolding column_loop
  field_value ty field_pos = record {
    value_type = code ty;
    is_const_value = false;
    is_dev_id_condition = false;
    is_tstamp_condition = false;
    dev_id_range = none;
    tstamp_range = none;
    get_value = λ vals. (ok, typed_value ty (get_or vals field_pos null));
    get_value_array = λ b. (ok, column_loop (typed_value ty) null field_pos b);
  }

  -- GET_DOUBLE_BY_DATA_TYPE for the types that are left.
  abbrev field_double : FieldType → DbVal F → F.Double
  field_double type_float v = F.widen (get_float (F.narrow F.zero_double) v)
  field_double _ v = get_double v

  -- The ladder that both functions of FieldCompareFunction go through, on a value of the type. It has
  -- no case for the order of strings or of Booleans, where C++ leaves the value unset; IsValid refuses
  -- such an item where it is built.
  unfoldable pub compare_field : FieldType → CompOp → DbVal F → DbVal F → Bool
  unfolding strncmp_equal
  compare_field type_string op v val_ = compare_string op (get_string v) (get_string val_)
  compare_field type_bool op v val_ = compare_bool op (get_bool v) (get_bool val_)
  compare_field type_datetime op v val_ = compare_int op (get_int v) (get_int val_)
  compare_field type_int8 op v val_ = compare_int op (get_int v) (get_int val_)
  compare_field type_int16 op v val_ = compare_int op (get_int v) (get_int val_)
  compare_field type_int32 op v val_ = compare_int op (get_int v) (get_int val_)
  compare_field type_int64 op v val_ = compare_int op (get_int v) (get_int val_)
  compare_field ty op v val_ = compare_double F op (field_double ty v) (get_double val_)

  abbrev pub compared : FieldType → CompOp → DbVal F → DbVal F → DbVal F
  compared ty op val_ v =
      if not (data_type v == code ty) then bool false else bool (compare_field ty op v val_)

  -- FieldCompareFunction<FieldType, T, CompOp>
  unfoldable pub field_compare : FieldType → CompOp → ℕ → DbVal F → ValueItem F
  unfolding column_loop
  field_compare ty op field_pos val_ =
      let on_dev_id = field_pos == 0 && code ty == 5 in
      let on_tstamp = field_pos == 1 && code ty == 6 in
      record {
        value_type = 1;
        is_const_value = false;
        is_dev_id_condition = on_dev_id;
        is_tstamp_condition = on_tstamp;
        dev_id_range = if on_dev_id then some (op_range op (get_int val_)) else none;
        tstamp_range = if on_tstamp then some (op_range op (get_int val_)) else none;
        get_value = λ vals. (ok, compared ty op val_ (get_or vals field_pos null));
        get_value_array = λ b. (ok, column_loop (compared ty op val_) (bool false) field_pos b);
      }

  -- `DBVAL_SET_BOOL(pVals1, DBVAL_GET_BOOL(pVals1) && DBVAL_GET_BOOL(pVals2))` for each of the
  -- results; a shorter list is not read on.
  unfoldable pub merge_result : List (DbVal F) → List (DbVal F) → List (DbVal F)
  merge_result [] ws = []
  merge_result (v ∷ vs) [] = v ∷ vs
  merge_result (v ∷ vs) (w ∷ ws) = bool (get_bool v && get_bool w) ∷ merge_result vs ws

  -- The loop of AndFunction::GetValue; `last` is `tmpRet`.
  unfoldable pub and_value : List (ValueItem F) → List (DbVal F) → DbVal F → PdbErr × DbVal F
  and_value [] vals last = (ok, last)
  and_value (it ∷ its) vals last = elim (it.get_value vals).0 [
    | ok ↦
        let v = (it.get_value vals).1 in
        let rest = and_value its vals v in if not (get_bool v) then (ok, v) else rest
    | e ↦ (e, null)
  ]

  -- The loop of AndFunction::GetValueArray over the conditions after the first.
  unfoldable pub and_array :
      List (ValueItem F) → BlockValues F → List (DbVal F) → PdbErr × List (DbVal F)
  unfolding merge_result
  and_array [] b vals1 = (ok, vals1)
  and_array (it ∷ its) b vals1 = elim (it.get_value_array b).0 [
    | ok ↦ and_array its b (merge_result vals1 (it.get_value_array b).1)
    | e ↦ (e, [])
  ]

  abbrev all_const : List (ValueItem F) → Bool
  all_const [] = true
  all_const (it ∷ its) = it.is_const_value && all_const its

  -- AndFunction over its first condition and the others: it is not valid without a condition.
  unfoldable pub and_function : ValueItem F → List (ValueItem F) → ValueItem F
  unfolding and_value and_array
  and_function it its = record {
    value_type = 1;
    is_const_value = all_const (it ∷ its);
    is_dev_id_condition = false;
    is_tstamp_condition = false;
    dev_id_range = none;
    tstamp_range = none;
    get_value = λ vals. and_value (it ∷ its) vals (bool true);
    get_value_array = λ b. elim (it.get_value_array b).0 [
      | ok ↦ and_array its b (it.get_value_array b).1
      | e ↦ (e, [])
    ];
  }
