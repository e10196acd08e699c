-- ===== src/Query/Group/Extreme.antt =====
-- ExtremeValueFunc of src/pinusdb/query/group_function.h: the least or greatest value of a column,
-- or the value of another column in that record. The two ladders of comparisons, in `AppendSingle`
-- and in `AppendArrayInner`, are kept apart as they stand.
use pinusdb.Prelude.{
  ℕ, zero, suc, ◌-◌, Bool, false, List, [], ◌∷◌, ◌++◌, length, take, ltb, ◌==◌, ◌&&◌, not, get_or,
  if◌then◌else◌,
}
use pinusdb.Prelude.Int.{leb_ℤ}
use pinusdb.Value.{
  Floats, DbVal, PdbErr, ok, invalid_param, FieldType, code, data_type, is_null, get_int, get_int32,
  get_float, get_double, null, type_int8, type_int16, type_int32, type_int64, type_float,
  type_double, block_value, get_block,
}
use pinusdb.Query.Block.{BlockValues, column, cell}
use pinusdb.Query.Group.{scan, skips, append_array_with}
use pinusdb.Query.Group.FirstLast.{is_block}

-- `v <= c`, or `v >= c` where the least value is sought.
abbrev pub stays {ℓ} : {A : Type ℓ} → (A → A → Bool) → Bool → A → A → Bool
stays le is_max v c = if is_max then le v c else le c v

pub record ExtremeValue (F : Floats) : Type 0 where
  pub compare_pos : ℕ
  pub target_pos : ℕ
  pub compare_val : DbVal F
  pub target_val : DbVal F
  pub target_buf : List ℕ
  pub capacity : ℕ

module _ {F : Floats} where
  abbrev float_of : DbVal F → F.Float
  float_of = get_float (F.narrow F.zero_double)

  -- The ladder in `AppendSingle`, whose float case reads the record's value as an int64. A type
  -- without a case is not compared.
  unfoldable pub single_stays : FieldType → Bool → DbVal F → DbVal F → Bool
  single_stays type_int8 is_max v c = stays leb_ℤ is_max (get_int v) (get_int c)
  single_stays type_int16 is_max v c = stays leb_ℤ is_max (get_int v) (get_int c)
  single_stays type_int32 is_max v c = stays leb_ℤ is_max (get_int v) (get_int c)
  single_stays type_int64 is_max v c = stays leb_ℤ is_max (get_int v) (get_int c)
  single_stays type_float is_max v c =
      stays F.le_float is_max (F.float_of_int64 (F.word_of_float (float_of v))) (float_of c)
  single_stays type_double is_max v c = stays F.le_double is_max (get_double v) (get_double c)
  single_stays _ is_max v c = false

  -- The ladder in `AppendArrayInner`, whose int64 case reads the old extreme as an int32.
  unfoldable pub array_stays : FieldType → Bool → DbVal F → DbVal F → Bool
  array_stays type_int8 is_max v c = stays leb_ℤ is_max (get_int v) (get_int c)
  array_stays type_int16 is_max v c = stays leb_ℤ is_max (get_int v) (get_int c)
  array_stays type_int32 is_max v c = stays leb_ℤ is_max (get_int v) (get_int c)
  array_stays type_int64 is_max v c = stays leb_ℤ is_max (get_int v) (get_int32 c)
  array_stays type_float is_max v c = stays F.le_float is_max (float_of v) (float_of c)
  array_stays type_double is_max v c = stays F.le_double is_max (get_double v) (get_double c)
  array_stays _ is_max v c = false

  unfoldable pub get_result : ExtremeValue F → DbVal F → PdbErr × DbVal F
  get_result s out = (ok, s.target_val)

-- `resize`: bytes behind the old size are 0.
abbrev pub zeros : ℕ → List ℕ
zeros zero = []
zeros (suc n) = 0 ∷ zeros n

-- `grow c n` is the capacity of a std::string behind a resize to `n` bytes that the capacity `c`
-- does not hold; that of a new string is `grow 0 0`.
module _ {F : Floats} (grow : ℕ → ℕ → ℕ) where
  unfoldable pub new : ℕ → ℕ → ExtremeValue F
  new cp tp = record {
    compare_pos = cp;
    target_pos = tp;
    compare_val = null;
    target_val = null;
    target_buf = [];
    capacity = grow 0 0;
  }

  -- `targetVal_` points into the buffer.
  abbrev set_target : FieldType → List ℕ → ℕ → ExtremeValue F → ExtremeValue F
  set_target ty bytes n s = record s {
    target_val = block_value ty bytes;
    target_buf = bytes;
    capacity = if ltb s.capacity n then grow s.capacity n else s.capacity;
  }

  -- In `AppendSingle` the bytes are copied before the buffer is resized, unless its capacity is too
  -- small for them; so those behind the old size are lost.
  abbrev pub store_single : FieldType → DbVal F → ExtremeValue F → ExtremeValue F
  store_single ty t s =
      let bytes = get_block t in
      let size = length s.target_buf in
      let kept = take size bytes ++ zeros (length bytes - size) in
      if is_block ty
      then if is_null t
        then record s { target_val = null }
        else set_target ty (if ltb s.capacity (length bytes) then bytes else kept) (length bytes) s
      else record s { target_val = t }

  abbrev pub store_array : FieldType → DbVal F → ExtremeValue F → ExtremeValue F
  store_array ty t s =
      if is_block ty
      then if is_null t
        then record s { target_val = null }
        else set_target ty (get_block t) (length (get_block t)) s
      else record s { target_val = t }

  unfoldable pub append_single :
      FieldType → FieldType → Bool → List (DbVal F) → ExtremeValue F → PdbErr × ExtremeValue F
  append_single compare_ty target_ty is_max vals s =
      let c = get_or vals s.compare_pos null in
      let t = get_or vals s.target_pos null in
      if is_null c
      then (ok, s)
      else if not (is_null t) && not (data_type t == code target_ty)
      then (invalid_param, s)
      else if not (data_type c == code compare_ty)
      then (invalid_param, s)
      else if not (is_null s.compare_val) && single_stays compare_ty is_max c s.compare_val
      then (ok, s)
      else (ok, store_single target_ty t (record s { compare_val = c }))

  -- The body of the loop in `AppendArrayInner`.
  unfoldable pub append_cell :
      FieldType → FieldType → Bool → BlockValues F → ℕ → ExtremeValue F → PdbErr × ExtremeValue F
  append_cell compare_ty target_ty is_max b i s =
      let c = cell (column b s.compare_pos) i in
      let t = cell (column b s.target_pos) i in
      if is_null c
      then (ok, s)
      else if not (is_null t) && not (data_type t == code target_ty)
      then (invalid_param, s)
      else if not (data_type c == code compare_ty)
      then (invalid_param, s)
      else if not (is_null s.compare_val) && array_stays compare_ty is_max c s.compare_val
      then (ok, s)
      else (ok, store_array target_ty t (record s { compare_val = c }))

  unfoldable pub append_array_inner :
      FieldType
      → FieldType
      → Bool
      → BlockValues F
      → Bool
      → Bool
      → ℕ
      → List ℕ
      → ExtremeValue F
      → PdbErr × ExtremeValue F
  append_array_inner compare_ty target_ty is_max b have_group have_filter group_id group_ids =
      scan (skips have_group have_filter b group_id group_ids)
        (append_cell compare_ty target_ty is_max b) b.record_size 0

  unfoldable pub append_array :
      FieldType
      → FieldType
      → Bool
      → BlockValues F
      → ℕ
      → List ℕ
      → ExtremeValue F
      → PdbErr × ExtremeValue F
  append_array compare_ty target_ty is_max b =
      append_array_with (append_array_inner compare_ty target_ty is_max b) b
