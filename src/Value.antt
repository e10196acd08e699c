-- ===== src/Value.antt =====
-- src/pinusdb/include/pdb.h, include/pdb_error.h and table/db_value.h: error codes, field types
-- and the tagged value DBVal. A `DbVal` constructor stands for a tag together with the member of
-- the union that the tag selects; the length of a string or blob is the length of its list of
-- bytes. Floating point is not under the repository's control: its types and operations are the
-- parameter `Floats`.
pub mod Integral
use pinusdb.Prelude.{ℕ, ◌≡◌, ◌≢◌, ◌⊎◌, inl, inr, refl, Bool, true, false, List}
use pinusdb.Prelude.Int.{ℤ, pos, cast32}

-- The codes that the modelled functions return.
pub data PdbErr : Type 0 where
  ok invalid_param : PdbErr
  dev_not_found idx_not_found record_exist page_fill : PdbErr
  ioerr file_not_found data_log_error data_log_ver_error data_filecode_error : PdbErr
  file_readonly logfile_full nomem result_full task_cancel sql_condition_expr_error value_mismatch
        record_fail table_field_mismatch invalid_blob_val :
      PdbErr

-- `if (retVal != PdbE_OK) return ...;` before the rest.
abbrev pub on_ok {ℓ} : {A : Type ℓ} → PdbErr → A → A → A
on_ok ok rest out = rest
on_ok _ rest out = out

pub PdbErr-cases : (e : PdbErr) → (e ≡ ok) ⊎ (e ≢ ok)
PdbErr-cases ok = inl refl
PdbErr-cases invalid_param = inr (λ h. absurd (cc h))
PdbErr-cases dev_not_found = inr (λ h. absurd (cc h))
PdbErr-cases idx_not_found = inr (λ h. absurd (cc h))
PdbErr-cases record_exist = inr (λ h. absurd (cc h))
PdbErr-cases page_fill = inr (λ h. absurd (cc h))
PdbErr-cases ioerr = inr (λ h. absurd (cc h))
PdbErr-cases file_not_found = inr (λ h. absurd (cc h))
PdbErr-cases data_log_error = inr (λ h. absurd (cc h))
PdbErr-cases data_log_ver_error = inr (λ h. absurd (cc h))
PdbErr-cases data_filecode_error = inr (λ h. absurd (cc h))
PdbErr-cases file_readonly = inr (λ h. absurd (cc h))
PdbErr-cases logfile_full = inr (λ h. absurd (cc h))
PdbErr-cases nomem = inr (λ h. absurd (cc h))
PdbErr-cases result_full = inr (λ h. absurd (cc h))
PdbErr-cases task_cancel = inr (λ h. absurd (cc h))
PdbErr-cases sql_condition_expr_error = inr (λ h. absurd (cc h))
PdbErr-cases value_mismatch = inr (λ h. absurd (cc h))
PdbErr-cases record_fail = inr (λ h. absurd (cc h))
PdbErr-cases table_field_mismatch = inr (λ h. absurd (cc h))
PdbErr-cases invalid_blob_val = inr (λ h. absurd (cc h))

-- What holds of both ways out holds of the call.
pub on_ok_cases {ℓ κ} :
    {A : Type ℓ} (P : A → Type κ) (e : PdbErr) {rest out : A}
    → (e ≡ ok → P rest)
    → (e ≢ ok → P out)
    → P (on_ok e rest out)
on_ok_cases P ok h k = h refl
on_ok_cases P invalid_param h k = k (λ e. absurd (cc e))
on_ok_cases P dev_not_found h k = k (λ e. absurd (cc e))
on_ok_cases P idx_not_found h k = k (λ e. absurd (cc e))
on_ok_cases P record_exist h k = k (λ e. absurd (cc e))
on_ok_cases P page_fill h k = k (λ e. absurd (cc e))
on_ok_cases P ioerr h k = k (λ e. absurd (cc e))
on_ok_cases P file_not_found h k = k (λ e. absurd (cc e))
on_ok_cases P data_log_error h k = k (λ e. absurd (cc e))
on_ok_cases P data_log_ver_error h k = k (λ e. absurd (cc e))
on_ok_cases P data_filecode_error h k = k (λ e. absurd (cc e))
on_ok_cases P file_readonly h k = k (λ e. absurd (cc e))
on_ok_cases P logfile_full h k = k (λ e. absurd (cc e))
on_ok_cases P nomem h k = k (λ e. absurd (cc e))
on_ok_cases P result_full h k = k (λ e. absurd (cc e))
on_ok_cases P task_cancel h k = k (λ e. absurd (cc e))
on_ok_cases P sql_condition_expr_error h k = k (λ e. absurd (cc e))
on_ok_cases P value_mismatch h k = k (λ e. absurd (cc e))
on_ok_cases P record_fail h k = k (λ e. absurd (cc e))
on_ok_cases P table_field_mismatch h k = k (λ e. absurd (cc e))
on_ok_cases P invalid_blob_val h k = k (λ e. absurd (cc e))

-- The same where the way out depends on the code.
pub code_cases {ℓ κ} :
    {A : Type ℓ} (P : A → Type κ) (e : PdbErr) (rest : A) (out : PdbErr → A)
    → P rest
    → ((c : PdbErr) → P (out c))
    → P (elim e [ ok ↦ rest | c ↦ out c ])
code_cases P ok rest out h k = h
code_cases P invalid_param rest out h k = k invalid_param
code_cases P dev_not_found rest out h k = k dev_not_found
code_cases P idx_not_found rest out h k = k idx_not_found
code_cases P record_exist rest out h k = k record_exist
code_cases P page_fill rest out h k = k page_fill
code_cases P ioerr rest out h k = k ioerr
code_cases P file_not_found rest out h k = k file_not_found
code_cases P data_log_error rest out h k = k data_log_error
code_cases P data_log_ver_error rest out h k = k data_log_ver_error
code_cases P data_filecode_error rest out h k = k data_filecode_error
code_cases P file_readonly rest out h k = k file_readonly
code_cases P logfile_full rest out h k = k logfile_full
code_cases P nomem rest out h k = k nomem
code_cases P result_full rest out h k = k result_full
code_cases P task_cancel rest out h k = k task_cancel
code_cases P sql_condition_expr_error rest out h k = k sql_condition_expr_error
code_cases P value_mismatch rest out h k = k value_mismatch
code_cases P record_fail rest out h k = k record_fail
code_cases P table_field_mismatch rest out h k = k table_field_mismatch
code_cases P invalid_blob_val rest out h k = k invalid_blob_val

pub on_ok-fail {ℓ} : {A : Type ℓ} (e : PdbErr) (rest out : A) → e ≢ ok → on_ok e rest out ≡ out
on_ok-fail e rest out f = on_ok_cases (λ x. x ≡ out) e (λ h. absurd (f h)) (λ _. refl)

pub when_ok {ℓ κ} :
    {A : Type ℓ} {B : Type κ} {e : PdbErr} → e ≡ ok → (((e ≡ ok) × A) ⊎ ((e ≢ ok) × B)) → A
when_ok h (inl (_, a)) = a
when_ok h (inr (n, _)) = absurd (n h)

-- `float` and `double`, with the operations that the code applies to them.
pub record Floats : Type 1 where
  pub Float : Type 0
  pub Double : Type 0
  pub zero_double : Double
  pub add_double : Double → Double → Double
  pub widen : Float → Double
  pub narrow : Double → Float
  pub div_int64 : Double → ℤ → Double
  pub int64_of_double : Double → ℤ
  pub double_of_int64 : ℤ → Double
  pub le_float : Float → Float → Bool
  -- The eight bytes of the union that holds the float, read as an int64, and back to a float.
  pub word_of_float : Float → ℤ
  pub float_of_int64 : ℤ → Float
  -- The bits, as a uint32 and as a uint64.
  pub encode_float : Float → ℕ
  pub encode_double : Double → ℕ
  pub le_double : Double → Double → Bool
  pub lt_double : Double → Double → Bool
  pub eq_double : Double → Double → Bool

pub data FieldType : Type 0 where
  type_bool type_int8 type_int16 type_int32 type_int64 type_datetime : FieldType
  type_float type_double type_string type_blob : FieldType
  type_real2 type_real3 type_real4 type_real6 : FieldType

-- The numbers of the enumerations PDB_FIELD_TYPE and PDB_VALUE_TYPE.
abbrev pub code : FieldType → ℕ
code type_bool = 1
code type_int8 = 2
code type_int16 = 3
code type_int32 = 4
code type_int64 = 5
code type_datetime = 6
code type_float = 7
code type_double = 8
code type_string = 9
code type_blob = 10
code type_real2 = 32
code type_real3 = 33
code type_real4 = 34
code type_real6 = 35

abbrev pub is_number : FieldType → Bool
is_number type_int8 = true
is_number type_int16 = true
is_number type_int32 = true
is_number type_int64 = true
is_number _ = false

abbrev pub is_float_or_double : FieldType → Bool
is_float_or_double type_float = true
is_float_or_double type_double = true
is_float_or_double _ = false

pub data DbVal (F : Floats) : Type 0 where
  null : DbVal F
  bool : Bool → DbVal F
  int8 : ℤ → DbVal F
  int16 : ℤ → DbVal F
  int32 : ℤ → DbVal F
  int64 : ℤ → DbVal F
  datetime : ℤ → DbVal F
  float : F.Float → DbVal F
  double : F.Double → DbVal F
  string : List ℕ → DbVal F
  blob : List ℕ → DbVal F

module _ {F : Floats} where
  -- DBVAL_GET_TYPE
  abbrev pub data_type : DbVal F → ℕ
  data_type null = 0
  data_type (bool b) = 1
  data_type (int8 n) = 2
  data_type (int16 n) = 3
  data_type (int32 n) = 4
  data_type (int64 n) = 5
  data_type (datetime n) = 6
  data_type (float x) = 7
  data_type (double x) = 8
  data_type (string s) = 9
  data_type (blob s) = 10

  abbrev pub is_null : DbVal F → Bool
  is_null null = true
  is_null _ = false

  -- DBVAL_IS_BOOL(v) && DBVAL_GET_BOOL(v)
  abbrev pub is_true : DbVal F → Bool
  is_true (bool b) = b
  is_true _ = false

  -- DBVAL_GET_INT8, 16 and 32 on a value of that type.
  abbrev pub get_int : DbVal F → ℤ
  get_int (int8 n) = n
  get_int (int16 n) = n
  get_int (int32 n) = n
  get_int (int64 n) = n
  get_int (datetime n) = n
  get_int _ = pos 0

  -- DBVAL_GET_DATETIME: the whole word of the union.
  abbrev pub get_datetime : DbVal F → ℤ
  get_datetime = get_int

  -- DBVAL_GET_INT32 on any integer: the low four bytes of the union, on a little-endian machine.
  abbrev pub get_int32 : DbVal F → ℤ
  get_int32 v = cast32 (get_int v)

  abbrev pub get_float : F.Float → DbVal F → F.Float
  get_float d (float x) = x
  get_float d _ = d

  abbrev pub get_double : DbVal F → F.Double
  get_double (double x) = x
  get_double _ = F.zero_double

  -- A value of a type with the bytes of a buffer: DBVAL_SET_BLOCK_VALUE.
  abbrev pub block_value : FieldType → List ℕ → DbVal F
  block_value type_string s = string s
  block_value type_blob s = blob s
  block_value _ s = null

  -- DBVAL_GET_BLOB with DBVAL_GET_LEN.
  abbrev pub get_block : DbVal F → List ℕ
  get_block (string s) = s
  get_block (blob s) = s
  get_block _ = List.[]
