-- ===== src/Sql/Words.antt =====
-- The tokens of src/pinusdb/expr/tokenize.cpp and its keywords. The characters are bytes.
use pinusdb.Prelude.{ℕ, Bool, List, [], ◌∷◌, ◌==◌, leb, length, get_or, ◌&&◌, ◌||◌, if◌then◌else◌}
use pinusdb.StringTool.{crc64_no_case}

-- TK_END stands for the code 0, which ends a statement.
pub data TokenType : Type 0 where
  tk_end tk_space tk_comment tk_minus tk_lp tk_rp tk_semi tk_plus tk_star tk_eq : TokenType
  tk_le tk_ne tk_lt tk_ge tk_gt tk_illegal tk_comma tk_string tk_integer : TokenType
  tk_double tk_id tk_blob tk_and tk_as tk_drop tk_from tk_insert tk_into tk_is : TokenType
  tk_not tk_null tk_select tk_table tk_values tk_where tk_create tk_group tk_by : TokenType
  tk_like tk_add tk_user tk_identified tk_role tk_set tk_password tk_for : TokenType
  tk_bool_type tk_tinyint_type tk_smallint_type tk_int_type tk_bigint_type : TokenType
  tk_datetime_type tk_float_type tk_double_type tk_string_type tk_blob_type : TokenType
  tk_real2_type tk_real3_type tk_real4_type tk_real6_type tk_order tk_desc : TokenType
  tk_asc tk_attach tk_detach tk_in tk_limit tk_true tk_false tk_datafile : TokenType
  tk_delete tk_top tk_alter tk_int tk_tinyint tk_smallint tk_float tk_function : TokenType
  tk_isnull tk_isnotnull tk_notin tk_timeval : TokenType

abbrev pub id_chars : List ℕ
id_chars =
    0 ∷ 0 ∷ 0 ∷ 0 ∷ 0 ∷ 0 ∷ 0 ∷ 0 ∷ 0 ∷ 0 ∷ 0 ∷ 0 ∷ 0 ∷ 0 ∷ 0 ∷ 0 ∷ 0 ∷ 0 ∷ 0 ∷ 0 ∷ 0 ∷ 0 ∷ 0 ∷ 0
    ∷ 0 ∷ 0 ∷ 0 ∷ 0 ∷ 0 ∷ 0 ∷ 0 ∷ 0 ∷ 0 ∷ 0 ∷ 0 ∷ 0 ∷ 0 ∷ 0 ∷ 0 ∷ 0 ∷ 0 ∷ 0 ∷ 0 ∷ 0 ∷ 0 ∷ 0 ∷ 0 ∷ 0
    ∷ 1 ∷ 1 ∷ 1 ∷ 1 ∷ 1 ∷ 1 ∷ 1 ∷ 1 ∷ 1 ∷ 1 ∷ 0 ∷ 0 ∷ 0 ∷ 0 ∷ 0 ∷ 0 ∷ 0 ∷ 1 ∷ 1 ∷ 1 ∷ 1 ∷ 1 ∷ 1 ∷ 1
    ∷ 1 ∷ 1 ∷ 1 ∷ 1 ∷ 1 ∷ 1 ∷ 1 ∷ 1 ∷ 1 ∷ 1 ∷ 1 ∷ 1 ∷ 1 ∷ 1 ∷ 1 ∷ 1 ∷ 1 ∷ 1 ∷ 1 ∷ 0 ∷ 0 ∷ 0 ∷ 0 ∷ 1
    ∷ 0 ∷ 1 ∷ 1 ∷ 1 ∷ 1 ∷ 1 ∷ 1 ∷ 1 ∷ 1 ∷ 1 ∷ 1 ∷ 1 ∷ 1 ∷ 1 ∷ 1 ∷ 1 ∷ 1 ∷ 1 ∷ 1 ∷ 1 ∷ 1 ∷ 1 ∷ 1 ∷ 1
    ∷ 1 ∷ 1 ∷ 1 ∷ 0 ∷ 0 ∷ 0 ∷ 0 ∷ 0 ∷ []

-- A byte above 127 is always one of an identifier.
abbrev pub is_id_char : ℕ → Bool
is_id_char c = leb 128 c || (get_or id_chars c 0 == 1)

-- `isspace`, `isdigit` and `isxdigit` of the C locale.
abbrev pub is_space : ℕ → Bool
is_space c = (leb 9 c && leb c 13) || (c == 32)

abbrev pub is_digit : ℕ → Bool
is_digit c = leb 48 c && leb c 57

abbrev pub is_xdigit : ℕ → Bool
is_xdigit c = is_digit c || (leb 65 c && leb c 70) || (leb 97 c && leb c 102)

abbrev keywords : List (List ℕ × TokenType)
keywords =
    (65 ∷ 78 ∷ 68 ∷ [], tk_and)
    ∷ (65 ∷ 83 ∷ [], tk_as)
    ∷ (68 ∷ 82 ∷ 79 ∷ 80 ∷ [], tk_drop)
    ∷ (70 ∷ 82 ∷ 79 ∷ 77 ∷ [], tk_from)
    ∷ (73 ∷ 78 ∷ 83 ∷ 69 ∷ 82 ∷ 84 ∷ [], tk_insert)
    ∷ (73 ∷ 78 ∷ 84 ∷ 79 ∷ [], tk_into)
    ∷ (73 ∷ 83 ∷ [], tk_is)
    ∷ (78 ∷ 79 ∷ 84 ∷ [], tk_not)
    ∷ (78 ∷ 85 ∷ 76 ∷ 76 ∷ [], tk_null)
    ∷ (83 ∷ 69 ∷ 76 ∷ 69 ∷ 67 ∷ 84 ∷ [], tk_select)
    ∷ (84 ∷ 65 ∷ 66 ∷ 76 ∷ 69 ∷ [], tk_table)
    ∷ (86 ∷ 65 ∷ 76 ∷ 85 ∷ 69 ∷ 83 ∷ [], tk_values)
    ∷ (87 ∷ 72 ∷ 69 ∷ 82 ∷ 69 ∷ [], tk_where)
    ∷ (67 ∷ 82 ∷ 69 ∷ 65 ∷ 84 ∷ 69 ∷ [], tk_create)
    ∷ (71 ∷ 82 ∷ 79 ∷ 85 ∷ 80 ∷ [], tk_group)
    ∷ (66 ∷ 89 ∷ [], tk_by)
    ∷ (76 ∷ 73 ∷ 75 ∷ 69 ∷ [], tk_like)
    ∷ (65 ∷ 68 ∷ 68 ∷ [], tk_add)
    ∷ (85 ∷ 83 ∷ 69 ∷ 82 ∷ [], tk_user)
    ∷ (73 ∷ 68 ∷ 69 ∷ 78 ∷ 84 ∷ 73 ∷ 70 ∷ 73 ∷ 69 ∷ 68 ∷ [], tk_identified)
    ∷ (82 ∷ 79 ∷ 76 ∷ 69 ∷ [], tk_role)
    ∷ (83 ∷ 69 ∷ 84 ∷ [], tk_set)
    ∷ (80 ∷ 65 ∷ 83 ∷ 83 ∷ 87 ∷ 79 ∷ 82 ∷ 68 ∷ [], tk_password)
    ∷ (70 ∷ 79 ∷ 82 ∷ [], tk_for)
    ∷ (66 ∷ 79 ∷ 79 ∷ 76 ∷ [], tk_bool_type)
    ∷ (84 ∷ 73 ∷ 78 ∷ 89 ∷ 73 ∷ 78 ∷ 84 ∷ [], tk_tinyint_type)
    ∷ (83 ∷ 77 ∷ 65 ∷ 76 ∷ 76 ∷ 73 ∷ 78 ∷ 84 ∷ [], tk_smallint_type)
    ∷ (73 ∷ 78 ∷ 84 ∷ [], tk_int_type)
    ∷ (66 ∷ 73 ∷ 71 ∷ 73 ∷ 78 ∷ 84 ∷ [], tk_bigint_type)
    ∷ (68 ∷ 65 ∷ 84 ∷ 69 ∷ 84 ∷ 73 ∷ 77 ∷ 69 ∷ [], tk_datetime_type)
    ∷ (70 ∷ 76 ∷ 79 ∷ 65 ∷ 84 ∷ [], tk_float_type)
    ∷ (68 ∷ 79 ∷ 85 ∷ 66 ∷ 76 ∷ 69 ∷ [], tk_double_type)
    ∷ (83 ∷ 84 ∷ 82 ∷ 73 ∷ 78 ∷ 71 ∷ [], tk_string_type)
    ∷ (66 ∷ 76 ∷ 79 ∷ 66 ∷ [], tk_blob_type)
    ∷ (82 ∷ 69 ∷ 65 ∷ 76 ∷ 50 ∷ [], tk_real2_type)
    ∷ (82 ∷ 69 ∷ 65 ∷ 76 ∷ 51 ∷ [], tk_real3_type)
    ∷ (82 ∷ 69 ∷ 65 ∷ 76 ∷ 52 ∷ [], tk_real4_type)
    ∷ (82 ∷ 69 ∷ 65 ∷ 76 ∷ 54 ∷ [], tk_real6_type)
    ∷ (79 ∷ 82 ∷ 68 ∷ 69 ∷ 82 ∷ [], tk_order)
    ∷ (68 ∷ 69 ∷ 83 ∷ 67 ∷ [], tk_desc)
    ∷ (65 ∷ 83 ∷ 67 ∷ [], tk_asc)
    ∷ (65 ∷ 84 ∷ 84 ∷ 65 ∷ 67 ∷ 72 ∷ [], tk_attach)
    ∷ (68 ∷ 69 ∷ 84 ∷ 65 ∷ 67 ∷ 72 ∷ [], tk_detach)
    ∷ (73 ∷ 78 ∷ [], tk_in)
    ∷ (76 ∷ 73 ∷ 77 ∷ 73 ∷ 84 ∷ [], tk_limit)
    ∷ (84 ∷ 82 ∷ 85 ∷ 69 ∷ [], tk_true)
    ∷ (70 ∷ 65 ∷ 76 ∷ 83 ∷ 69 ∷ [], tk_false)
    ∷ (68 ∷ 65 ∷ 84 ∷ 65 ∷ 70 ∷ 73 ∷ 76 ∷ 69 ∷ [], tk_datafile)
    ∷ (68 ∷ 69 ∷ 76 ∷ 69 ∷ 84 ∷ 69 ∷ [], tk_delete)
    ∷ (84 ∷ 79 ∷ 80 ∷ [], tk_top)
    ∷ (65 ∷ 76 ∷ 84 ∷ 69 ∷ 82 ∷ [], tk_alter)
    ∷ []

-- keywordMap_, which InitTokenize fills, has the checksums of the names as its keys.
unfoldable pub find_keyword : ℕ → List (List ℕ × TokenType) → TokenType
find_keyword key [] = tk_id
find_keyword key (k ∷ ks) =
    let rest = find_keyword key ks in if crc64_no_case k.0 0 == key then k.1 else rest

unfoldable pub get_keyword_type : List ℕ → TokenType
unfolding find_keyword
get_keyword_type z = if leb 32 (length z) then tk_id else find_keyword (crc64_no_case z 0) keywords
