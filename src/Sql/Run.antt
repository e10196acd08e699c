-- ===== src/Sql/Run.antt =====
-- RunParser, GetStr and StrToBlob of src/pinusdb/expr/tokenize.cpp. A token does not go past the end
-- of the statement, so that the test for that behind the loop is left out.
use pinusdb.Prelude.{
  ℕ, zero, suc, ◌+◌, ◌-◌, ◌*◌, ◌/◌, ◌%◌, Bool, true, false, Option, none, some, List, [], ◌∷◌, ◌==◌,
  leb, length, take, drop, ◌&&◌, ◌||◌, if◌then◌else◌,
}
use pinusdb.Value.{PdbErr, ok, invalid_blob_val, on_ok}
use pinusdb.Sql.Words.{
  TokenType, tk_end, tk_space, tk_comment, tk_semi, tk_illegal, tk_string, tk_blob,
}
use pinusdb.Sql.{get_token}

-- The bytes between the marks, a doubled mark as one; the last byte of the token is not copied.
unfoldable pub unquote : ℕ → List ℕ → List ℕ
unquote d [] = []
unquote d (c ∷ []) = []
unquote d (c ∷ e ∷ cs) =
    let doubled = unquote d cs in
    let next = unquote d (e ∷ cs) in if c == d then if e == d then c ∷ doubled else [] else c ∷ next

abbrev pub get_str : List ℕ → List ℕ
get_str [] = []
get_str (d ∷ cs) = unquote d cs

-- `char2blob`, which has 0xFF for a byte that is no digit.
abbrev pub char_value : ℕ → Option ℕ
char_value c =
    if leb 48 c && leb c 57
    then some (c - 48)
    else if leb 65 c && leb c 70
    then some (c - 55)
    else if leb 97 c && leb c 102
    then some (c - 87)
    else none

abbrev pub pair_value : Option ℕ → Option ℕ → Option (List ℕ) → Option (List ℕ)
pair_value (some h) (some l) (some bs) = some ((h * 16 + l) ∷ bs)
pair_value _ _ _ = none

unfoldable pub blob_bytes : ℕ → List ℕ → Option (List ℕ)
blob_bytes zero z = some []
blob_bytes (suc n) (h ∷ l ∷ z) = pair_value (char_value h) (char_value l) (blob_bytes n z)
blob_bytes (suc n) z = none

abbrev pub code_of : Option (List ℕ) → PdbErr × List ℕ
code_of none = (invalid_blob_val, [])
code_of (some bs) = (ok, bs)

abbrev pub str_to_blob : List ℕ → PdbErr × List ℕ
str_to_blob str = code_of (blob_bytes ((length str - 3) / 2) (drop 2 str))

abbrev blob_text : List ℕ → PdbErr × List ℕ
blob_text str =
    if length str % 2 == 0
    then (invalid_blob_val, [])
    else if leb 5 (length str)
    then str_to_blob str
    else (ok, [])

-- The text that goes to the parser.
unfoldable pub token_text : TokenType → Bool → List ℕ → PdbErr × List ℕ
unfolding unquote blob_bytes
token_text tk_string true str = (ok, get_str str)
token_text tk_string false str = (ok, take (length str - 2) (drop 1 str))
token_text tk_blob need_escape str = blob_text str
token_text t need_escape str = (ok, str)

module _ {S : Type 0} (get_error : S → Bool) (set_error : S → S)
    (pdb_parse : TokenType → List ℕ → S → S) where
  abbrev pub feed : TokenType → List ℕ → S → S
  feed tk_space text s = s
  feed tk_comment text s = s
  feed tk_illegal text s = set_error s
  feed t text s = pdb_parse t text s

  -- `none` means that the fuel ran out.
  unfoldable pub run_loop : ℕ → List ℕ → TokenType → S → Option (PdbErr × TokenType × S)
  unfolding token_text
  run_loop fuel [] last s = some (ok, last, s)
  run_loop zero (c ∷ cs) last s = none
  run_loop (suc fuel) (c ∷ cs) last s =
      let f = get_token c cs in
      let t = token_text f.token_type f.need_escape (take f.len (c ∷ cs)) in
      let rest = run_loop fuel (drop f.len (c ∷ cs)) f.token_type (feed f.token_type t.1 s) in
      if (c == 0) || get_error s
      then some (ok, last, s)
      else on_ok t.0 rest (some (t.0, f.token_type, s))

  abbrev last_semi : TokenType → S → S
  last_semi tk_semi s = s
  last_semi _ s = pdb_parse tk_semi [] s

  abbrev pub finish : Option (PdbErr × TokenType × S) → Option (PdbErr × S)
  finish none = none
  finish (some (e, last, s)) = some (
      on_ok e (if get_error s then (ok, s) else (ok, pdb_parse tk_end [] (last_semi last s)))
        (e, s))

  unfoldable pub run_parser : List ℕ → S → Option (PdbErr × S)
  unfolding run_loop
  run_parser sql s = finish (run_loop (length sql) sql tk_end s)
