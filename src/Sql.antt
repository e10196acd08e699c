-- ===== src/Sql.antt =====
-- src/pinusdb/expr/tokenize.cpp: the tokens of a statement. A statement is the list of its bytes; a
-- read behind its end gives the 0 that ends it in C++. The parser that the build generates is a
-- parameter. The memory that the arena gives for a text is had.
pub mod Words
pub mod Run
pub mod Bounds
pub mod Quotes
mod Tests
use pinusdb.Prelude.{
  ℕ, zero, suc, ◌+◌, ◌-◌, ◌*◌, ◌/◌, ◌%◌, Bool, true, false, Option, none, some, List, [], ◌∷◌, ◌==◌,
  ltb, leb, length, get_or, take, drop, ◌&&◌, ◌||◌, not, if◌then◌else◌,
}
use pinusdb.Value.{PdbErr, ok, invalid_blob_val}
use pinusdb.Sql.Words.{
  TokenType, tk_end, tk_space, tk_comment, tk_minus, tk_lp, tk_rp, tk_semi, tk_plus, tk_star, tk_eq,
  tk_le, tk_ne, tk_lt, tk_ge, tk_gt, tk_illegal, tk_comma, tk_string, tk_integer, tk_double, tk_id,
  tk_blob, is_id_char, is_space, is_digit, is_xdigit, get_keyword_type,
}

-- The number of bytes at the front that pass a test.
abbrev pub span : (ℕ → Bool) → List ℕ → ℕ
span p [] = 0
span p (c ∷ cs) = let rest = span p cs in if p c then suc rest else 0

-- What GetToken finds: the length, the type and `*needEscape`.
pub record Found : Type 0 where
  pub len : ℕ
  pub token_type : TokenType
  pub need_escape : Bool

abbrev pub plain : ℕ → TokenType → Found
plain n t = record { len = n; token_type = t; need_escape = false }

-- The loop over a quoted text from behind the first mark: the bytes, if the other mark is there,
-- and if a mark is doubled.
unfoldable pub quote_loop : ℕ → List ℕ → ℕ × Bool × Bool
quote_loop d [] = (0, false, false)
quote_loop d (c ∷ []) =
    if c == 0 then (0, false, false) else if c == d then (1, true, false) else (1, false, false)
quote_loop d (c ∷ e ∷ cs) =
    let doubled = quote_loop d cs in
    let next = quote_loop d (e ∷ cs) in
    if c == 0
    then (0, false, false)
    else if c == d
    then if e == d then (suc (suc doubled.0), doubled.1, true) else (1, true, false)
    else (suc next.0, next.1, next.2)

abbrev pub quoted : ℕ × Bool × Bool → Found
quoted r = record {
  len = suc r.0;
  token_type = if r.1 then tk_string else tk_illegal;
  need_escape = r.2;
}

-- `for (i = 1; i < maxLen && z[i] && z[i - 1] != ']'; i++)`
unfoldable pub bracket_loop : ℕ → List ℕ → ℕ
bracket_loop prev [] = 0
bracket_loop prev (c ∷ cs) =
    let rest = bracket_loop c cs in if not (c == 0) && not (prev == 93) then suc rest else 0

-- The loop over the digits of a blob, `i` of its bytes read.
unfoldable pub blob_loop : ℕ → ℕ → List ℕ → Found
blob_loop d i [] = plain i tk_blob
blob_loop d i (c ∷ cs) =
    let rest = blob_loop d (suc i) cs in
    if c == 0
    then plain i tk_blob
    else if c == d
    then plain (suc i) (if i % 2 == 0 then tk_blob else tk_illegal)
    else if is_xdigit c
    then rest
    else plain i tk_illegal

-- The digits, then a fraction, then an exponent.
abbrev pub integer_len : List ℕ → ℕ
integer_len cs = suc (span is_digit cs)

abbrev pub fraction : List ℕ → ℕ → ℕ
fraction z i =
    if ltb (i + 1) (length z) && (get_or z i 0 == 46) && is_digit (get_or z (i + 1) 0)
    then i + 2 + span is_digit (drop (i + 2) z)
    else i

abbrev pub exponent : List ℕ → ℕ → ℕ
exponent z i =
    let mark = get_or z i 0 in
    let sign = get_or z (i + 1) 0 in
    if ltb (i + 2) (length z)
      && ((mark == 101) || (mark == 69))
      && (is_digit sign || (((sign == 43) || (sign == 45)) && is_digit (get_or z (i + 2) 0)))
    then i + 2 + span is_digit (drop (i + 2) z)
    else i

unfoldable pub number : List ℕ → List ℕ → Found
number z cs =
    let i = integer_len cs in
    let f = fraction z i in
    let e = exponent z f in plain e (if i == e then tk_integer else tk_double)

unfoldable pub word : ℕ → List ℕ → Found
word c cs =
    let i = suc (span (λ b. is_id_char b || (b == 46)) cs) in
    if is_id_char c then plain i (get_keyword_type (take i (c ∷ cs))) else plain 1 tk_illegal

abbrev pub next_is : ℕ → List ℕ → Bool
next_is c cs = get_or cs 0 0 == c

unfoldable pub get_token : ℕ → List ℕ → Found
unfolding quote_loop bracket_loop blob_loop number word
get_token c cs =
    if (c == 32) || (c == 9) || (c == 10) || (c == 12) || (c == 13)
    then plain (suc (span is_space cs)) tk_space
    else if c == 45
    then if next_is 45 cs
      then plain (suc (suc (span (λ b. not (b == 0) && not (b == 10)) (drop 1 cs)))) tk_comment
      else plain 1 tk_minus
    else if c == 40
    then plain 1 tk_lp
    else if c == 41
    then plain 1 tk_rp
    else if c == 59
    then plain 1 tk_semi
    else if c == 43
    then plain 1 tk_plus
    else if c == 42
    then plain 1 tk_star
    else if c == 61
    then plain (if next_is 61 cs then 2 else 1) tk_eq
    else if c == 60
    then if next_is 61 cs
      then plain 2 tk_le
      else if next_is 62 cs
      then plain 2 tk_ne
      else plain 1 tk_lt
    else if c == 62
    then if next_is 61 cs then plain 2 tk_ge else plain 1 tk_gt
    else if c == 33
    then if next_is 61 cs then plain 2 tk_ne else plain 1 tk_illegal
    else if c == 44
    then plain 1 tk_comma
    else if (c == 39) || (c == 34)
    then quoted (quote_loop c cs)
    else if is_digit c
    then number (c ∷ cs) cs
    else if c == 91
    then plain (suc (bracket_loop c cs)) tk_id
    else if ((c == 120) || (c == 88)) && (next_is 39 cs || next_is 34 cs)
    then blob_loop (get_or cs 0 0) 2 (drop 1 cs)
    else word c cs
