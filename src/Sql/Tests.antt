-- ===== src/Sql/Tests.antt =====
-- The functions of src/pinusdb/expr/tokenize.cpp at work on small statements.
use pinusdb.Prelude.{ℕ, ◌+◌, ◌≡◌, inl, refl, Bool, false, some, List, [], ◌∷◌, ◌++◌, take}
use pinusdb.StringTool.{crc64_no_case}
use pinusdb.Value.{PdbErr, ok}
use pinusdb.Sql.Words.{
  TokenType, tk_end, tk_semi, tk_select, tk_star, tk_blob, tk_string, tk_double, get_keyword_type,
}
use pinusdb.Sql.{plain, get_token}
use pinusdb.Sql.Run.{run_parser, token_text}
use pinusdb.Sql.Bounds.{run_parser-ends}
use pinusdb.Sql.Quotes.{get_token-escape, escape}

-- A parser that keeps what it is given.
abbrev Seen : Type 0
Seen = List (TokenType × List ℕ)

abbrev no_error : Seen → Bool
no_error s = false

abbrev keep : TokenType → List ℕ → Seen → Seen
keep t text s = s ++ (t, text) ∷ []

-- `select *`
abbrev select_all : List ℕ
select_all = 115 ∷ 101 ∷ 108 ∷ 101 ∷ 99 ∷ 116 ∷ 32 ∷ 42 ∷ []

select_all_run :
    run_parser no_error (λ s. s) keep select_all []
    ≡ some (
      ok,
      (tk_select, take 6 select_all) ∷ (tk_star, 42 ∷ []) ∷ (tk_semi, []) ∷ (tk_end, []) ∷ [],
    )
unfolding run_parser get_token get_keyword_type crc64_no_case
select_all_run = refl

-- `1.5e3 `
double_token : get_token 49 (46 ∷ 53 ∷ 101 ∷ 51 ∷ 32 ∷ []) ≡ plain 5 tk_double
unfolding get_token
double_token = refl

-- `x'a`, a blob without its last mark, is an empty blob; `x'a'` is refused.
open_blob_run :
    run_parser no_error (λ s. s) keep (120 ∷ 39 ∷ 97 ∷ []) []
    ≡ some (ok, (tk_blob, []) ∷ (tk_semi, []) ∷ (tk_end, []) ∷ [])
unfolding run_parser get_token
open_blob_run = refl

-- `x'abc`, and so are the last digit.
open_blob_text : token_text tk_blob false (120 ∷ 39 ∷ 97 ∷ 98 ∷ 99 ∷ []) ≡ (ok, 171 ∷ [])
unfolding token_text
open_blob_text = refl

run_parser-ends_example :
    (r : PdbErr × Seen) × (run_parser no_error (λ s. s) keep select_all [] ≡ some r)
run_parser-ends_example = run_parser-ends no_error (λ s. s) keep select_all []

-- `'it''s'` and a comma.
get_token-escape_example :
    ((get_token 39 (escape 39 (105 ∷ 116 ∷ 39 ∷ 115 ∷ []) ++ 39 ∷ 44 ∷ [])).token_type ≡ tk_string)
    × ((get_token 39 (escape 39 (105 ∷ 116 ∷ 39 ∷ 115 ∷ []) ++ 39 ∷ 44 ∷ [])).len ≡ 2 + 5)
    × (token_text
          (get_token 39 (escape 39 (105 ∷ 116 ∷ 39 ∷ 115 ∷ []) ++ 39 ∷ 44 ∷ [])).token_type
          (get_token 39 (escape 39 (105 ∷ 116 ∷ 39 ∷ 115 ∷ []) ++ 39 ∷ 44 ∷ [])).need_escape
          (take
            (get_token 39 (escape 39 (105 ∷ 116 ∷ 39 ∷ 115 ∷ []) ++ 39 ∷ 44 ∷ [])).len
            (39 ∷ escape 39 (105 ∷ 116 ∷ 39 ∷ 115 ∷ []) ++ 39 ∷ 44 ∷ []))
        ≡ (ok, 105 ∷ 116 ∷ 39 ∷ 115 ∷ []))
get_token-escape_example =
    get_token-escape 39 (105 ∷ 116 ∷ 39 ∷ 115 ∷ []) (44 ∷ []) (inl refl)
      (refl, (refl, (refl, (refl, tt)))) refl
