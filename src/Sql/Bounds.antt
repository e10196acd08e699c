-- ===== src/Sql/Bounds.antt =====
-- The tokens of src/pinusdb/expr/tokenize.cpp are not empty and end within the statement, so that
-- RunParser ends.
use pinusdb.Prelude.{
  ℕ, zero, suc, ◌+◌, ◌≤◌, ◌≡◌, ap, refl, Bool, true, some, List, [], ◌∷◌, ◌==◌, ltb, length, get_or,
  take, drop, length-drop, ◌&&◌, ◌||◌, not, if_cases, arith,
}
use pinusdb.Value.{PdbErr, on_ok_cases}
use pinusdb.Sql.Words.{
  TokenType, tk_illegal, tk_end, is_digit, is_id_char, is_space, get_keyword_type,
}
use pinusdb.Sql.{
  Found, plain, span, quote_loop, bracket_loop, blob_loop, number, word, get_token, fraction,
  exponent, integer_len, next_is, quoted,
}
use pinusdb.Sql.Run.{run_loop, run_parser, token_text, feed, finish}

span_le : (p : ℕ → Bool) (cs : List ℕ) → span p cs ≤ length cs
span_le p [] = omega arith
span_le p (c ∷ cs) = let rest = span_le p cs in ground arith

quote_loop_le : (d : ℕ) (cs : List ℕ) → (quote_loop d cs).0 ≤ length cs
unfolding quote_loop
quote_loop_le d [] = omega arith
quote_loop_le d (c ∷ []) = ground arith
quote_loop_le d (c ∷ e ∷ cs) =
    let doubled = quote_loop_le d cs in let next = quote_loop_le d (e ∷ cs) in ground arith

bracket_loop_le : (prev : ℕ) (cs : List ℕ) → bracket_loop prev cs ≤ length cs
unfolding bracket_loop
bracket_loop_le prev [] = omega arith
bracket_loop_le prev (c ∷ cs) = let rest = bracket_loop_le c cs in ground arith

-- A length from `i` on to the end of `n` more bytes.
abbrev Within : ℕ → ℕ → Found → Type 0
Within i n f = (i ≤ f.len) × (f.len ≤ i + n)

blob_loop-Within : (d i : ℕ) (cs : List ℕ) → Within i (length cs) (blob_loop d i cs)
unfolding blob_loop
blob_loop-Within d i [] = (omega arith, omega arith)
blob_loop-Within d i (c ∷ cs) =
    let rest = blob_loop-Within d (suc i) cs in (ground (arith, rest), ground (arith, rest))

fraction_le : (z : List ℕ) (i : ℕ) → i ≤ length z → (i ≤ fraction z i) × (fraction z i ≤ length z)
fraction_le z i h =
    let s = span_le is_digit (drop (i + 2) z) in
    let l = length-drop (i + 2) z in
    if_cases (λ n. (i ≤ n) × (n ≤ length z))
      (ltb (i + 1) (length z) && (get_or z i 0 == 46) && is_digit (get_or z (i + 1) 0))
      {x = i + 2 + span is_digit (drop (i + 2) z)} {y = i} (λ e. (omega arith, ground arith))
      (λ e. (omega arith, h))

exponent_le : (z : List ℕ) (i : ℕ) → i ≤ length z → (i ≤ exponent z i) × (exponent z i ≤ length z)
exponent_le z i h =
    let s = span_le is_digit (drop (i + 2) z) in
    let l = length-drop (i + 2) z in
    if_cases (λ n. (i ≤ n) × (n ≤ length z))
      (ltb (i + 2) (length z)
        && ((get_or z i 0 == 101) || (get_or z i 0 == 69))
        && (is_digit (get_or z (i + 1) 0)
            || (((get_or z (i + 1) 0 == 43) || (get_or z (i + 1) 0 == 45))
                && is_digit (get_or z (i + 2) 0))))
      {x = i + 2 + span is_digit (drop (i + 2) z)} {y = i} (λ e. (omega arith, ground arith))
      (λ e. (omega arith, h))

number-Within : (c : ℕ) (cs : List ℕ) → Within 1 (length cs) (number (c ∷ cs) cs)
unfolding number
number-Within c cs =
    let s = span_le is_digit cs in
    let (a, b) = fraction_le (c ∷ cs) (integer_len cs) (omega arith) in
    let (d, e) = exponent_le (c ∷ cs) (fraction (c ∷ cs) (integer_len cs)) b in
    (omega arith, omega arith)

word-Within : (c : ℕ) (cs : List ℕ) → Within 1 (length cs) (word c cs)
unfolding word
word-Within c cs =
    let s = span_le (λ b. is_id_char b || (b == 46)) cs in
    let i = suc (span (λ b. is_id_char b || (b == 46)) cs) in
    if_cases (Within 1 (length cs)) (is_id_char c)
      {x = plain i (get_keyword_type (take i (c ∷ cs)))} {y = plain 1 tk_illegal}
      (λ e. (omega arith, omega arith)) (λ e. (omega arith, omega arith))

-- The length of a quoted text.
quoted-Within : (d : ℕ) (cs : List ℕ) → Within 1 (length cs) (quoted (quote_loop d cs))
quoted-Within d cs = let q = quote_loop_le d cs in (omega arith, omega arith)

next_is_lem : (c : ℕ) (cs : List ℕ) → next_is (suc c) cs ≡ true → 1 ≤ length cs
next_is_lem c [] e = ground arith
next_is_lem c (x ∷ cs) e = omega arith

and_second : (a b : Bool) → (a && b) ≡ true → b ≡ true
and_second a b e = ground arith

blob_token-Within :
    (cs : List ℕ)
    → (next_is 39 cs || next_is 34 cs) ≡ true
    → Within 1 (length cs) (blob_loop (get_or cs 0 0) 2 (drop 1 cs))
blob_token-Within [] e = ground arith
blob_token-Within (x ∷ cs) e = let (h, k) = blob_loop-Within x 2 cs in (omega arith, omega arith)

one_byte : (n : ℕ) → (1 ≤ 1) × (1 ≤ 1 + n)
one_byte n = (omega arith, omega arith)

two_bytes : {n : ℕ} → 1 ≤ n → (1 ≤ 2) × (2 ≤ 1 + n)
two_bytes h = (omega arith, omega arith)

-- A token that GetToken finds has one byte at least and ends within the statement.
get_token-Within : (c : ℕ) (cs : List ℕ) → Within 1 (length cs) (get_token c cs)
unfolding get_token
get_token-Within c cs =
    let P = Within 1 (length cs) in
    let a = span_le is_space cs in
    let b = span_le (λ b. not (b == 0) && not (b == 10)) (drop 1 cs) in
    let l = length-drop 1 cs in
    let k = bracket_loop_le c cs in
    let one = one_byte (length cs) in
    let two : next_is 61 cs ≡ true → (1 ≤ 2) × (2 ≤ 1 + length cs) =
      λ e. two_bytes (next_is_lem 60 cs e) in
    if_cases P ((c == 32) || (c == 9) || (c == 10) || (c == 12) || (c == 13))
      (λ e. (omega arith, omega arith))
      (λ e.
        if_cases P (c == 45)
          (λ e.
            if_cases P (next_is 45 cs)
              (λ e. let m = next_is_lem 44 cs e in (omega arith, omega arith)) (λ e. one))
          (λ e.
            if_cases P (c == 40) (λ e. one)
              (λ e.
                if_cases P (c == 41) (λ e. one)
                  (λ e.
                    if_cases P (c == 59) (λ e. one)
                      (λ e.
                        if_cases P (c == 43) (λ e. one)
                          (λ e.
                            if_cases P (c == 42) (λ e. one)
                              (λ e.
                                if_cases P (c == 61)
                                  (λ e.
                                    if_cases (λ n. (1 ≤ n) × (n ≤ 1 + length cs)) (next_is 61 cs)
                                      two (λ e. one))
                                  (λ e.
                                    if_cases P (c == 60)
                                      (λ e. if_cases P (next_is 61 cs) two (λ e.
                                        if_cases P (next_is 62 cs)
                                          (λ e. two_bytes (next_is_lem 61 cs e)) (λ e. one)))
                                      (λ e.
                                        if_cases P (c == 62)
                                          (λ e. if_cases P (next_is 61 cs) two (λ e. one))
                                          (λ e.
                                            if_cases P (c == 33)
                                              (λ e. if_cases P (next_is 61 cs) two (λ e. one))
                                              (λ e.
                                                if_cases P (c == 44) (λ e. one)
                                                  (λ e.
                                                    if_cases P ((c == 39) || (c == 34))
                                                      (λ e. quoted-Within c cs)
                                                      (λ e.
                                                        if_cases P (is_digit c)
                                                          (λ e. number-Within c cs)
                                                          (λ e.
                                                            if_cases P (c == 91)
                                                            (λ e. (omega arith, omega arith))
                                                            (λ e.
                                                            if_cases P
                                                            (((c == 120) || (c == 88))
                                                            && (next_is 39 cs || next_is 34 cs))
                                                            (λ e. blob_token-Within cs (
                                                            and_second ((c == 120) || (c == 88))
                                                            (next_is 39 cs || next_is 34 cs) e))
                                                            (λ e. word-Within c cs))))))))))))))))

module _ {S : Type 0} (get_error : S → Bool) (set_error : S → S)
    (pdb_parse : TokenType → List ℕ → S → S) where
  abbrev Result : ℕ → List ℕ → TokenType → S → Type 0
  Result fuel cs last s =
      (r : PdbErr × TokenType × S) × (run_loop get_error set_error pdb_parse fuel cs last s
        ≡ some r)

  run_loop-ends :
      (fuel : ℕ) (cs : List ℕ) (last : TokenType) (s : S) → length cs ≤ fuel → Result fuel cs last s
  unfolding run_loop
  run_loop-ends fuel [] last s h = (_, refl)
  run_loop-ends zero (c ∷ cs) last s h = absurd (omega arith)
  run_loop-ends (suc fuel) (c ∷ cs) last s h =
      let f = get_token c cs in
      let t = token_text f.token_type f.need_escape (take f.len (c ∷ cs)) in
      let (a, b) = get_token-Within c cs in
      let l = length-drop f.len (c ∷ cs) in
      let rest =
        run_loop-ends fuel (drop f.len (c ∷ cs)) f.token_type
          (feed get_error set_error pdb_parse f.token_type t.1 s) (omega arith) in
      if_cases (λ o. (r : PdbErr × TokenType × S) × (o ≡ some r)) ((c == 0) || get_error s)
        (λ e. (_, refl))
        (λ e.
          on_ok_cases (λ o. (r : PdbErr × TokenType × S) × (o ≡ some r)) t.0 (λ e. rest)
            (λ e. (_, refl)))

  -- RunParser ends, whatever the parser does, with as much fuel as the statement has bytes.
  pub run_parser-ends :
      (sql : List ℕ) (s : S)
      → (r : PdbErr × S) × (run_parser get_error set_error pdb_parse sql s ≡ some r)
  unfolding run_parser
  run_parser-ends sql s =
      let (r, e) = run_loop-ends (length sql) sql tk_end s (omega arith) in
      (_, ap (finish get_error set_error pdb_parse) e)
