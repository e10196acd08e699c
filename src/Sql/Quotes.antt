-- ===== src/Sql/Quotes.antt =====
-- Quoted texts of src/pinusdb/expr/tokenize.cpp: the token of a text that is written with its marks
-- doubled, and what GetStr makes of it.
use pinusdb.Prelude.{
  ℕ, suc, ◌+◌, ◌-◌, ◌≡◌, ◌⊎◌, inl, inr, refl, ap, sym, Bool, true, false, List, [], ◌∷◌, ◌++◌, ◌==◌,
  length, get_or, All, take, length-append, if◌then◌else◌, ◌∙◌, if_cases, Bool-cases, arith,
}
use mathlib.Core.Path.{subst}
use pinusdb.Value.{ok}
use pinusdb.Sql.Words.{tk_string}
use pinusdb.Sql.{Found, quote_loop, quoted, get_token}
use pinusdb.Sql.Run.{unquote, token_text}

-- The text with every mark doubled.
abbrev pub escape : ℕ → List ℕ → List ℕ
escape d [] = []
escape d (c ∷ cs) = if c == d then c ∷ c ∷ escape d cs else c ∷ escape d cs

abbrev has_mark : ℕ → List ℕ → Bool
has_mark d [] = false
has_mark d (c ∷ cs) = let rest = has_mark d cs in if c == d then true else rest

-- One byte that is no mark before a text.
unquote-byte :
    (d c : ℕ) (cs : List ℕ)
    → (c == d) ≡ false
    → unquote d (c ∷ cs ++ d ∷ []) ≡ c ∷ unquote d (cs ++ d ∷ [])
unfolding unquote
unquote-byte d c [] e = rw e
unquote-byte d c (x ∷ cs) e = rw e

unquote-mark : (d c : ℕ) (cs : List ℕ) → (c == d) ≡ true → unquote d (c ∷ c ∷ cs) ≡ c ∷ unquote d cs
unfolding unquote
unquote-mark d c [] e = rw e
unquote-mark d c (x ∷ cs) e = rw e

unquote-escape : (d : ℕ) (text : List ℕ) → unquote d (escape d text ++ d ∷ []) ≡ text
unfolding unquote
unquote-escape d [] = refl
unquote-escape d (c ∷ cs) =
    let rest = unquote-escape d cs in
    if_cases (λ z. unquote d (z ++ d ∷ []) ≡ c ∷ cs) (c == d)
      (λ e. unquote-mark d c (escape d cs ++ d ∷ []) e ∙ ap (λ z. c ∷ z) rest)
      (λ e. unquote-byte d c (escape d cs) e ∙ ap (λ z. c ∷ z) rest)

-- The same for the loop that looks for the end.
abbrev Ends : ℕ → List ℕ → List ℕ → Bool → Type 0
Ends d z rest m = quote_loop d (z ++ d ∷ rest) ≡ (suc (length z), true, m)

quote_loop-end :
    (d : ℕ) (rest : List ℕ)
    → (d == 0) ≡ false
    → (get_or rest 0 0 == d) ≡ false
    → Ends d [] rest false
unfolding quote_loop
quote_loop-end d [] h k = let e : (d == d) ≡ true = ground arith in rw (h, e)
quote_loop-end d (x ∷ rest) h k = let e : (d == d) ≡ true = ground arith in rw (h, e, k)

quote_loop-byte :
    (d c : ℕ) (cs rest : List ℕ) (m : Bool)
    → (c == 0) ≡ false
    → (c == d) ≡ false
    → Ends d cs rest m
    → Ends d (c ∷ cs) rest m
unfolding quote_loop
quote_loop-byte d c [] rest m h e k = rw (h, e, k)
quote_loop-byte d c (x ∷ cs) rest m h e k = rw (h, e, k)

quote_loop-mark :
    (d c : ℕ) (cs rest : List ℕ) (m : Bool)
    → (c == 0) ≡ false
    → (c == d) ≡ true
    → Ends d cs rest m
    → Ends d (c ∷ c ∷ cs) rest true
unfolding quote_loop
quote_loop-mark d c cs rest m h e k = rw (h, e, k)

quote_loop-escape :
    (d : ℕ) (text rest : List ℕ)
    → All (λ c. (c == 0) ≡ false) text
    → (d == 0) ≡ false
    → (get_or rest 0 0 == d) ≡ false
    → Ends d (escape d text) rest (has_mark d text)
quote_loop-escape d [] rest a h k = quote_loop-end d rest h k
quote_loop-escape d (c ∷ cs) rest (a, bs) h k =
    let ih = quote_loop-escape d cs rest bs h k in
    elim (Bool-cases (c == d)) [
      | inl e ↦ rw (e, quote_loop-mark d c (escape d cs) rest (has_mark d cs) a e ih)
      | inr e ↦ rw (e, quote_loop-byte d c (escape d cs) rest (has_mark d cs) a e ih)
    ]

-- Without a mark nothing is doubled.
escape-plain : (d : ℕ) (text : List ℕ) → has_mark d text ≡ false → escape d text ≡ text
escape-plain d [] h = refl
escape-plain d (c ∷ cs) h = elim (Bool-cases (c == d)) [
  | inl e ↦ absurd (cc (h, e))
  | inr e ↦ let k : has_mark d cs ≡ false = ground (arith, h, e) in rw (e, escape-plain d cs k)
]

take-before : (z rest : List ℕ) (d : ℕ) → take (suc (length z)) (z ++ d ∷ rest) ≡ z ++ d ∷ []
take-before [] rest d = refl
take-before (c ∷ z) rest d = ap (λ z. c ∷ z) (take-before z rest d)

take-inside : (z rest : List ℕ) → take (length z) (z ++ rest) ≡ z
take-inside [] rest = refl
take-inside (c ∷ z) rest = ap (λ z. c ∷ z) (take-inside z rest)

take-quoted : (d : ℕ) (z : List ℕ) → take (length (d ∷ z ++ d ∷ []) - 2) (z ++ d ∷ []) ≡ z
take-quoted d z =
    let l = length-append z (d ∷ []) in
    let n : length (d ∷ z ++ d ∷ []) - 2 ≡ length z = omega arith in
    ap (λ n. take n (z ++ d ∷ [])) n ∙ take-inside z (d ∷ [])

token_text-escape :
    (d : ℕ) (text : List ℕ)
    → token_text tk_string (has_mark d text) (d ∷ escape d text ++ d ∷ []) ≡ (ok, text)
unfolding token_text
token_text-escape d text = elim (Bool-cases (has_mark d text)) [
  | inl e ↦ rw (e, unquote-escape d text)
  | inr e ↦ let a = take-quoted d (escape d text) ∙ escape-plain d text e in rw (e, a)
]

get_token-quoted :
    (d : ℕ) (cs : List ℕ) → (d ≡ 39) ⊎ (d ≡ 34) → get_token d cs ≡ quoted (quote_loop d cs)
unfolding get_token
get_token-quoted d cs (inl h) = rw h
get_token-quoted d cs (inr h) = rw h

abbrev IsRead : ℕ → List ℕ → List ℕ → Found → Type 0
IsRead d text rest f =
    (f.token_type ≡ tk_string)
    × (f.len ≡ 2 + length (escape d text))
    × (token_text f.token_type f.need_escape (take f.len (d ∷ escape d text ++ d ∷ rest))
        ≡ (ok, text))

-- A text without 0 bytes that is written between two marks, single or double, with every such mark
-- in it doubled, and is not followed by another mark: GetToken finds a string of exactly these bytes,
-- and the text that goes to the parser is the one that was written.
pub get_token-escape :
    (d : ℕ) (text rest : List ℕ)
    → (d ≡ 39) ⊎ (d ≡ 34)
    → All (λ c. (c == 0) ≡ false) text
    → (get_or rest 0 0 == d) ≡ false
    → IsRead d text rest (get_token d (escape d text ++ d ∷ rest))
get_token-escape d text rest h a k =
    let z = escape d text in
    let n : (d == 0) ≡ false = ground arith in
    let e =
      get_token-quoted d (z ++ d ∷ rest) h ∙ ap quoted (quote_loop-escape d text rest a n k) in
    let b =
      ap (token_text tk_string (has_mark d text)) (ap (λ z. d ∷ z) (take-before z rest d))
      ∙ token_text-escape d text in
    subst (IsRead d text rest) (sym e) (refl, omega arith, b)
