-- ===== src/StringTool/Like.antt =====
-- Utf8LikeCompare of src/pinusdb/util/string_tool.cpp. The pattern and the string are the lists of
-- their bytes; a character that is cut off at the end of the string ends with it.
use pinusdb.Prelude.{
  ℕ, zero, suc, ◌+◌, ◌*◌, ◌≤◌, ◌≡◌, refl, Bool, true, false, Option, none, some, List, [], ◌∷◌,
  ◌==◌, leb, length, drop, length-drop, get_or, if_cases, if◌then◌else◌, arith,
}
use pinusdb.StringTool.{to_lower}

-- `xtra_utf8_bytes`
abbrev pub xtra_utf8_bytes : ℕ → ℕ
xtra_utf8_bytes b =
    if leb b 127
    then 0
    else if leb b 191
    then 255
    else if leb b 223
    then 1
    else if leb b 239
    then 2
    else if leb b 247
    then 3
    else 255

abbrev skip_utf8 : List ℕ → List ℕ
skip_utf8 [] = []
skip_utf8 (b ∷ s) = drop (xtra_utf8_bytes b) s

-- The end of the string, or a 0 in it.
abbrev at_end : List ℕ → Bool
at_end s = get_or s 0 0 == 0

-- The loop over what follows a `%`: the pattern that is left and the string.
unfoldable skip_wild : List ℕ → List ℕ → Option (List ℕ × List ℕ)
skip_wild [] s = some ([], s)
skip_wild (c ∷ p) s =
    let percent = skip_wild p s in
    let one = skip_wild p (skip_utf8 s) in
    if c == 37 then percent else if c == 95 then if at_end s then none else one else some (c ∷ p, s)

-- The loop to the next byte of the string that is `c` without case.
unfoldable seek : ℕ → List ℕ → List ℕ
seek c [] = []
seek c (b ∷ s) =
    let rest = seek c s in if to_lower b == 0 then [] else if to_lower b == c then b ∷ s else rest

abbrev pub or_else : Option Bool → Option Bool → Option Bool
or_else none next = none
or_else (some true) next = some true
or_else (some false) next = next

-- The main loop; `none` means that the fuel ran out.
unfoldable mutual
  unfolding skip_wild seek

  pub like_loop : ℕ → List ℕ → List ℕ → Option Bool
  like_loop zero p s = none
  like_loop (suc n) [] s = some (at_end s)
  like_loop (suc n) (c ∷ p) [] = some (c == 0)
  like_loop (suc n) (c ∷ p) (b ∷ s) =
      if c == 0
      then some (b == 0)
      else if c == 37
      then like_percent n (skip_wild p (b ∷ s))
      else if c == 95
      then if b == 0 then some false else like_loop n p (skip_utf8 (b ∷ s))
      else if to_lower c == to_lower b
      then like_loop n p s
      else some false

  like_percent : ℕ → Option (List ℕ × List ℕ) → Option Bool
  like_percent zero o = none
  like_percent (suc n) none = some false
  like_percent (suc n) (some ([], s)) = some true
  like_percent (suc n) (some (c ∷ p, s)) =
      if c == 0 then some true else like_from n (c ∷ p) (seek (to_lower c) s)

  -- The loop over the places of the string where the rest of the pattern may begin.
  like_from : ℕ → List ℕ → List ℕ → Option Bool
  like_from zero p s = none
  like_from (suc n) p [] = some false
  like_from (suc n) p (b ∷ s) =
      or_else (like_loop n p (b ∷ s))
        (like_from n p (seek (to_lower (get_or p 0 0)) (skip_utf8 (b ∷ s))))

unfoldable pub utf8_like_compare : List ℕ → List ℕ → Option Bool
unfolding like_loop
utf8_like_compare p s = like_loop (3 * length p + length s + 1) p s

skip_utf8_le : (s : List ℕ) → length (skip_utf8 s) ≤ length s
skip_utf8_le [] = omega arith
skip_utf8_le (b ∷ s) = let l = length-drop (xtra_utf8_bytes b) s in omega arith

seek_le : (c : ℕ) (s : List ℕ) → length (seek c s) ≤ length s
unfolding seek
seek_le c [] = omega arith
seek_le c (b ∷ s) = let rest = seek_le c s in ground arith

-- Neither the pattern nor the string grows.
abbrev Shrinks : ℕ → ℕ → Option (List ℕ × List ℕ) → Type 0
Shrinks m n none = Unit
Shrinks m n (some (p, s)) = (length p ≤ m) × (length s ≤ n)

Shrinks-le :
    {m n k l : ℕ} (o : Option (List ℕ × List ℕ)) → m ≤ k → n ≤ l → Shrinks m n o → Shrinks k l o
Shrinks-le none a b h = tt
Shrinks-le (some r) a b (h, k) = (omega arith, omega arith)

skip_wild-Shrinks : (p s : List ℕ) → Shrinks (length p) (length s) (skip_wild p s)
unfolding skip_wild
skip_wild-Shrinks [] s = (omega arith, omega arith)
skip_wild-Shrinks (c ∷ p) s =
    let P = Shrinks (length (c ∷ p)) (length s) in
    if_cases P (c == 37)
      (λ e. Shrinks-le (skip_wild p s) (omega arith) (omega arith) (skip_wild-Shrinks p s))
      (λ e.
        if_cases P (c == 95)
          (λ e.
            if_cases P (at_end s) (λ e. tt)
              (λ e.
                Shrinks-le (skip_wild p (skip_utf8 s)) (omega arith) (skip_utf8_le s)
                  (skip_wild-Shrinks p (skip_utf8 s))))
          (λ e. (omega arith, omega arith)))

abbrev Ends : Option Bool → Type 0
Ends o = (r : Bool) × (o ≡ some r)

or_else-Ends : (a b : Option Bool) → Ends a → Ends b → Ends (or_else a b)
or_else-Ends (some true) b h k = (true, refl)
or_else-Ends (some false) b h k = k
or_else-Ends none b (r, e) k = absurd (cc e)

mutual
  unfolding like_loop

  like_loop-Ends : (n : ℕ) (p s : List ℕ) → 3 * length p + length s + 1 ≤ n → Ends (like_loop n p s)
  like_loop-Ends zero p s h = absurd (omega arith)
  like_loop-Ends (suc n) [] s h = (_, refl)
  like_loop-Ends (suc n) (c ∷ p) [] h = (_, refl)
  like_loop-Ends (suc n) (c ∷ p) (b ∷ s) h =
      let l = skip_utf8_le (b ∷ s) in
      if_cases Ends (c == 0) (λ e. (_, refl))
        (λ e.
          if_cases Ends (c == 37)
            (λ e.
              like_percent-Ends n (length p) (length (b ∷ s)) (skip_wild p (b ∷ s))
                (skip_wild-Shrinks p (b ∷ s)) (omega arith))
            (λ e.
              if_cases Ends (c == 95)
                (λ e.
                  if_cases Ends (b == 0) (λ e. (_, refl))
                    (λ e. like_loop-Ends n p (skip_utf8 (b ∷ s)) (omega arith)))
                (λ e.
                  if_cases Ends (to_lower c == to_lower b) (λ e. like_loop-Ends n p s (omega arith))
                    (λ e. (_, refl)))))

  like_percent-Ends :
      (n i j : ℕ) (o : Option (List ℕ × List ℕ))
      → Shrinks i j o
      → 3 * i + j + 3 ≤ n
      → Ends (like_percent n o)
  like_percent-Ends zero i j o h k = absurd (omega arith)
  like_percent-Ends (suc n) i j none h k = (_, refl)
  like_percent-Ends (suc n) i j (some ([], s)) h k = (_, refl)
  like_percent-Ends (suc n) i j (some (c ∷ p, s)) (h, l) k =
      let m = seek_le (to_lower c) s in
      if_cases Ends (c == 0) (λ e. (_, refl))
        (λ e. like_from-Ends n (c ∷ p) (seek (to_lower c) s) (omega arith))

  like_from-Ends : (n : ℕ) (p s : List ℕ) → 3 * length p + length s + 2 ≤ n → Ends (like_from n p s)
  like_from-Ends zero p s h = absurd (omega arith)
  like_from-Ends (suc n) p [] h = (_, refl)
  like_from-Ends (suc n) p (b ∷ s) h =
      let c = to_lower (get_or p 0 0) in
      let l = skip_utf8_le (b ∷ s) in
      let m = seek_le c (skip_utf8 (b ∷ s)) in
      let k = length-drop (xtra_utf8_bytes b) s in
      or_else-Ends (like_loop n p (b ∷ s)) (like_from n p (seek c (skip_utf8 (b ∷ s))))
        (like_loop-Ends n p (b ∷ s) (omega arith))
        (like_from-Ends n p (seek c (skip_utf8 (b ∷ s))) (omega arith))

-- The comparison ends on every pattern and every string.
pub utf8_like_compare-Ends : (p s : List ℕ) → Ends (utf8_like_compare p s)
unfolding utf8_like_compare
utf8_like_compare-Ends p s = like_loop-Ends (3 * length p + length s + 1) p s (omega arith)
