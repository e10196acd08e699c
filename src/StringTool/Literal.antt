-- ===== src/StringTool/Literal.antt =====
-- Utf8LikeCompare of src/pinusdb/util/string_tool.cpp on a pattern without wildcards, and
-- ComparyNoCase.
use pinusdb.Prelude.{
  ℕ, zero, suc, ◌+◌, ◌*◌, ◌≤◌, ◌≡◌, refl, Bool, true, false, some, List, [], ◌∷◌, ◌==◌, length,
  ◌&&◌, ◌||◌, not, inl, inr, Bool-cases, All, if◌then◌else◌, arith,
}
use pinusdb.StringTool.{to_lower}
use pinusdb.StringTool.Like.{like_loop, utf8_like_compare}

abbrev same_no_case : List ℕ → List ℕ → Bool
same_no_case (a ∷ p) (b ∷ s) =
    let rest = same_no_case p s in
    if (to_lower a == 0) || not (to_lower a == to_lower b) then to_lower a == to_lower b else rest
same_no_case _ _ = true

abbrev pub compare_no_case : List ℕ → List ℕ → Bool
compare_no_case p s = (length p == length s) && same_no_case p s

-- A byte that is no 0 and no wildcard.
abbrev pub Ordinary : ℕ → Type 0
Ordinary c = ((c == 0) ≡ false) × ((c == 37) ≡ false) × ((c == 95) ≡ false)

to_lower_zero : (c : ℕ) → (c == 0) ≡ false → (to_lower c == 0) ≡ false
to_lower_zero c h = ground arith

suc_same : (m n : ℕ) → (suc m == suc n) ≡ (m == n)
suc_same m n = ground arith

and_false : (b : Bool) → (b && false) ≡ false
and_false true = refl
and_false false = refl

like_loop-literal :
    (n : ℕ) (p s : List ℕ)
    → length p + 1 ≤ n
    → All Ordinary p
    → All (λ b. (b == 0) ≡ false) s
    → like_loop n p s ≡ some (compare_no_case p s)
unfolding like_loop
like_loop-literal zero p s h ls ns = absurd (omega arith)
like_loop-literal (suc n) [] [] h ls ns = refl
like_loop-literal (suc n) [] (b ∷ s) h ls (e, _) =
    let k : (0 == suc (length s)) ≡ false = ground arith in rw (e, k)
like_loop-literal (suc n) (c ∷ p) [] h ((e, _, _), _) ns =
    let k : (suc (length p) == 0) ≡ false = ground arith in rw (e, k)
like_loop-literal (suc n) (c ∷ p) (b ∷ s) h ((e, f, g), ls) (_, ns) =
    let z = to_lower_zero c e in
    let rest = like_loop-literal n p s (omega arith) ls ns in
    let k = suc_same (length p) (length s) in
    elim (Bool-cases (to_lower c == to_lower b)) [
      | inl t ↦ rw (e, f, g, z, t, k, rest)
      | inr t ↦ rw (e, f, g, z, t, k, and_false (length p == length s))
    ]

-- A pattern of bytes that are no 0 and no wildcard against a string without 0 bytes: the result is
-- that of ComparyNoCase.
pub utf8_like_compare-literal :
    (p s : List ℕ)
    → All Ordinary p
    → All (λ b. (b == 0) ≡ false) s
    → utf8_like_compare p s ≡ some (compare_no_case p s)
unfolding utf8_like_compare
utf8_like_compare-literal p s ls ns =
    like_loop-literal (3 * length p + length s + 1) p s (omega arith) ls ns
