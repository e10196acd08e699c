-- ===== src/StringTool/Tests.antt =====
-- The checksum and the comparison on bytes.
use pinusdb.Prelude.{◌≡◌, refl, [], ◌∷◌, Bool, true, false, some}
use pinusdb.StringTool.{crc32, crc64, crc64_to_crc32}
use pinusdb.StringTool.Like.{utf8_like_compare, utf8_like_compare-Ends}
use pinusdb.StringTool.Literal.{compare_no_case, utf8_like_compare-literal}

crc32_digits : crc32 (1 ∷ 2 ∷ 3 ∷ 4 ∷ 5 ∷ 6 ∷ 7 ∷ 8 ∷ 9 ∷ []) ≡ 2902830620
unfolding crc32 crc64 crc64_to_crc32
crc32_digits = refl

-- `a%b` takes in `ab`, but `a%` does not take in `a`.
like_inner : utf8_like_compare (97 ∷ 37 ∷ 98 ∷ []) (97 ∷ 98 ∷ []) ≡ some true
unfolding utf8_like_compare
like_inner = refl

like_trailing : utf8_like_compare (97 ∷ 37 ∷ []) (97 ∷ []) ≡ some false
unfolding utf8_like_compare
like_trailing = refl

utf8_like_compare-Ends_example :
    (r : Bool) × (utf8_like_compare (97 ∷ 37 ∷ 98 ∷ []) (97 ∷ 98 ∷ 99 ∷ 98 ∷ []) ≡ some r)
utf8_like_compare-Ends_example = utf8_like_compare-Ends (97 ∷ 37 ∷ 98 ∷ []) (97 ∷ 98 ∷ 99 ∷ 98 ∷ [])

utf8_like_compare-literal_example :
    utf8_like_compare (65 ∷ 98 ∷ []) (97 ∷ 66 ∷ [])
    ≡ some (compare_no_case (65 ∷ 98 ∷ []) (97 ∷ 66 ∷ []))
utf8_like_compare-literal_example =
    utf8_like_compare-literal (65 ∷ 98 ∷ []) (97 ∷ 66 ∷ [])
      ((refl, refl, refl), ((refl, refl, refl), tt)) (refl, (refl, tt))
