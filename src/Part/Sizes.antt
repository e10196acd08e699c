-- ===== src/Part/Sizes.antt =====
-- The room that a split of a full page leaves in both pages, for InsertRec of
-- src/pinusdb/storage/normal_data_part.cpp.
use pinusdb.Prelude.{
  ℕ, suc, ◌+◌, ◌-◌, ◌≤◌, ◌<◌, ◌≡◌, ◌⊎◌, inl, inr, ap, ◌∙◌, List, [], ◌∷◌, length, get_or, take,
  drop, drop_all, length-take, length-drop, All, arith, ltb, ltb→lt, ltb→ge, Bool-cases,
}
use pinusdb.Page.{page_size, head_size, rec_idx_len}
use pinusdb.Page.Records.{All-get_or}
use pinusdb.Page.Split.Parts.{need, drop-next, total-take}

-- A bound on the length of records, above that of the statements that insert them.
abbrev pub max_len : ℕ
max_len = 12000

abbrev pub Short : List (List ℕ) → Type 0
Short rs = All (λ r. length r ≤ max_len) rs

-- Both parts of a full page have room for one more record.
module _ (rs : List (List ℕ)) (rec : List ℕ) (k bytes : ℕ) (short : Short rs)
    (short_rec : length rec ≤ max_len) (held : head_size + need rs ≤ page_size)
    (full : page_size < head_size + need rs + (length rec + rec_idx_len)) (some_left : 0 < k)
    (le : k ≤ length rs) (small : need (drop k rs) ≤ bytes)
    (most : (k ≡ 1) ⊎ (bytes < need (drop (k - 1) rs))) (low : 24576 ≤ bytes)
    (high : bytes ≤ 32768) where
  need-take : need (take k rs) + need (drop k rs) ≡ need rs
  need-take = omega (arith, total-take k rs, length-take k rs le, length-drop k rs)

  -- The record before the place.
  need-next : need (drop (k - 1) rs) ≤ max_len + rec_idx_len + need (drop k rs)
  need-next =
      let b : k - 1 < length rs = omega arith in
      let e : suc (k - 1) ≡ k = omega arith in
      let at = All-get_or (λ r. length r ≤ max_len) rs (k - 1) short b in
      let n : need (drop (k - 1) rs)
          ≡ length (get_or rs (k - 1) []) + rec_idx_len + need (drop k rs) =
        ap need (drop-next (k - 1) rs [] b ∙ ap (λ j. get_or rs (k - 1) [] ∷ drop j rs) e)
        ∙ omega arith in
      omega (arith, n, at)

  some_moved : 24576 ≤ max_len + rec_idx_len + need (drop k rs)
  some_moved = elim most [
    | inl e ↦
        let z : need (drop (k - 1) rs) ≡ need rs =
          let f : k - 1 ≡ 0 = omega (arith, e) in ap (λ j. need (drop j rs)) f in
        omega (arith, z, need-next)
    | inr l ↦ omega (arith, l, need-next)
  ]

  pub splits : k < length rs
  splits = elim (Bool-cases (ltb k (length rs))) [
    | inl e ↦ ltb→lt _ _ e
    | inr e ↦
        let z : need (drop k rs) ≡ 0 = ap need (drop_all k rs (ltb→ge _ _ e)) in
        absurd (omega (arith, z, some_moved))
  ]

  pub room_old : head_size + need (take k rs) + (length rec + rec_idx_len) ≤ page_size
  room_old = omega (arith, need-take, some_moved)

  pub room_new : head_size + need (drop k rs) + (length rec + rec_idx_len) ≤ page_size
  room_new = omega arith
