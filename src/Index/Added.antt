-- ===== src/Index/Added.antt =====
-- AddIdx of src/pinusdb/storage/normal_part_idx.cpp puts its entry beside those that are there.
use pinusdb.Prelude.{
  ◌≡◌, ◌⊎◌, refl, sym, inl, inr, true, false, List, [], ◌∷◌, ◌++◌, length, ◌||◌, some, Bool-cases,
  arith, if_cases,
}
use mathlib.Core.Path.{subst}
use pinusdb.Prelude.Int.{ℤ, pos, ◌≤ℤ◌, ◌<ℤ◌, ltb_ℤ, leb_ℤ}
use pinusdb.Value.{ok}
use pinusdb.Index.{
  MemPageIdx, NormalPartIdx, ts_at, same_dev, insert_sorted, sort, push_idx, find, put, add_idx,
  vector,
}

abbrev pub Has : MemPageIdx → List MemPageIdx → Type 0
Has e [] = ⊥
Has e (x ∷ v) = (e ≡ x) ⊎ Has e v

-- The index has the entry under the device.
abbrev pub Knows : NormalPartIdx → ℤ → MemPageIdx → Type 0
Knows s dev_id e = Has e (vector (find dev_id s.idx_map))

-- What is in the list, and the new entry.
abbrev Grows : MemPageIdx → List MemPageIdx → List MemPageIdx → Type 0
Grows a v w = Has a w × ((e : MemPageIdx) → Has e v → Has e w)

insert_sorted-Grows : (a : MemPageIdx) (v : List MemPageIdx) → Grows a v (insert_sorted a v)
unfolding insert_sorted
insert_sorted-Grows a [] = (inl refl, λ e h. absurd h)
insert_sorted-Grows a (b ∷ bs) =
    let (new, old) = insert_sorted-Grows a bs in
    if_cases (Grows a (b ∷ bs)) (ltb_ℤ b.idx_ts a.idx_ts)
      (λ _. (inr new, λ e h. elim h [ inl x ↦ inl x | inr y ↦ inr (old e y) ]))
      (λ _. (inl refl, λ e h. inr h))

sort-Has : (v : List MemPageIdx) (e : MemPageIdx) → Has e v → Has e (sort v)
unfolding sort
sort-Has [] e h = h
sort-Has (a ∷ v) e (inl h) =
    subst (λ x. Has x (insert_sorted a (sort v))) (sym h) (insert_sorted-Grows a (sort v)).0
sort-Has (a ∷ v) e (inr h) = (insert_sorted-Grows a (sort v)).1 e (sort-Has v e h)

append-Grows : (a : MemPageIdx) (v : List MemPageIdx) → Grows a v (v ++ (a ∷ []))
append-Grows a [] = (inl refl, λ e h. absurd h)
append-Grows a (b ∷ v) =
    let (new, old) = append-Grows a v in
    (inr new, λ e h. elim h [ inl x ↦ inl x | inr y ↦ inr (old e y) ])

push_idx-Grows : (a : MemPageIdx) (v : List MemPageIdx) → Grows a v (push_idx a v)
unfolding push_idx
push_idx-Grows a [] = (inl refl, λ e h. absurd h)
push_idx-Grows a (x ∷ v) =
    let (new, old) = append-Grows a (x ∷ v) in
    let all = (x ∷ v) ++ (a ∷ []) in
    if_cases (Grows a (x ∷ v)) (ltb_ℤ (ts_at (x ∷ v) (length v)) a.idx_ts) (λ _. (new, old))
      (λ _. (sort-Has all a new, λ e h. sort-Has all e (old e h)))

same_dev_refl : (d : ℤ) → same_dev d d ≡ true
same_dev_refl d = ground arith

find-put :
    (dev : ℤ) (v : List MemPageIdx) (m : List (ℤ × List MemPageIdx))
    → find dev (put dev v m) ≡ some v
unfolding find put
find-put dev v [] = rw (same_dev_refl dev) refl
find-put dev v ((d, w) ∷ m) = elim (Bool-cases (same_dev d dev)) [
  | inl e ↦ rw (e, e) refl
  | inr e ↦ rw (e, e) (find-put dev v m)
]

find-put_other :
    (dev other : ℤ) (v : List MemPageIdx) (m : List (ℤ × List MemPageIdx))
    → same_dev dev other ≡ false
    → find other (put dev v m) ≡ find other m
unfolding find put
find-put_other dev other v [] h = rw h refl
find-put_other dev other v ((d, w) ∷ m) h = elim (Bool-cases (same_dev d dev)) [
  | inl e ↦ let n : same_dev d other ≡ false = ground (arith, e, h) in rw (e, n) refl
  | inr e ↦ elim (Bool-cases (same_dev d other)) [
    | inl f ↦ rw (e, f) refl
    | inr f ↦ rw (e, f) (find-put_other dev other v m h)
  ]
]

-- An entry of a device and a page, both positive, and of a time in the day is accepted: the index
-- has it, and what it had before, under every device.
pub add_idx-Knows :
    (dev_id idx_ts page_no : ℤ) (s : NormalPartIdx)
    → pos 0 <ℤ dev_id
    → s.bg_day_ts ≤ℤ idx_ts
    → idx_ts <ℤ s.ed_day_ts
    → pos 0 <ℤ page_no
    → (let r = add_idx dev_id idx_ts page_no s in
        (r.0 ≡ ok)
        × Knows r.1 dev_id (record { idx_ts = idx_ts; page_no = page_no })
        × ((d : ℤ) (e : MemPageIdx) → Knows s d e → Knows r.1 d e))
unfolding add_idx
add_idx-Knows dev_id idx_ts page_no s h a b k =
    let entry : MemPageIdx = record { idx_ts = idx_ts; page_no = page_no } in
    let w = push_idx entry (vector (find dev_id s.idx_map)) in
    let (new, old) = push_idx-Grows entry (vector (find dev_id s.idx_map)) in
    let m = put dev_id w s.idx_map in
    let refused : (leb_ℤ dev_id (pos 0)
          || ltb_ℤ idx_ts s.bg_day_ts
          || leb_ℤ s.ed_day_ts idx_ts
          || leb_ℤ page_no (pos 0))
        ≡ false =
      ground arith in
    rw refused (
      refl,
      subst (λ o. Has entry (vector o)) (sym (find-put dev_id w s.idx_map)) new,
      λ d e x. elim (Bool-cases (same_dev dev_id d)) [
        | inl c ↦
            let same : d ≡ dev_id = ground (arith, c) in
            subst (λ d. Has e (vector (find d m))) (sym same)
              (subst (λ o. Has e (vector o)) (sym (find-put dev_id w s.idx_map))
                (old e (subst (λ d. Has e (vector (find d s.idx_map))) same x)))
        | inr c ↦ subst (λ o. Has e (vector o)) (sym (find-put_other dev_id d w s.idx_map c)) x
      ],
    )
