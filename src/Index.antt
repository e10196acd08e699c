-- ===== src/Index.antt =====
-- src/pinusdb/storage/normal_part_idx.cpp: the index of a data partition, which holds for every
-- device the pages of its records by time. The file behind the index, its mutexes and the null
-- tests of the result pointers are left out. A function that fills `*pIdx` returns the entry
-- beside the error code.
mod Tests
pub mod Search
pub mod Sorted
pub mod Lookup
pub mod Added
use pinusdb.Prelude.{
  ℕ, zero, suc, ◌+◌, ◌-◌, ◌/◌, Bool, true, false, Option, none, some, List, [], ◌∷◌, ◌++◌, ltb, leb,
  ◌&&◌, ◌||◌, ◌==◌, length, get_or, if◌then◌else◌,
}
use pinusdb.Prelude.Int.{ℤ, pos, ltb_ℤ, leb_ℤ}
use pinusdb.Value.{PdbErr, ok, invalid_param, dev_not_found, idx_not_found}

pub record MemPageIdx : Type 0 where
  pub idx_ts : ℤ
  pub page_no : ℤ

-- What a read past the end of the vector gives here; it is undefined in C++.
abbrev pub no_idx : MemPageIdx
no_idx = record { idx_ts = pos 0; page_no = pos 0 }

abbrev pub ts_at : List MemPageIdx → ℕ → ℤ
ts_at v i = (get_or v i no_idx).idx_ts

-- The time of an entry of the vector; `none` for a read that leaves the vector.
abbrev pub ts_in : List MemPageIdx → ℕ → Option ℤ
ts_in [] i = none
ts_in (e ∷ v) zero = some e.idx_ts
ts_in (e ∷ v) (suc i) = ts_in v i

abbrev pub with_ts : Option ℤ → (ℤ → Option ℕ) → Option ℕ
with_ts none f = none
with_ts (some t) f = f t

-- The `while (lwr <= upr)` loop; `hi` is `upr + 1`, which is not negative. `none` means that the
-- fuel ran out or that a read left the vector.
unfoldable pub search_loop : List MemPageIdx → ℤ → ℕ → ℕ → ℕ → ℕ → Option ℕ
search_loop v ts zero lwr hi idx = none
search_loop v ts (suc fuel) lwr hi idx =
    let mid = (lwr + (hi - 1)) / 2 in
    let left = search_loop v ts fuel lwr mid mid in
    let right = search_loop v ts fuel (mid + 1) hi mid in
    if ltb lwr hi
    then with_ts (ts_in v mid) (λ t.
      if ltb_ℤ ts t
      then left
      else with_ts (ts_in v (mid + 1)) (λ u. if ltb_ℤ ts u then some mid else right))
    else some idx

-- PageIdxBinarySearch
unfoldable pub page_idx_binary_search : List MemPageIdx → ℤ → Option ℕ
unfolding search_loop
page_idx_binary_search [] ts = some 0
page_idx_binary_search (e ∷ es) ts =
    let n = length (e ∷ es) in
    let found = search_loop (e ∷ es) ts (suc n) 0 n 0 in
    if leb_ℤ ts e.idx_ts
    then some 0
    else with_ts (ts_in (e ∷ es) (n - 1)) (λ t. if leb_ℤ t ts then some (n - 1) else found)

-- MemPageIdxSortComp
unfoldable pub sort_comp : MemPageIdx → MemPageIdx → Bool
sort_comp a b = ltb_ℤ a.idx_ts b.idx_ts

-- `std::sort` by that order. Entries of one time stamp may come out in any order in C++; here they
-- keep theirs.
unfoldable pub insert_sorted : MemPageIdx → List MemPageIdx → List MemPageIdx
unfolding sort_comp
insert_sorted a [] = a ∷ []
insert_sorted a (b ∷ bs) =
    let rest = insert_sorted a bs in if sort_comp b a then b ∷ rest else a ∷ b ∷ bs

unfoldable pub sort : List MemPageIdx → List MemPageIdx
unfolding insert_sorted
sort [] = []
sort (a ∷ as') = insert_sorted a (sort as')

pub record NormalPartIdx : Type 0 where
  pub bg_day_ts : ℤ
  pub ed_day_ts : ℤ
  pub idx_map : List (ℤ × List MemPageIdx)

abbrev pub same_dev : ℤ → ℤ → Bool
same_dev a b = leb_ℤ a b && leb_ℤ b a

-- idxMap_.find
unfoldable pub find : ℤ → List (ℤ × List MemPageIdx) → Option (List MemPageIdx)
find dev [] = none
find dev ((d, v) ∷ m) = if same_dev d dev then some v else find dev m

-- The vector of a device, replaced or inserted.
unfoldable pub put : ℤ → List MemPageIdx → List (ℤ × List MemPageIdx) → List (ℤ × List MemPageIdx)
put dev v [] = (dev, v) ∷ []
put dev v ((d, w) ∷ m) =
    let rest = put dev v m in if same_dev d dev then (d, v) ∷ m else (d, w) ∷ rest

-- `push_back`, and `std::sort` unless the new entry is later than the last one.
unfoldable pub push_idx : MemPageIdx → List MemPageIdx → List MemPageIdx
unfolding sort
push_idx a [] = a ∷ []
push_idx a (e ∷ es) =
    let v = (e ∷ es) ++ (a ∷ []) in
    if ltb_ℤ (ts_at (e ∷ es) (length es)) a.idx_ts then v else sort v

abbrev pub vector : Option (List MemPageIdx) → List MemPageIdx
vector none = []
vector (some v) = v

unfoldable pub add_idx : ℤ → ℤ → ℤ → NormalPartIdx → PdbErr × NormalPartIdx
unfolding find put push_idx
add_idx dev_id idx_ts page_no s =
    let entry : MemPageIdx = record { idx_ts = idx_ts; page_no = page_no } in
    if leb_ℤ dev_id (pos 0)
      || ltb_ℤ idx_ts s.bg_day_ts
      || leb_ℤ s.ed_day_ts idx_ts
      || leb_ℤ page_no (pos 0)
    then (invalid_param, s)
    else (
      ok,
      record s { idx_map = put dev_id (push_idx entry (vector (find dev_id s.idx_map))) s.idx_map },
    )

abbrev at_pos : List MemPageIdx → Option ℕ → PdbErr × MemPageIdx
at_pos v none = (idx_not_found, no_idx)
at_pos v (some p) = (ok, get_or v p no_idx)

unfoldable pub get_index : ℤ → ℤ → NormalPartIdx → PdbErr × MemPageIdx
get_index dev_id ts s = elim (find dev_id s.idx_map) [
  | none ↦ (dev_not_found, no_idx)
  | some [] ↦ (idx_not_found, no_idx)
  | some (e ∷ es) ↦ at_pos (e ∷ es) (page_idx_binary_search (e ∷ es) ts)
]

abbrev at_prev : List MemPageIdx → Option ℕ → PdbErr × MemPageIdx
at_prev v none = (idx_not_found, no_idx)
at_prev v (some p) = if ltb 0 p then (ok, get_or v (p - 1) no_idx) else (idx_not_found, no_idx)

unfoldable pub get_prev_index : ℤ → ℤ → NormalPartIdx → PdbErr × MemPageIdx
get_prev_index dev_id ts s = elim (find dev_id s.idx_map) [
  | none ↦ (dev_not_found, no_idx)
  | some [] ↦ (idx_not_found, no_idx)
  | some (e ∷ es) ↦ at_prev (e ∷ es) (page_idx_binary_search (e ∷ es) ts)
]

abbrev at_next : List MemPageIdx → Option ℕ → PdbErr × MemPageIdx
at_next v none = (idx_not_found, no_idx)
at_next v (some p) =
    if ltb (p + 1) (length v) then (ok, get_or v (p + 1) no_idx) else (idx_not_found, no_idx)

unfoldable pub get_next_index : ℤ → ℤ → NormalPartIdx → PdbErr × MemPageIdx
get_next_index dev_id ts s = elim (find dev_id s.idx_map) [
  | none ↦ (dev_not_found, no_idx)
  | some [] ↦ (idx_not_found, no_idx)
  | some (e ∷ es) ↦ at_next (e ∷ es) (page_idx_binary_search (e ∷ es) ts)
]
