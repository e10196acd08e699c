-- ===== src/Index/Sorted.antt =====
-- `AddIdx` of src/pinusdb/storage/normal_part_idx.cpp keeps every device's entries in order of time
-- and within the day of the partition.
use pinusdb.Prelude.{
  Bool, List, [], ◌∷◌, ◌++◌, ◌&&◌, ◌||◌, ltb→lt, length, arith, inl, inr, Bool-cases, All,
}
use pinusdb.Prelude.Int.{ℤ, pos, ◌≤ℤ◌, ◌<ℤ◌, ltb_ℤ, leb_ℤ}
use pinusdb.Index.{
  MemPageIdx, NormalPartIdx, ts_at, insert_sorted, sort, push_idx, find, put, add_idx, vector,
}

-- Each entry is not later than those behind it.
abbrev pub Ascending : List MemPageIdx → Type 0
Ascending [] = Unit {0}
Ascending (a ∷ as') = All (λ b. a.idx_ts ≤ℤ b.idx_ts) as' × Ascending as'

All-weaken :
    (a b : MemPageIdx) (v : List MemPageIdx)
    → a.idx_ts ≤ℤ b.idx_ts
    → All (λ c. b.idx_ts ≤ℤ c.idx_ts) v
    → All (λ c. a.idx_ts ≤ℤ c.idx_ts) v
All-weaken a b [] h all = tt
All-weaken a b (c ∷ v) h (k, all) = (omega arith, All-weaken a b v h all)

module _ (P : MemPageIdx → Type 0) where
  All-insert_sorted :
      (a : MemPageIdx) (v : List MemPageIdx) → P a → All P v → All P (insert_sorted a v)
  unfolding insert_sorted
  All-insert_sorted a [] h all = (h, tt)
  All-insert_sorted a (b ∷ bs) h (k, all) = elim (Bool-cases (ltb_ℤ b.idx_ts a.idx_ts)) [
    | inl e ↦ rw e (k, All-insert_sorted a bs h all)
    | inr e ↦ rw e (h, (k, all))
  ]

  All-sort : (v : List MemPageIdx) → All P v → All P (sort v)
  unfolding sort
  All-sort [] all = tt
  All-sort (a ∷ as') (h, all) = All-insert_sorted a (sort as') h (All-sort as' all)

  All-append : (v : List MemPageIdx) (a : MemPageIdx) → All P v → P a → All P (v ++ (a ∷ []))
  All-append [] a all h = (h, tt)
  All-append (b ∷ bs) a (k, all) h = (k, All-append bs a all h)

  All-push_idx : (a : MemPageIdx) (v : List MemPageIdx) → P a → All P v → All P (push_idx a v)
  unfolding push_idx
  All-push_idx a [] h all = (h, tt)
  All-push_idx a (e ∷ es) h all = elim (Bool-cases (ltb_ℤ (ts_at (e ∷ es) (length es)) a.idx_ts)) [
    | inl t ↦ rw t (All-append (e ∷ es) a all h)
    | inr t ↦ rw t (All-sort ((e ∷ es) ++ (a ∷ [])) (All-append (e ∷ es) a all h))
  ]

insert_sorted-Ascending :
    (a : MemPageIdx) (v : List MemPageIdx) → Ascending v → Ascending (insert_sorted a v)
unfolding insert_sorted
insert_sorted-Ascending a [] h = (tt, tt)
insert_sorted-Ascending a (b ∷ bs) (all, h) = elim (Bool-cases (ltb_ℤ b.idx_ts a.idx_ts)) [
  | inl e ↦ rw e (
    All-insert_sorted (λ c. b.idx_ts ≤ℤ c.idx_ts) a bs (ground arith) all,
    insert_sorted-Ascending a bs h,
  )
  | inr e ↦
      let le : a.idx_ts ≤ℤ b.idx_ts = ground arith in
      rw e ((le, All-weaken a b bs le all), (all, h))
]

sort-Ascending : (v : List MemPageIdx) → Ascending (sort v)
unfolding sort
sort-Ascending [] = tt
sort-Ascending (a ∷ as') = insert_sorted-Ascending a (sort as') (sort-Ascending as')

append-Ascending :
    (e : MemPageIdx) (es : List MemPageIdx) (a : MemPageIdx)
    → Ascending (e ∷ es)
    → ts_at (e ∷ es) (length es) <ℤ a.idx_ts
    → Ascending ((e ∷ es) ++ (a ∷ [])) × (e.idx_ts ≤ℤ a.idx_ts)
append-Ascending e [] a h k = (((omega arith, tt), (tt, tt)), omega arith)
append-Ascending e (f ∷ es) a ((fe, all), h) k =
    let (asc, le) = append-Ascending f es a h k in
    let le' : e.idx_ts ≤ℤ a.idx_ts = omega arith in
    (((fe, All-append (λ c. e.idx_ts ≤ℤ c.idx_ts) es a all le'), asc), le')

push_idx-Ascending : (a : MemPageIdx) (v : List MemPageIdx) → Ascending v → Ascending (push_idx a v)
unfolding push_idx
push_idx-Ascending a [] h = (tt, tt)
push_idx-Ascending a (e ∷ es) h = elim (Bool-cases (ltb_ℤ (ts_at (e ∷ es) (length es)) a.idx_ts)) [
  | inl t ↦ rw t (append-Ascending e es a h (ltb→lt _ _ t)).0
  | inr t ↦ rw t (sort-Ascending ((e ∷ es) ++ (a ∷ [])))
]

-- What holds of a partition's index: every vector is in order and within the day.
abbrev pub InDay : NormalPartIdx → MemPageIdx → Type 0
InDay s e = (s.bg_day_ts ≤ℤ e.idx_ts) × (e.idx_ts <ℤ s.ed_day_ts)

abbrev pub IsValid : NormalPartIdx → Type 0
IsValid s =
    All (λ (entry : ℤ × List MemPageIdx). Ascending entry.1 × All (InDay s) entry.1) s.idx_map

module _ (Q : List MemPageIdx → Type 0) where
  All-put :
      (dev : ℤ) (v : List MemPageIdx) (m : List (ℤ × List MemPageIdx))
      → Q v
      → All (λ (entry : ℤ × List MemPageIdx). Q entry.1) m
      → All (λ (entry : ℤ × List MemPageIdx). Q entry.1) (put dev v m)
  unfolding put
  All-put dev v [] h all = (h, tt)
  All-put dev v ((d, w) ∷ m) h (k, all) = elim (Bool-cases (leb_ℤ d dev && leb_ℤ dev d)) [
    | inl e ↦ rw e (h, all)
    | inr e ↦ rw e (k, All-put dev v m h all)
  ]

  find-All :
      (dev : ℤ) (m : List (ℤ × List MemPageIdx))
      → Q []
      → All (λ (entry : ℤ × List MemPageIdx). Q entry.1) m
      → Q (vector (find dev m))
  unfolding find
  find-All dev [] h all = h
  find-All dev ((d, w) ∷ m) h (k, all) = elim (Bool-cases (leb_ℤ d dev && leb_ℤ dev d)) [
    | inl e ↦ rw e k
    | inr e ↦ rw e (find-All dev m h all)
  ]

-- Adding an entry, accepted or refused, keeps every vector in order and every entry in the day.
pub add_idx-IsValid :
    (dev_id idx_ts page_no : ℤ) (s : NormalPartIdx)
    → IsValid s
    → IsValid (add_idx dev_id idx_ts page_no s).1
unfolding add_idx
add_idx-IsValid dev_id idx_ts page_no s h = elim (Bool-cases refused) [
  | inl e ↦ rw e h
  | inr e ↦ rw e (All-put Both dev_id _ s.idx_map (both (ground arith)) h)
]
  where
    refused : Bool
    refused =
        leb_ℤ dev_id (pos 0)
        || ltb_ℤ idx_ts s.bg_day_ts
        || leb_ℤ s.ed_day_ts idx_ts
        || leb_ℤ page_no (pos 0)

    entry : MemPageIdx
    entry = record { idx_ts = idx_ts; page_no = page_no }

    Both : List MemPageIdx → Type 0
    Both v = Ascending v × All (InDay s) v

    both : InDay s entry → Both (push_idx entry (vector (find dev_id s.idx_map)))
    both day =
        let (asc, all) = find-All Both dev_id s.idx_map (tt, tt) h in
        (push_idx-Ascending entry _ asc, All-push_idx (InDay s) entry _ day all)
