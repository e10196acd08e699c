-- ===== src/Index/Lookup.antt =====
-- `GetIndex`, `GetPrevIndex` and `GetNextIndex` of src/pinusdb/storage/normal_part_idx.cpp.
use pinusdb.Prelude.{
  ℕ, zero, suc, ◌+◌, ◌-◌, ◌<◌, ◌≡◌, none, some, List, [], ◌∷◌, length, get_or, arith, All, ◌⊎◌, inl,
  inr, Bool-cases, leb→le, ltb, if◌then◌else◌,
}
use pinusdb.Prelude.Int.{ℤ, ◌≤ℤ◌, ◌<ℤ◌, leb_ℤ}
use pinusdb.Value.{ok, dev_not_found, idx_not_found}
use pinusdb.Index.{
  MemPageIdx, NormalPartIdx, no_idx, ts_at, find, get_index, get_prev_index, get_next_index,
  page_idx_binary_search,
}
use pinusdb.Index.Search.{IsSorted, page_idx_binary_search_lem, page_idx_binary_search-latest}
use pinusdb.Index.Sorted.{Ascending}

Ascending-front :
    (a : MemPageIdx) (v : List MemPageIdx) (j : ℕ)
    → All (λ b. a.idx_ts ≤ℤ b.idx_ts) v
    → j < length v
    → a.idx_ts ≤ℤ ts_at v j
Ascending-front a [] j all h = absurd (omega arith)
Ascending-front a (b ∷ bs) zero (k, all) h = k
Ascending-front a (b ∷ bs) (suc j) (k, all) h = Ascending-front a bs j all (omega arith)

pub Ascending→IsSorted : (v : List MemPageIdx) → Ascending v → IsSorted v
Ascending→IsSorted [] h i j p q = absurd (omega arith)
Ascending→IsSorted (a ∷ v) (all, h) zero zero p q = omega arith
Ascending→IsSorted (a ∷ v) (all, h) zero (suc j) p q = Ascending-front a v j all (omega arith)
Ascending→IsSorted (a ∷ v) (all, h) (suc i) zero p q = absurd (omega arith)
Ascending→IsSorted (a ∷ v) (all, h) (suc i) (suc j) p q =
    Ascending→IsSorted v h i j (omega arith) (omega arith)

module _ (dev_id ts : ℤ) (s : NormalPartIdx) where
  -- A device without entries is reported, and one that is not in the index too.
  pub get_index_missing :
      (find dev_id s.idx_map ≡ none → (get_index dev_id ts s).0 ≡ dev_not_found)
      × (find dev_id s.idx_map ≡ some [] → (get_index dev_id ts s).0 ≡ idx_not_found)
  unfolding get_index
  get_index_missing = (λ e. ground (arith, e), λ e. ground (arith, e))

  index_at :
      (e : MemPageIdx) (es : List MemPageIdx) (r : ℕ)
      → find dev_id s.idx_map ≡ some (e ∷ es)
      → page_idx_binary_search (e ∷ es) ts ≡ some r
      → get_index dev_id ts s ≡ (ok, get_or (e ∷ es) r no_idx)
  unfolding get_index
  index_at e es r h eq = ground (arith, h, eq)

  prev_at :
      (e : MemPageIdx) (es : List MemPageIdx) (r : ℕ)
      → find dev_id s.idx_map ≡ some (e ∷ es)
      → page_idx_binary_search (e ∷ es) ts ≡ some r
      → get_prev_index dev_id ts s
        ≡ (if ltb 0 r then (ok, get_or (e ∷ es) (r - 1) no_idx) else (idx_not_found, no_idx))
  unfolding get_prev_index
  prev_at e es r h eq = ground (arith, h, eq)

  next_at :
      (e : MemPageIdx) (es : List MemPageIdx) (r : ℕ)
      → find dev_id s.idx_map ≡ some (e ∷ es)
      → page_idx_binary_search (e ∷ es) ts ≡ some r
      → get_next_index dev_id ts s ≡ (
          if ltb (r + 1) (length (e ∷ es))
          then (ok, get_or (e ∷ es) (r + 1) no_idx)
          else (idx_not_found, no_idx))
  unfolding get_next_index
  next_at e es r h eq = ground (arith, h, eq)

  -- The entry at `r` is the latest of those that are not later than the time, or it is the first
  -- one, and all are later.
  abbrev pub IsFloor : List MemPageIdx → ℕ → Type 0
  IsFloor v r =
      ((ts_at v r ≤ℤ ts) × ((i : ℕ) → i < length v → ts_at v i ≤ℤ ts → ts_at v i ≤ℤ ts_at v r))
      ⊎ ((r ≡ 0) × ((i : ℕ) → i < length v → ts <ℤ ts_at v i))

  -- For a device whose entries are in order `GetIndex` succeeds with one of these entries: the
  -- latest of those that are not later than the time asked for, or the first one if all are later.
  pub get_index-latest :
      (e : MemPageIdx) (es : List MemPageIdx)
      → find dev_id s.idx_map ≡ some (e ∷ es)
      → Ascending (e ∷ es)
      → (r : ℕ) × (r < length (e ∷ es))
        × (get_index dev_id ts s ≡ (ok, get_or (e ∷ es) r no_idx))
        × IsFloor (e ∷ es) r
  get_index-latest e es h asc =
      let (r, eq, lt, found) = page_idx_binary_search_lem e es ts in
      let sorted = Ascending→IsSorted (e ∷ es) asc in
      let latest = λ (i : ℕ) (k : i < length (e ∷ es)) (le : ts_at (e ∷ es) i ≤ℤ ts).
        page_idx_binary_search-latest (e ∷ es) ts r i sorted eq k le in
      (
        r,
        lt,
        index_at e es r h eq,
        elim (Bool-cases (leb_ℤ (ts_at (e ∷ es) r) ts)) [
          | inl c ↦ inl (leb→le _ _ c, latest)
          | inr c ↦
              let first : r ≡ 0 = ground (arith, c, found) in
              inr (first, λ i k. let s = sorted 0 i (omega arith) k in ground (arith, c, found, s))
        ],
      )

  -- `GetPrevIndex` and `GetNextIndex` return the neighbours of the entry that `GetIndex` returns,
  -- and report that there is none exactly at the two ends of the vector.
  pub get_neighbours :
      (e : MemPageIdx) (es : List MemPageIdx)
      → find dev_id s.idx_map ≡ some (e ∷ es)
      → (r : ℕ) × (r < length (e ∷ es))
        × (get_index dev_id ts s ≡ (ok, get_or (e ∷ es) r no_idx))
        × (0 < r → get_prev_index dev_id ts s ≡ (ok, get_or (e ∷ es) (r - 1) no_idx))
        × (r ≡ 0 → (get_prev_index dev_id ts s).0 ≡ idx_not_found)
        × (suc r < length (e ∷ es)
            → get_next_index dev_id ts s ≡ (ok, get_or (e ∷ es) (r + 1) no_idx))
        × (suc r ≡ length (e ∷ es) → (get_next_index dev_id ts s).0 ≡ idx_not_found)
  get_neighbours e es h =
      let (r, eq, lt, found) = page_idx_binary_search_lem e es ts in
      let prev = prev_at e es r h eq in
      let next = next_at e es r h eq in
      (
        r,
        lt,
        index_at e es r h eq,
        λ k. ground (arith, prev),
        λ k. ground (arith, prev),
        λ k. ground (arith, next),
        λ k. ground (arith, next),
      )
