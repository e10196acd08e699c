-- ===== src/Index/Search.antt =====
-- PageIdxBinarySearch of src/pinusdb/storage/normal_part_idx.cpp: it ends, and finds the last entry
-- that is not later than the time asked for.
use pinusdb.Prelude.{
  ℕ, zero, suc, ◌+◌, ◌-◌, ◌/◌, ◌≤◌, ◌<◌, ◌≡◌, ◌⊎◌, refl, true, false, some, List, [], ◌∷◌, length,
  arith, sym, lt→ltb, if◌then◌else◌, inl, inr, Bool-cases, leb→le, ltb→lt, ltb→ge,
}
use pinusdb.Prelude.Int.{ℤ, ◌≤ℤ◌, ◌<ℤ◌, ltb_ℤ, leb_ℤ}
use pinusdb.Index.{MemPageIdx, ts_at, ts_in, search_loop, page_idx_binary_search}

-- The time stamps do not fall.
abbrev pub IsSorted : List MemPageIdx → Type 0
IsSorted v = (i j : ℕ) → i ≤ j → j < length v → ts_at v i ≤ℤ ts_at v j

-- `r` is the place of the last entry that is not later than `ts`.
abbrev pub Between : List MemPageIdx → ℤ → ℕ → Type 0
Between v ts r = (suc r < length v) × (ts_at v r ≤ℤ ts) × (ts <ℤ ts_at v (suc r))

-- The entry at `hi` is later than `ts`; the end of the vector counts as later.
abbrev Later : List MemPageIdx → ℤ → ℕ → Type 0
Later v ts hi = (hi ≡ length v) ⊎ ((hi < length v) × (ts <ℤ ts_at v hi))

-- A read within the vector.
ts_in-ts_at : (v : List MemPageIdx) (i : ℕ) → i < length v → ts_in v i ≡ some (ts_at v i)
ts_in-ts_at [] i h = absurd (omega arith)
ts_in-ts_at (e ∷ v) zero h = refl
ts_in-ts_at (e ∷ v) (suc i) h = ts_in-ts_at v i (omega arith)

-- A round whose reads stay within the vector.
search_loop-round :
    (v : List MemPageIdx) (ts : ℤ) (fuel lwr hi idx mid : ℕ)
    → mid ≡ (lwr + (hi - 1)) / 2
    → lwr < hi
    → mid < length v
    → (ltb_ℤ ts (ts_at v mid) ≡ false → mid + 1 < length v)
    → search_loop v ts (suc fuel) lwr hi idx ≡ (
        if ltb_ℤ ts (ts_at v mid)
        then search_loop v ts fuel lwr mid mid
        else if ltb_ℤ ts (ts_at v (mid + 1))
        then some mid
        else search_loop v ts fuel (mid + 1) hi mid)
unfolding search_loop
search_loop-round v ts fuel lwr hi idx mid m h a b = elim (Bool-cases (ltb_ℤ ts (ts_at v mid))) [
  | inl e ↦ rw (sym m, lt→ltb _ _ h, ts_in-ts_at v mid a, e) refl
  | inr e ↦ rw (sym m, lt→ltb _ _ h, ts_in-ts_at v mid a, e, ts_in-ts_at v (mid + 1) (b e)) refl
]

module _ (v : List MemPageIdx) (ts : ℤ) (last : ts <ℤ ts_at v (length v - 1)) where
  -- With `lwr` at an entry that is not later and `hi` at one that is, the loop ends within as many
  -- rounds as the range is long.
  search_loop-Between :
      (fuel lwr hi idx : ℕ)
      → hi < lwr + fuel
      → lwr < hi
      → ts_at v lwr ≤ℤ ts
      → Later v ts hi
      → (r : ℕ) × (search_loop v ts fuel lwr hi idx ≡ some r) × Between v ts r
  search_loop-Between zero lwr hi idx f h a b = absurd (omega arith)
  search_loop-Between (suc fuel) lwr hi idx f h a b =
      rw (search_loop-round v ts fuel lwr hi idx mid refl h inside behind)
        (elim (Bool-cases (ltb_ℤ ts (ts_at v mid))) [
          | inl left ↦
              let (r, e, p) =
                search_loop-Between fuel lwr mid mid (omega arith) (below left) a
                  (inr (omega arith, ltb→lt _ _ left)) in
              (r, ground (arith, e), p)
          | inr e ↦ elim (Bool-cases (ltb_ℤ ts (ts_at v (mid + 1)))) [
            | inl found ↦ (mid, ground arith, ground (arith, above e, next))
            | inr right ↦
                let (r, e', p) =
                  search_loop-Between fuel (mid + 1) hi mid (omega arith) (beyond e right)
                    (ltb→ge _ _ right) b in
                (r, ground (arith, e'), p)
          ]
        ])
    where
      mid : ℕ
      mid = (lwr + (hi - 1)) / 2

      next : mid + 1 ≡ suc mid
      next = omega arith

      inside : mid < length v
      inside = ground (arith, b)

      below : ltb_ℤ ts (ts_at v mid) ≡ true → lwr < mid
      below left = ground arith

      above : ltb_ℤ ts (ts_at v mid) ≡ false → suc mid < length v
      above e = ground arith

      behind : ltb_ℤ ts (ts_at v mid) ≡ false → mid + 1 < length v
      behind e = omega (arith, above e)

      beyond : ltb_ℤ ts (ts_at v mid) ≡ false → ltb_ℤ ts (ts_at v (mid + 1)) ≡ false → mid + 1 < hi
      beyond e right = ground arith

-- `r` is 0 and nothing is earlier than `ts` at the front, or `r` is the last place and not later,
-- or it is the place before the first entry found later than `ts`.
abbrev pub Found : List MemPageIdx → ℤ → ℕ → Type 0
Found v ts r =
    ((r ≡ 0) × (ts ≤ℤ ts_at v 0)) ⊎ ((suc r ≡ length v) × (ts_at v r ≤ℤ ts)) ⊎ Between v ts r

pub page_idx_binary_search_lem :
    (e : MemPageIdx) (es : List MemPageIdx) (ts : ℤ)
    → (r : ℕ) × (page_idx_binary_search (e ∷ es) ts ≡ some r)
      × (r < length (e ∷ es))
      × Found (e ∷ es) ts r
unfolding page_idx_binary_search
page_idx_binary_search_lem e es ts =
    let l = ts_in-ts_at (e ∷ es) (length (e ∷ es) - 1) (omega arith) in
    elim (Bool-cases (leb_ℤ ts e.idx_ts)) [
      | inl front ↦ (0, ground arith, omega arith, inl (refl, leb→le _ _ front))
      | inr f ↦ elim (Bool-cases (leb_ℤ (ts_at (e ∷ es) (length (e ∷ es) - 1)) ts)) [
        | inl back ↦ (
          length (e ∷ es) - 1,
          rw (f, l, back) refl,
          omega arith,
          inr (inl (omega arith, leb→le _ _ back)),
        )
        | inr b ↦
            let (r, eq, p) =
              search_loop-Between (e ∷ es) ts (ground arith) (suc (length (e ∷ es))) 0
                (length (e ∷ es)) 0 (omega arith) (omega arith) (ground arith) (inl refl) in
            (r, rw (f, l, b) eq, omega arith, inr (inr p))
      ]
    ]

-- On a sorted vector the entry found is the latest of those that are not later than the time asked
-- for, if there is one, and the first entry otherwise.
pub page_idx_binary_search-latest :
    (v : List MemPageIdx) (ts : ℤ) (r i : ℕ)
    → IsSorted v
    → page_idx_binary_search v ts ≡ some r
    → i < length v
    → ts_at v i ≤ℤ ts
    → ts_at v i ≤ℤ ts_at v r
page_idx_binary_search-latest [] ts r i s e h k = absurd (omega arith)
page_idx_binary_search-latest (x ∷ xs) ts r i s e h k =
    let (r', e', lt, found) = page_idx_binary_search_lem x xs ts in
    let same : r ≡ r' = ground (arith, e, e') in place found (cc) lt
  where
    place :
        {r' : ℕ}
        → Found (x ∷ xs) ts r'
        → r ≡ r'
        → r' < length (x ∷ xs)
        → ts_at (x ∷ xs) i ≤ℤ ts_at (x ∷ xs) r
    place {r'} f q lt = rw q (at_r' f lt)
      where
        at_r' : Found (x ∷ xs) ts r' → r' < length (x ∷ xs) → ts_at (x ∷ xs) i ≤ℤ ts_at (x ∷ xs) r'
        at_r' f lt = ground (arith, s i r', s (suc r') i)
