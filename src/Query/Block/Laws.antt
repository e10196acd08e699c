-- ===== src/Query/Block/Laws.antt =====
-- The filter of a block (src/pinusdb/query/block_values.h): what merging keeps, and which record
-- `get_record_value` returns.
use pinusdb.Prelude.{
  ℕ, zero, suc, ◌+◌, ◌≡◌, ◌⊎◌, refl, Bool, true, false, some, List, [], ◌∷◌, length, arith,
  if◌then◌else◌, ap, sym,
}
use pinusdb.Value.{Floats, DbVal, ok, is_true}
use pinusdb.Query.Block.{BlockValues, kept, first_filter, next_filter, merge_filter}

-- How many places of a filter are set.
abbrev pub count_set : List Bool → ℕ
count_set [] = 0
count_set (true ∷ fs) = suc (count_set fs)
count_set (false ∷ fs) = count_set fs

-- The positions `i`, `i + 1`, ..., `n` of them.
abbrev pub range_from : ℕ → ℕ → List ℕ
range_from zero i = []
range_from (suc n) i = i ∷ range_from n (suc i)

kept_none : (fs : List Bool) (i : ℕ) → count_set fs ≡ 0 → kept fs i ≡ []
unfolding kept
kept_none [] i h = refl
kept_none (true ∷ fs) i h = absurd (omega arith)
kept_none (false ∷ fs) i h = kept_none fs (suc i) h

module _ {F : Floats} where
  -- The size of the result is the number of records that the filter keeps.
  pub record IsSized (b : BlockValues F) : Type 0 where
    pub unfiltered : b.filter_vec ≡ [] → b.result_size ≡ b.record_size
    pub filtered : (b.filter_vec ≡ []) ⊎ (length b.filter_vec ≡ b.record_size)
    pub counted : (b.filter_vec ≡ []) ⊎ (count_set b.filter_vec ≡ b.result_size)

  -- Of the positions in a list, those at which the value is true.
  unfoldable pub keep_true : List (DbVal F) → List ℕ → List ℕ
  keep_true [] ixs = []
  keep_true (v ∷ vs) [] = []
  keep_true (v ∷ vs) (i ∷ ixs) = let rest = keep_true vs ixs in if is_true v then i ∷ rest else rest

  pub first_filter_shape :
      (vs : List (DbVal F))
      → (length (first_filter vs).0 ≡ length vs)
        × (count_set (first_filter vs).0 ≡ (first_filter vs).1)
  unfolding first_filter
  first_filter_shape [] = (refl, refl)
  first_filter_shape (v ∷ vs) = ground (arith, first_filter_shape vs)

  pub kept-first_filter :
      (vs : List (DbVal F)) (i : ℕ)
      → kept (first_filter vs).0 i ≡ keep_true vs (range_from (length vs) i)
  unfolding first_filter kept keep_true
  kept-first_filter [] i = refl
  kept-first_filter (v ∷ vs) i = ground (arith, kept-first_filter vs (suc i))

  -- A later merge succeeds when there is a value for each place that is set.
  pub next_filter_total :
      (fs : List Bool) (vs : List (DbVal F)) (i : ℕ)
      → length vs ≡ count_set fs
      → (r : List Bool × ℕ) × (next_filter fs vs ≡ some r)
        × (length r.0 ≡ length fs)
        × (count_set r.0 ≡ r.1)
        × (kept r.0 i ≡ keep_true vs (kept fs i))
  unfolding next_filter kept keep_true
  next_filter_total [] [] i h = (([], 0), refl, refl, refl, refl)
  next_filter_total (f ∷ fs) [] i h = ((f ∷ fs, 0), refl, refl, sym h, kept_none (f ∷ fs) i (sym h))
  next_filter_total [] (v ∷ vs) i h = absurd (omega arith)
  next_filter_total (false ∷ fs) (v ∷ vs) i h =
      let (r, e, l, c, k) = next_filter_total fs (v ∷ vs) (suc i) h in
      ((false ∷ r.0, r.1), ground arith, ground arith, ground arith, ground arith)
  next_filter_total (true ∷ fs) (v ∷ vs) i h =
      let (r, e, l, c, k) = next_filter_total fs vs (suc i) (omega arith) in
      (
        (if is_true v then (true ∷ r.0, r.1 + 1) else (false ∷ r.0, r.1)),
        ground arith,
        ground arith,
        ground arith,
        ground arith,
      )

  -- Merging a list of condition values of the size of the result succeeds, leaves the record count
  -- alone and keeps exactly those kept records whose value is true; the block stays well sized.
  pub merge_filter_lem :
      (vs : List (DbVal F)) (b : BlockValues F)
      → IsSized b
      → length vs ≡ b.result_size
      → let r = merge_filter vs b in
        (r.0 ≡ ok)
        × IsSized r.1
        × (r.1.record_size ≡ b.record_size)
        × (kept r.1.filter_vec 0
            ≡ keep_true vs
                (elim b.filter_vec [ [] ↦ range_from b.record_size 0 | f ∷ fs ↦ kept (f ∷ fs) 0 ]))
  unfolding merge_filter
  merge_filter_lem vs b sized len = go b.filter_vec refl
    where
      go :
          (fs : List Bool)
          → b.filter_vec ≡ fs
          → let r = merge_filter vs b in
            (r.0 ≡ ok)
            × IsSized r.1
            × (r.1.record_size ≡ b.record_size)
            × (kept r.1.filter_vec 0
                ≡ keep_true vs (elim b.filter_vec [
                  | [] ↦ range_from b.record_size 0
                  | f ∷ fs ↦ kept (f ∷ fs) 0
                ]))
      go [] e = ground (
        arith,
        e,
        first_filter_shape vs,
        kept-first_filter vs 0,
        sized.unfiltered e,
        λ (h : (first_filter vs).0 ≡ []). ap length h,
      )
      go (f ∷ fs) e =
          let (r, e', l, c, k) = next_filter_total (f ∷ fs) vs 0 (ground arith) in
          ground (arith, e, e', l, c, k, λ (h : r.0 ≡ []). ap length h)
