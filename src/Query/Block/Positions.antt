-- ===== src/Query/Block/Positions.antt =====
-- The positions of the records that a block of src/pinusdb/query/block_values.h holds after its
-- filter, and what merging does to them.
use pinusdb.Prelude.{
  ℕ, zero, suc, ◌≤◌, ◌≡◌, refl, Bool, true, false, List, [], ◌∷◌, length, arith, ap, ◌==◌,
}
use pinusdb.Value.{Floats, DbVal}
use pinusdb.Query.Block.{BlockValues, kept, first_filter, merge_filter}
use pinusdb.Query.Block.Laws.{
  count_set, range_from, IsSized, keep_true, first_filter_shape, next_filter_total,
  merge_filter_lem,
}

length-kept : (fs : List Bool) (i : ℕ) → length (kept fs i) ≡ count_set fs
unfolding kept
length-kept [] i = refl
length-kept (true ∷ fs) i = ground (arith, length-kept fs (suc i))
length-kept (false ∷ fs) i = length-kept fs (suc i)

count_bound : (fs : List Bool) → count_set fs ≤ length fs
count_bound [] = omega arith
count_bound (true ∷ fs) = omega (arith, count_bound fs)
count_bound (false ∷ fs) = omega (arith, count_bound fs)

-- A filter that drops nothing keeps every position.
kept_all :
    (fs : List Bool) (i : ℕ) → count_set fs ≡ length fs → kept fs i ≡ range_from (length fs) i
unfolding kept
kept_all [] i h = refl
kept_all (true ∷ fs) i h = ap (λ ixs. i ∷ ixs) (kept_all fs (suc i) (omega arith))
kept_all (false ∷ fs) i h = absurd (omega (arith, count_bound fs))

length-range_from : (n i : ℕ) → length (range_from n i) ≡ n
length-range_from zero i = refl
length-range_from (suc n) i = ap suc (length-range_from n (suc i))

module _ {F : Floats} where
  abbrev pub positions : BlockValues F → List ℕ
  positions b = elim b.filter_vec [ [] ↦ range_from b.record_size 0 | f ∷ fs ↦ kept (f ∷ fs) 0 ]

  pub length-positions : (b : BlockValues F) → IsSized b → length (positions b) ≡ b.result_size
  length-positions b sized = go b.filter_vec refl
    where
      go : (fs : List Bool) → b.filter_vec ≡ fs → length (positions b) ≡ b.result_size
      go [] e = ground (arith, e, sized.unfiltered e, length-range_from b.record_size 0)
      go (f ∷ fs) e = ground (arith, e, length-kept (f ∷ fs) 0, sized.counted)

  -- A result as large as the block holds every record.
  pub positions_whole :
      (b : BlockValues F)
      → IsSized b
      → b.record_size ≡ b.result_size
      → positions b ≡ range_from b.record_size 0
  positions_whole b sized h = go b.filter_vec refl
    where
      go : (fs : List Bool) → b.filter_vec ≡ fs → positions b ≡ range_from b.record_size 0
      go [] e = rw e refl
      go (f ∷ fs) e =
          let counted : count_set (f ∷ fs) ≡ length (f ∷ fs) =
            ground (arith, e, sized.filtered, sized.counted) in
          let all = kept_all (f ∷ fs) 0 counted in ground (arith, e, all, sized.filtered)

  pub merge_filter-columns :
      (vs : List (DbVal F)) (b : BlockValues F) → (merge_filter vs b).1.column_vec ≡ b.column_vec
  unfolding merge_filter
  merge_filter-columns vs b = ground arith

  merge_filter_empty :
      (vs : List (DbVal F)) (b : BlockValues F)
      → IsSized b
      → length vs ≡ b.result_size
      → (merge_filter vs b).1.filter_vec ≡ []
      → b.record_size ≡ 0
  unfolding merge_filter
  merge_filter_empty vs b sized len h = go b.filter_vec refl
    where
      go : (fs : List Bool) → b.filter_vec ≡ fs → b.record_size ≡ 0
      go [] e =
          let test : (length vs == b.result_size) ≡ true = ground (arith, len) in
          let none_left : (first_filter vs).0 ≡ [] = ground (arith, e, h, test) in
          ground (arith, first_filter_shape vs, ap length none_left, sized.unfiltered e, len)
      go (f ∷ fs) e =
          let counted : length vs ≡ count_set (f ∷ fs) = ground (arith, e, sized.counted, len) in
          let (r, e', l, c, k) = next_filter_total (f ∷ fs) vs 0 counted in
          let test : (length vs == b.result_size) ≡ true = ground (arith, len) in
          let none_left : r.0 ≡ [] = ground (arith, e, h, test, e') in
          absurd (omega (arith, l, ap length none_left))

  -- Merging keeps, of the positions, those at which the value is true.
  pub merge_filter-positions :
      (vs : List (DbVal F)) (b : BlockValues F)
      → IsSized b
      → length vs ≡ b.result_size
      → positions (merge_filter vs b).1 ≡ keep_true vs (positions b)
  unfolding kept
  merge_filter-positions vs b sized len =
      let (e, s, r, k) = merge_filter_lem vs b sized len in
      go (merge_filter vs b).1.filter_vec refl s r k
    where
      go :
          (fs : List Bool)
          → (merge_filter vs b).1.filter_vec ≡ fs
          → IsSized (merge_filter vs b).1
          → (merge_filter vs b).1.record_size ≡ b.record_size
          → kept (merge_filter vs b).1.filter_vec 0 ≡ keep_true vs (positions b)
          → positions (merge_filter vs b).1 ≡ keep_true vs (positions b)
      go [] e s r k =
          ground (arith, e, k, r, ap (λ fs. kept fs 0) e, merge_filter_empty vs b sized len e)
      go (f ∷ fs) e s r k = ground (arith, e, k)
