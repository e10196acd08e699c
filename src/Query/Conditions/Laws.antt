-- ===== src/Query/Conditions/Laws.antt =====
-- What the conditions of src/pinusdb/query/condition_filter.cpp keep of a block, and what the ranges
-- taken from them exclude.
use pinusdb.Prelude.{
  ℕ, suc, ◌≡◌, refl, Bool, true, List, [], ◌∷◌, map, length, arith, ap, sym, ◌∙◌, ◌==◌, ◌&&◌,
  if◌then◌else◌, Bool-cases, inl, inr,
}
use pinusdb.Value.{Floats, DbVal, ok, is_true}
use pinusdb.Query.Block.{BlockValues, row, cell, merge_filter}
use pinusdb.Query.Block.Laws.{IsSized, keep_true, merge_filter_lem}
use pinusdb.Query.Block.Positions.{
  positions, length-positions, merge_filter-columns, merge_filter-positions,
}
use pinusdb.Query.Items.{ValueItem}
use pinusdb.Query.Items.Laws.{IsPointwise, values_at}
use pinusdb.Query.Conditions.{run_condition, run_condition_array}

-- Of the positions, those at which the test is true.
unfoldable pub keep_if : (ℕ → Bool) → List ℕ → List ℕ
keep_if test [] = []
keep_if test (i ∷ ixs) = let rest = keep_if test ixs in if test i then i ∷ rest else rest

keep_if-keep_if :
    (p q : ℕ → Bool) (ixs : List ℕ) → keep_if q (keep_if p ixs) ≡ keep_if (λ i. p i && q i) ixs
unfolding keep_if
keep_if-keep_if p q [] = refl
keep_if-keep_if p q (i ∷ ixs) = ground (arith, keep_if-keep_if p q ixs)

keep_if_ext :
    (p q : ℕ → Bool) (ixs : List ℕ) → ((i : ℕ) → p i ≡ q i) → keep_if p ixs ≡ keep_if q ixs
unfolding keep_if
keep_if_ext p q [] h = refl
keep_if_ext p q (i ∷ ixs) h = ground (arith, h i, keep_if_ext p q ixs h)

keep_if-true : (ixs : List ℕ) → keep_if (λ i. true) ixs ≡ ixs
unfolding keep_if
keep_if-true [] = refl
keep_if-true (i ∷ ixs) = ap (λ l. i ∷ l) (keep_if-true ixs)

module _ {F : Floats} where
  abbrev pub ArePointwise : List (ValueItem F) → List (List (DbVal F) → DbVal F) → Type 0
  ArePointwise [] [] = Unit
  ArePointwise (it ∷ its) (v ∷ vs) = IsPointwise it v × ArePointwise its vs
  ArePointwise _ _ = ⊥

  keep_true-map :
      (f : ℕ → DbVal F) (ixs : List ℕ)
      → keep_true (map f ixs) ixs ≡ keep_if (λ i. is_true (f i)) ixs
  unfolding keep_true keep_if
  keep_true-map f [] = refl
  keep_true-map f (i ∷ ixs) = ground (arith, keep_true-map f ixs)

  length-map : (f : ℕ → DbVal F) (ixs : List ℕ) → length (map f ixs) ≡ length ixs
  length-map f [] = refl
  length-map f (i ∷ ixs) = ap suc (length-map f ixs)

  -- The conditions as one test of a record.
  abbrev pub accepts : List (List (DbVal F) → DbVal F) → List (DbVal F) → Bool
  accepts [] r = true
  accepts (v ∷ vs) r = is_true (v r) && accepts vs r

  pub run_condition-accepts :
      (its : List (ValueItem F)) (vs : List (List (DbVal F) → DbVal F)) (r : List (DbVal F))
      → ArePointwise its vs
      → run_condition its r ≡ (ok, accepts vs r)
  unfolding run_condition
  run_condition-accepts [] [] r h = refl
  run_condition-accepts [] (v ∷ vs) r h = absurd h
  run_condition-accepts (it ∷ its) [] r h = absurd h
  run_condition-accepts (it ∷ its) (v ∷ vs) r (h, hs) =
      ground (arith, h.single r, run_condition-accepts its vs r hs)

  -- What one round of the loop leaves of a block.
  merged :
      (v : List (DbVal F) → DbVal F) (b : BlockValues F)
      → IsSized b
      → let m = merge_filter (values_at v b) b in
        (m.0 ≡ ok)
        × IsSized m.1
        × (m.1.column_vec ≡ b.column_vec)
        × (m.1.record_size ≡ b.record_size)
        × (positions m.1 ≡ keep_if (λ i. is_true (v (row b i))) (positions b))
  merged v b sized =
      let len : length (values_at v b) ≡ b.result_size =
        length-map (λ i. v (row b i)) (positions b) ∙ length-positions b sized in
      let (e, s, r, k) = merge_filter_lem (values_at v b) b sized len in
      (
        e,
        s,
        merge_filter-columns (values_at v b) b,
        r,
        merge_filter-positions (values_at v b) b sized len
            ∙ keep_true-map (λ i. v (row b i)) (positions b),
      )

  row_columns : (a b : BlockValues F) (i : ℕ) → a.column_vec ≡ b.column_vec → row a i ≡ row b i
  row_columns a b i e = ap (map (λ c. cell c i)) e

  -- What the loop leaves of a block.
  record Kept (test : List (DbVal F) → Bool) (b c : BlockValues F) : Type 0 where
    sized : IsSized c
    columns : c.column_vec ≡ b.column_vec
    records : c.record_size ≡ b.record_size
    places : positions c ≡ keep_if (λ i. test (row b i)) (positions b)

  no_places : (b : BlockValues F) → IsSized b → b.result_size ≡ 0 → positions b ≡ []
  no_places b sized e = nil (positions b) (length-positions b sized ∙ e)
    where
      nil : (ixs : List ℕ) → length ixs ≡ 0 → ixs ≡ []
      nil [] h = refl
      nil (i ∷ ixs) h = absurd (omega arith)

  Kept-trans :
      (p q : List (DbVal F) → Bool) (a b c : BlockValues F)
      → Kept p a b
      → Kept q b c
      → Kept (λ r. p r && q r) a c
  Kept-trans p q a b c h k = record {
    sized = k.sized;
    columns = k.columns ∙ h.columns;
    records = k.records ∙ h.records;
    places =
        k.places
        ∙ keep_if_ext _ _ (positions b) (λ i. ap q (row_columns b a i h.columns))
        ∙ ap (keep_if (λ i. q (row a i))) h.places
        ∙ keep_if-keep_if _ _ (positions a);
  }

  Kept-empty :
      (q : List (DbVal F) → Bool) (b : BlockValues F) → IsSized b → b.result_size ≡ 0 → Kept q b b
  unfolding keep_if
  Kept-empty q b sized e = record {
    sized = sized;
    columns = refl;
    records = refl;
    places = rw (no_places b sized e) refl;
  }

  run_all :
      (its : List (ValueItem F)) (vs : List (List (DbVal F) → DbVal F)) (b : BlockValues F)
      → ArePointwise its vs
      → IsSized b
      → (c : BlockValues F) × (run_condition_array its b ≡ (ok, c)) × Kept (accepts vs) b c
  unfolding run_condition_array
  run_all [] [] b h sized = (
    b,
    refl,
    record {
      sized = sized;
      columns = refl;
      records = refl;
      places = sym (keep_if-true (positions b));
    },
  )
  run_all [] (v ∷ vs) b h sized = absurd h
  run_all (it ∷ its) [] b h sized = absurd h
  run_all (it ∷ its) (v ∷ vs) b (h, hs) sized =
      let (e, s, columns, records, places) = merged v b sized in
      let m = (merge_filter (values_at v b) b).1 in
      let first : Kept (λ r. is_true (v r)) b m = record {
        sized = s;
        columns = columns;
        records = records;
        places = places;
      } in
      elim (Bool-cases (m.result_size == 0)) [
        | inl none_left ↦ (
          m,
          ground (arith, h.block b sized, e, none_left),
          Kept-trans _ (accepts vs) b m m first (Kept-empty _ m s (ground (arith, none_left))),
        )
        | inr some_left ↦
            let (c, e', rest) = run_all its vs m hs s in
            (c, ground (arith, h.block b sized, e, some_left, e'), Kept-trans _ _ b m c first rest)
      ]

  -- RunConditionArray over items that never fail and give a block the values of its records: no
  -- error, and of the records that the block holds exactly those are left that RunCondition
  -- accepts, where the columns and the size of the block stay as they are.
  pub run_condition_array-run_condition :
      (its : List (ValueItem F)) (vs : List (List (DbVal F) → DbVal F)) (b : BlockValues F)
      → ArePointwise its vs
      → IsSized b
      → let r = run_condition_array its b in
        (r.0 ≡ ok)
        × IsSized r.1
        × (r.1.column_vec ≡ b.column_vec)
        × (r.1.record_size ≡ b.record_size)
        × (positions r.1 ≡ keep_if (λ i. (run_condition its (row b i)).1) (positions b))
  run_condition_array-run_condition its vs b h sized =
      let (c, e, kept) = run_all its vs b h sized in
      let same =
        keep_if_ext _ _ (positions b)
          (λ i. ap (λ p. p.1) (sym (run_condition-accepts its vs (row b i) h))) in
      rw e (refl, kept.sized, kept.columns, kept.records, kept.places ∙ same)
