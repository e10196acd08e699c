-- ===== src/Query/Items/And.antt =====
-- AndFunction of src/pinusdb/query/value_item.cpp over conditions.
use pinusdb.Prelude.{ℕ, ◌≡◌, refl, Bool, true, List, [], ◌∷◌, map, arith, ap, sym, ◌∙◌, ◌&&◌}
use pinusdb.Value.{Floats, DbVal, ok, bool}
use pinusdb.Query.Block.{BlockValues, row}
use pinusdb.Query.Block.Laws.{IsSized}
use pinusdb.Query.Block.Positions.{positions}
use pinusdb.Query.Items.{ValueItem, and_function, and_value, and_array, merge_result}
use pinusdb.Query.Items.Laws.{IsPointwise, values_at, map_ext}

&&_true : (a : Bool) → (a && true) ≡ a
&&_true a = ground arith

&&_assoc : (a b c : Bool) → ((a && b) && c) ≡ (a && (b && c))
&&_assoc a b c = ground arith

module _ {F : Floats} where
  -- An item whose values are booleans.
  abbrev pub IsTest : ValueItem F → (List (DbVal F) → Bool) → Type 0
  IsTest it test = IsPointwise it (λ r. bool (test r))

  abbrev pub AreTests : List (ValueItem F) → List (List (DbVal F) → Bool) → Type 0
  AreTests [] [] = Unit
  AreTests (it ∷ its) (t ∷ ts) = IsTest it t × AreTests its ts
  AreTests _ _ = ⊥

  abbrev pub all_tests : List (List (DbVal F) → Bool) → List (DbVal F) → Bool
  all_tests [] r = true
  all_tests (t ∷ ts) r = t r && all_tests ts r

  and_value-all_tests :
      (its : List (ValueItem F)) (ts : List (List (DbVal F) → Bool)) (r : List (DbVal F))
      → AreTests its ts
      → and_value its r (bool true) ≡ (ok, bool (all_tests ts r))
  unfolding and_value
  and_value-all_tests [] [] r h = refl
  and_value-all_tests [] (t ∷ ts) r h = absurd h
  and_value-all_tests (it ∷ its) [] r h = absurd h
  and_value-all_tests (it ∷ its) (t ∷ ts) r (h, hs) =
      ground (arith, h.single r, and_value-all_tests its ts r hs)

  merge_result-map :
      (f g : ℕ → Bool) (ixs : List ℕ)
      → merge_result {F = F} (map (λ i. bool (f i)) ixs) (map (λ i. bool (g i)) ixs)
        ≡ map (λ i. bool (f i && g i)) ixs
  unfolding merge_result
  merge_result-map f g [] = refl
  merge_result-map f g (i ∷ ixs) = ap (λ l. bool (f i && g i) ∷ l) (merge_result-map f g ixs)

  and_array-all_tests :
      (its : List (ValueItem F)) (ts : List (List (DbVal F) → Bool)) (u : List (DbVal F) → Bool)
      (b : BlockValues F)
      → IsSized b
      → AreTests its ts
      → and_array its b (values_at (λ r. bool (u r)) b)
        ≡ (ok, values_at (λ r. bool (u r && all_tests ts r)) b)
  unfolding and_array
  and_array-all_tests [] [] u b sized h =
      ap (λ l. (ok, l)) (map_ext _ _ (positions b) (λ i. ap bool (sym (&&_true (u (row b i))))))
  and_array-all_tests [] (t ∷ ts) u b sized h = absurd h
  and_array-all_tests (it ∷ its) [] u b sized h = absurd h
  and_array-all_tests (it ∷ its) (t ∷ ts) u b sized (h, hs) =
      let merged = merge_result-map (λ i. u (row b i)) (λ i. t (row b i)) (positions b) in
      let later = and_array-all_tests its ts (λ r. u r && t r) b sized hs in
      let regroup =
        map_ext _ _ (positions b)
          (λ i. ap bool (&&_assoc (u (row b i)) (t (row b i)) (all_tests ts (row b i)))) in
      ground (arith, h.block b sized, merged, later) ∙ ap (λ l. (ok, l)) regroup

  -- AndFunction over tests: no error, and its value is the conjunction, for a record as for each
  -- record that a well sized block holds.
  pub and_function-IsPointwise :
      (it : ValueItem F) (its : List (ValueItem F)) (t : List (DbVal F) → Bool)
      (ts : List (List (DbVal F) → Bool))
      → IsTest it t
      → AreTests its ts
      → IsTest (and_function it its) (all_tests (t ∷ ts))
  unfolding and_function
  and_function-IsPointwise it its t ts h hs = record {
    single = λ r. and_value-all_tests (it ∷ its) (t ∷ ts) r (h, hs);
    block = λ b sized. ground (arith, h.block b sized, and_array-all_tests its ts t b sized hs);
  }
