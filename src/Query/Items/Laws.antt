-- ===== src/Query/Items/Laws.antt =====
-- What the value items of src/pinusdb/query/value_item.cpp do with a block: the same as with its
-- records one by one.
use pinusdb.Prelude.{
  Option, ℕ, zero, suc, ◌+◌, ◌≡◌, refl, Bool, true, false, none, some, List, [], ◌∷◌, map, length,
  arith, ap, sym, ◌∙◌, get_or, ◌==◌, Bool-cases, inl, inr,
}
use pinusdb.Value.{Floats, DbVal, ok, FieldType, null, bool}
use pinusdb.Query.Block.{BlockValues, kept, row, cell, column}
use pinusdb.Query.Block.Laws.{IsSized, range_from}
use pinusdb.Query.Block.Positions.{positions, length-positions, positions_whole}
use pinusdb.Query.Group.Laws.{get_or-row}
use pinusdb.Query.Items.{
  ValueItem, CompOp, value_loop, repeat, column_loop, const_value, field_value, field_compare,
  typed_value, compared,
}

module _ {F : Floats} where
  -- The values that an item gives to the records of a block, by their positions.
  abbrev pub values_at : (List (DbVal F) → DbVal F) → BlockValues F → List (DbVal F)
  values_at value b = map (λ i. value (row b i)) (positions b)

  -- An item that never fails, and gives a block the values that it gives to its records.
  pub record IsPointwise (it : ValueItem F) (value : List (DbVal F) → DbVal F) : Type 0 where
    pub single : (r : List (DbVal F)) → it.get_value r ≡ (ok, value r)
    pub block : (b : BlockValues F) → IsSized b → it.get_value_array b ≡ (ok, values_at value b)

  loop_all :
      (f : DbVal F → DbVal F) (vs : List (DbVal F)) (n i : ℕ)
      → value_loop f (λ j. true) vs n i ≡ map (λ j. f (get_or vs j null)) (range_from n i)
  unfolding value_loop
  loop_all f vs zero i = refl
  loop_all f vs (suc n) i = ap (λ l. f (get_or vs i null) ∷ l) (loop_all f vs n (suc i))

  -- `pre` holds the places of the filter that the loop has passed.
  loop_kept :
      (f : DbVal F → DbVal F) (keep : ℕ → Bool) (vs : List (DbVal F)) (fs : List Bool) (i : ℕ)
      → ((j : ℕ) → keep (j + i) ≡ get_or fs j false)
      → value_loop f keep vs (length fs) i ≡ map (λ j. f (get_or vs j null)) (kept fs i)
  unfolding value_loop kept
  loop_kept f keep vs [] i h = refl
  loop_kept f keep vs (true ∷ fs) i h = ground (arith, h 0, loop_kept f keep vs fs (suc i) later)
    where
      later : (j : ℕ) → keep (j + suc i) ≡ get_or fs j false
      later j = ap keep (omega arith) ∙ h (suc j)
  loop_kept f keep vs (false ∷ fs) i h = ground (arith, h 0, loop_kept f keep vs fs (suc i) later)
    where
      later : (j : ℕ) → keep (j + suc i) ≡ get_or fs j false
      later j = ap keep (omega arith) ∙ h (suc j)

  repeat-map :
      (v : DbVal F) (f : ℕ → DbVal F) (ixs : List ℕ)
      → ((i : ℕ) → f i ≡ v)
      → repeat (length ixs) v ≡ map f ixs
  repeat-map v f [] h = refl
  repeat-map v f (i ∷ ixs) h = ground (arith, h i, repeat-map v f ixs h)

  pub map_ext : (f g : ℕ → DbVal F) (ixs : List ℕ) → ((i : ℕ) → f i ≡ g i) → map f ixs ≡ map g ixs
  map_ext f g [] h = refl
  map_ext f g (i ∷ ixs) h = ground (arith, h i, map_ext f g ixs h)

  -- The loop over a column, by the positions of the block.
  column_loop-positions :
      (f : DbVal F → DbVal F) (missing : DbVal F) (p : ℕ) (b : BlockValues F)
      → f null ≡ missing
      → IsSized b
      → column_loop f missing p b ≡ map (λ i. f (cell (column b p) i)) (positions b)
  unfolding column_loop
  column_loop-positions f missing p b h sized = go (column b p) b.filter_vec refl refl
    where
      whole :
          (vs : List (DbVal F))
          → positions b ≡ range_from b.record_size 0
          → value_loop f (λ i. true) vs b.record_size 0
            ≡ map (λ i. f (get_or vs i null)) (positions b)
      whole vs e = loop_all f vs b.record_size 0 ∙ ap (map (λ i. f (get_or vs i null))) (sym e)

      at_column :
          (c : Option (List (DbVal F)))
          → column b p ≡ c
          → map (λ i. f (cell c i)) (positions b) ≡ map (λ i. f (cell (column b p) i)) (positions b)
      at_column c e = ap (λ c. map (λ i. f (cell c i)) (positions b)) (sym e)

      go :
          (c : Option (List (DbVal F))) (fs : List Bool)
          → column b p ≡ c
          → b.filter_vec ≡ fs
          → column_loop f missing p b ≡ map (λ i. f (cell (column b p) i)) (positions b)
      go none fs e k =
          let loop : column_loop f missing p b ≡ repeat b.result_size missing = ground (arith, e) in
          loop
          ∙ ap (λ n. repeat n missing) (sym (length-positions b sized))
          ∙ repeat-map missing (λ i. f null) (positions b) (λ i. h)
          ∙ at_column none e
      go (some vs) [] e k =
          let loop : column_loop f missing p b ≡ value_loop f (λ i. true) vs b.record_size 0 =
            ground (arith, e, k) in
          loop ∙ whole vs (ground (arith, k)) ∙ at_column (some vs) e
      go (some vs) (g ∷ gs) e k = elim (Bool-cases (b.record_size == b.result_size)) [
        | inl full ↦
            let loop : column_loop f missing p b ≡ value_loop f (λ i. true) vs b.record_size 0 =
              ground (arith, e, k, full) in
            loop ∙ whole vs (positions_whole b sized (ground (arith, full))) ∙ at_column (some vs) e
        | inr part ↦
            let loop : column_loop f missing p b
                ≡ value_loop f (λ i. get_or (g ∷ gs) i false) vs b.record_size 0 =
              ground (arith, e, k, part) in
            let size : b.record_size ≡ length (g ∷ gs) = ground (arith, k, sized.filtered) in
            let kept_rows =
              loop_kept f (λ i. get_or (g ∷ gs) i false) vs (g ∷ gs) 0
                (λ j. ap (λ i. get_or (g ∷ gs) i false) (omega arith)) in
            loop
            ∙ ap (λ n. value_loop f (λ i. get_or (g ∷ gs) i false) vs n 0) size
            ∙ kept_rows
            ∙ ap (map (λ i. f (get_or vs i null))) (ground (arith, k))
            ∙ at_column (some vs) e
      ]

  column_loop-values_at :
      (f : DbVal F → DbVal F) (missing : DbVal F) (p : ℕ) (b : BlockValues F)
      → f null ≡ missing
      → IsSized b
      → column_loop f missing p b ≡ values_at (λ r. f (get_or r p null)) b
  column_loop-values_at f missing p b h sized =
      column_loop-positions f missing p b h sized
      ∙ map_ext _ _ (positions b) (λ i. ap f (sym (get_or-row b i p)))

  null_compared :
      (ty : FieldType) (op : CompOp) (val_ : DbVal F) → compared ty op val_ null ≡ bool false
  null_compared ty op val_ = ground arith

  null_typed : (ty : FieldType) → typed_value {F = F} ty null ≡ null
  null_typed ty = ground arith

  -- FieldCompareFunction never fails, and the values that it gives to a well sized block are those
  -- that it gives to the records that the block holds, one by one, also where the column is not
  -- loaded.
  pub field_compare-IsPointwise :
      (ty : FieldType) (op : CompOp) (p : ℕ) (val_ : DbVal F)
      → IsPointwise (field_compare ty op p val_) (λ r. compared ty op val_ (get_or r p null))
  unfolding field_compare
  field_compare-IsPointwise ty op p val_ = record {
    single = λ r. refl;
    block = λ b sized.
        ap (λ l. (ok, l))
          (column_loop-values_at (compared ty op val_) (bool false) p b (null_compared ty op val_)
            sized);
  }

  pub field_value-IsPointwise :
      (ty : FieldType) (p : ℕ)
      → IsPointwise (field_value {F = F} ty p) (λ r. typed_value ty (get_or r p null))
  unfolding field_value
  field_value-IsPointwise ty p = record {
    single = λ r. refl;
    block = λ b sized.
        ap (λ l. (ok, l)) (column_loop-values_at (typed_value ty) null p b (null_typed ty) sized);
  }

  pub const_value-IsPointwise : (v : DbVal F) → IsPointwise (const_value v) (λ r. v)
  unfolding const_value
  const_value-IsPointwise v = record {
    single = λ r. refl;
    block = λ b sized. go b sized b.filter_vec refl;
  }
    where
      go :
          (b : BlockValues F)
          → IsSized b
          → (fs : List Bool) → b.filter_vec ≡ fs
          → (const_value v).get_value_array b ≡ (ok, values_at (λ r. v) b)
      go b sized [] e = ground (arith, e, loop_all (λ w. v) [] b.record_size 0)
      go b sized (g ∷ gs) e =
          let size : b.record_size ≡ length (g ∷ gs) = ground (arith, e, sized.filtered) in
          let kept_rows =
            loop_kept (λ w. v) (λ i. get_or (g ∷ gs) i false) [] (g ∷ gs) 0
              (λ j. ap (λ i. get_or (g ∷ gs) i false) (omega arith)) in
          ground (arith, e, size, kept_rows)
