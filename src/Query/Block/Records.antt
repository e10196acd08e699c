-- ===== src/Query/Block/Records.antt =====
-- Which record `get_record_value` of src/pinusdb/query/block_values.h returns.
use pinusdb.Prelude.{ℕ, ◌≤◌, ◌<◌, ◌≡◌, ◌≢◌, ◌⊎◌, [], length, get_or, arith}
use pinusdb.Value.{Floats, ok, invalid_param}
use pinusdb.Query.Block.{BlockValues, kept, get_record_value, row}

module _ {F : Floats} where
  -- The cache of positions is that of the filter, or will be filled from it.
  abbrev pub IsFresh : BlockValues F → Type 0
  IsFresh b = (length b.result_idx_vec ≢ b.result_size) ⊎ (b.result_idx_vec ≡ kept b.filter_vec 0)

  -- With a filter and a fresh cache the record `i` of the result is the one at the place `i` among
  -- the positions that the filter keeps, and the cache stays fresh; past the result the call fails.
  pub get_record_value_lem :
      (i : ℕ) (b : BlockValues F)
      → b.filter_vec ≢ []
      → IsFresh b
      → let r = get_record_value i b in
        (i < b.result_size
          → (r.0 ≡ ok) × (r.1 ≡ row b (get_or (kept b.filter_vec 0) i 0)) × IsFresh r.2)
        × (b.result_size ≤ i → r.0 ≡ invalid_param)
  unfolding get_record_value
  get_record_value_lem i b filtered fresh = (ground arith, ground arith)

  pub get_record_value_sizes :
      (i : ℕ) (b : BlockValues F)
      → ((get_record_value i b).2.result_size ≡ b.result_size)
        × ((get_record_value i b).2.record_size ≡ b.record_size)
        × (b.result_size ≤ i → (get_record_value i b).0 ≡ invalid_param)
  unfolding get_record_value
  get_record_value_sizes i b = (ground arith, ground arith, ground arith)

  pub get_record_value_whole :
      (i : ℕ) (b : BlockValues F)
      → b.filter_vec ≡ []
      → i < b.result_size
      → get_record_value i b ≡ (ok, row b i, b)
  unfolding get_record_value
  get_record_value_whole i b e h = ground arith
