-- ===== src/Storage/Delta/Tests.antt =====
-- Concrete columns for src/pinusdb/storage/comp_val_builder.h.
use pinusdb.Prelude.{◌≡◌, refl, List, [], ◌∷◌}
use pinusdb.Prelude.Int.{pos, negsuc, cast, ◌+ℤ◌}
use pinusdb.Value.{DbVal, ok, int16, datetime, type_int16, type_datetime}
use pinusdb.Value.Integral.{integral}
use pinusdb.Coding.{zigzag_encode64, put_varint64, varint_loop}
use pinusdb.Storage.Delta.{new, put_zigzag, append_val, append_vals, decode_int_vals}
use pinusdb.Storage.Delta.RoundTrip.{decode_int_vals-append_vals}

abbrev stamps : List (DbVal integral)
stamps = datetime (pos 2000) ∷ datetime (pos 3000) ∷ []

-- 1000, 2000, 3000: the first value, the first difference, and a difference of differences of 0.
bytes_of_stamps :
    (append_vals type_datetime (datetime (pos 1000) ∷ stamps) new).1.data_
    ≡ 208 ∷ 15 ∷ 208 ∷ 15 ∷ 0 ∷ []
unfolding append_vals append_val put_zigzag put_varint64 zigzag_encode64 cast ◌+ℤ◌ varint_loop
bytes_of_stamps = refl

abbrev column : List (DbVal integral)
column = int16 (negsuc 32767) ∷ int16 (pos 32767) ∷ int16 (pos 0) ∷ []

decode_int_vals-append_vals_example :
    let r = append_vals type_int16 (int16 (pos 7) ∷ column) new in
    (r.0 ≡ ok)
    × (r.1.val_cnt ≡ 4)
    × (decode_int_vals type_int16 3 r.1.data_ ≡ (ok, int16 (pos 7) ∷ column))
unfolding cast
decode_int_vals-append_vals_example =
    decode_int_vals-append_vals type_int16 (int16 (pos 7)) column
      ((refl, refl, refl), ((refl, refl, refl), ((refl, refl, refl), ((refl, refl, refl), tt))))
