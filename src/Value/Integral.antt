-- ===== src/Value/Integral.antt =====
-- An instance of the parameter `Floats`, for tests: floats are integers, and no test depends on
-- rounding.
use pinusdb.Prelude.Int.{ℤ, pos, to_word, leb_ℤ, ltb_ℤ, ◌+ℤ◌}
use pinusdb.Prelude.{◌&&◌, ◌^◌}
use pinusdb.Value.{Floats}

abbrev pub integral : Floats
integral = record {
  Float = ℤ;
  Double = ℤ;
  zero_double = pos 0;
  add_double = λ a b. a +ℤ b;
  widen = λ a. a;
  narrow = λ a. a;
  div_int64 = λ a b. a;
  int64_of_double = λ a. a;
  double_of_int64 = λ a. a;
  le_float = leb_ℤ;
  word_of_float = λ a. a;
  float_of_int64 = λ a. a;
  encode_float = to_word (2 ^ 32);
  encode_double = to_word (2 ^ 64);
  le_double = leb_ℤ;
  lt_double = ltb_ℤ;
  eq_double = λ a b. leb_ℤ a b && leb_ℤ b a;
}
