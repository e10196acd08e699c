-- ===== src/Storage/Delta.antt =====
-- The integer columns of a compressed partition: CompIntValBuilder of
-- src/pinusdb/storage/comp_val_builder.h, which writes the differences of the differences, and
-- DecodeIntVals of src/pinusdb/storage/comp_data_part.cpp, which reads them back. Differences of
-- int64 values wrap around. The types are int8 to int64 and datetime; the fixed point types are
-- left out. A varint that does
-- not fit its ten bytes would write nothing here. A call that fails returns the values stored
-- before; what it stores for the value that cannot be read is left out.
mod Tests
pub mod RoundTrip
use pinusdb.Prelude.{
  ℕ, zero, suc, ◌-◌, Bool, true, false, Option, none, some, List, [], ◌∷◌, ◌++◌, ◌==◌, not,
  if◌then◌else◌,
}
use pinusdb.Prelude.Int.{
  ℤ, pos, negsuc, pos_part, neg_part, sub_ℕ, ◌+ℤ◌, cast8, cast16, cast32, cast64,
}
use pinusdb.Value.{
  Floats, DbVal, PdbErr, ok, value_mismatch, record_fail, FieldType, code, data_type, get_int, int8,
  int16, int32, int64, datetime, null, type_int8, type_int16, type_int32, type_int64, type_datetime,
}
use pinusdb.Coding.{zigzag_encode64, zigzag_decode64, put_varint64, varint_decode64}

-- `a - b` of two int64 values.
abbrev pub sub64 : ℤ → ℤ → ℤ
sub64 a b = cast64 (a +ℤ sub_ℕ (neg_part b) (pos_part b))

-- `a + b` of two int64 values.
abbrev pub add64 : ℤ → ℤ → ℤ
add64 a b = cast64 (a +ℤ b)

pub record CompIntValBuilder : Type 0 where
  pub val_cnt : ℕ
  pub data_ : List ℕ
  pub pre_val : ℤ
  pub pre_delta : ℤ

-- CompIntValBuilder::CompIntValBuilder, and Reset.
abbrev pub new : CompIntValBuilder
new = record { val_cnt = 0; data_ = []; pre_val = pos 0; pre_delta = pos 0 }

-- Coding::PutVarint64(&data_, Coding::ZigzagEncode64(n))
unfoldable pub put_zigzag : List ℕ → ℤ → List ℕ
unfolding put_varint64 zigzag_encode64
put_zigzag dst n = elim (put_varint64 dst (zigzag_encode64 n)) [ none ↦ dst | some bs ↦ bs ]

module _ {F : Floats} where
  unfoldable pub append_val : FieldType → DbVal F → CompIntValBuilder → PdbErr × CompIntValBuilder
  unfolding put_zigzag
  append_val ty val s =
      let cur_val = get_int val in
      let delta = sub64 cur_val s.pre_val in
      let put : CompIntValBuilder = elim s.val_cnt [
        | zero ↦ record s { data_ = put_zigzag s.data_ cur_val }
        | suc zero ↦ record s { data_ = put_zigzag s.data_ delta; pre_delta = delta }
        | suc (suc n) ↦ record s {
          data_ = put_zigzag s.data_ (sub64 delta s.pre_delta);
          pre_delta = delta;
        }
      ] in
      if not (data_type val == code ty)
      then (value_mismatch, s)
      else (ok, record put { val_cnt = suc s.val_cnt; pre_val = cur_val })

  -- The values of a block, one after the other.
  unfoldable pub append_vals :
      FieldType → List (DbVal F) → CompIntValBuilder → PdbErr × CompIntValBuilder
  append_vals ty [] s = (ok, s)
  append_vals ty (v ∷ vs) s =
      let r = append_val ty v s in elim r.0 [ ok ↦ append_vals ty vs r.1 | e ↦ (e, r.1) ]

  -- SetInnerIntValue
  abbrev pub set_inner : FieldType → ℤ → DbVal F
  set_inner type_int8 n = int8 (cast8 n)
  set_inner type_int16 n = int16 (cast16 n)
  set_inner type_int32 n = int32 (cast32 n)
  set_inner type_int64 n = int64 n
  set_inner type_datetime n = datetime n
  set_inner _ n = null

  -- The loop over the values from the third on, of which `cnt` are left. A varint that cannot be
  -- read makes the call fail.
  unfoldable pub decode_loop : FieldType → ℕ → List ℕ → ℤ → ℤ → PdbErr × List (DbVal F)
  decode_loop ty zero p pre_val pre_delta = (ok, [])
  decode_loop ty (suc cnt) p pre_val pre_delta = elim (varint_decode64 p) [
    | none ↦ (record_fail, [])
    | some q ↦
        let cur_val = add64 (add64 pre_val pre_delta) (zigzag_decode64 q.0) in
        let rest = decode_loop ty cnt q.1 cur_val (sub64 cur_val pre_val) in
        (rest.0, set_inner ty cur_val ∷ rest.1)
  ]

  -- DecodeIntVals of `suc cnt` values, oldest first. A block has a value at least.
  unfoldable pub decode_int_vals : FieldType → ℕ → List ℕ → PdbErr × List (DbVal F)
  unfolding decode_loop
  decode_int_vals ty cnt p = elim (varint_decode64 p) [
    | none ↦ (record_fail, [])
    | some q ↦
        let first = zigzag_decode64 q.0 in
        elim cnt [
          | zero ↦ (ok, set_inner ty first ∷ [])
          | suc n ↦ elim (varint_decode64 q.1) [
            | none ↦ (record_fail, set_inner ty first ∷ [])
            | some q' ↦
                let second = add64 first (zigzag_decode64 q'.0) in
                let rest = decode_loop ty n q'.1 second (sub64 second first) in
                (rest.0, set_inner ty first ∷ set_inner ty second ∷ rest.1)
          ]
        ]
  ]
