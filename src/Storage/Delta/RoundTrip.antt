-- ===== src/Storage/Delta/RoundTrip.antt =====
-- Reading back the integer columns of a compressed partition (src/pinusdb/storage/comp_val_builder.h
-- and comp_data_part.cpp).
use pinusdb.Prelude.{
  ℕ, suc, ◌+◌, ◌^◌, ◌<◌, ◌≤◌, ◌≡◌, refl, some, List, [], ◌∷◌, ◌++◌, length, arith, ap, sym, ◌∙◌,
  All,
}
use mathlib.Core.List.{append_assoc, append-nil}
use pinusdb.Prelude.Int.{ℤ, pos, pos_part, neg_part, cast64, cast64-+ℤ, +ℤ_assoc, cast, ◌+ℤ◌, sub_ℕ}
use pinusdb.Value.{Floats, DbVal, ok, FieldType, code, data_type, get_int}
use pinusdb.Coding.{
  zigzag_encode64, zigzag_decode64, put_varint64, varint_encode64, varint_decode64,
}
use pinusdb.Coding.RoundTrip.{varint_decode64-encode64, zigzag_decode64-encode64}
use pinusdb.Storage.Delta.{
  sub64, add64, CompIntValBuilder, new, put_zigzag, append_val, append_vals, set_inner, decode_loop,
  decode_int_vals,
}

cast64-range : (a : ℤ) → (pos_part (cast64 a) < 2 ^ 63) × (neg_part (cast64 a) ≤ 2 ^ 63)
unfolding cast
cast64-range a = ground arith

+ℤ_comm : (a b : ℤ) → a +ℤ b ≡ b +ℤ a
unfolding ◌+ℤ◌
+ℤ_comm a b = ground arith

+ℤ_cancel : (a c : ℤ) → (c +ℤ sub_ℕ (neg_part a) (pos_part a)) +ℤ a ≡ c
unfolding ◌+ℤ◌
+ℤ_cancel a c = ground arith

+ℤ_cancel_two :
    (p d c : ℤ)
    → (c +ℤ sub_ℕ (neg_part p) (pos_part p)) +ℤ (sub_ℕ (neg_part d) (pos_part d) +ℤ (p +ℤ d)) ≡ c
unfolding ◌+ℤ◌
+ℤ_cancel_two p d c = ground arith

-- Wrapping either summand first does not change the wrapped sum.
wrap_right : (a b : ℤ) → cast64 (a +ℤ cast64 b) ≡ cast64 (b +ℤ a)
wrap_right a b = ap cast64 (+ℤ_comm a (cast64 b)) ∙ cast64-+ℤ b a

add64-sub64 : (a c : ℤ) → cast64 c ≡ c → add64 a (sub64 c a) ≡ c
add64-sub64 a c h = wrap_right a _ ∙ ap cast64 (+ℤ_cancel a c) ∙ h

add64-sub64-sub64 : (p d c : ℤ) → cast64 c ≡ c → add64 (add64 p d) (sub64 (sub64 c p) d) ≡ c
add64-sub64-sub64 p d c h =
    let e = c +ℤ sub_ℕ (neg_part p) (pos_part p) in
    let m = sub_ℕ (neg_part d) (pos_part d) in
    cast64-+ℤ (p +ℤ d) (cast64 (cast64 e +ℤ m))
    ∙ wrap_right (p +ℤ d) (cast64 e +ℤ m)
    ∙ ap cast64 (+ℤ_assoc (cast64 e) m (p +ℤ d))
    ∙ cast64-+ℤ e (m +ℤ (p +ℤ d))
    ∙ ap cast64 (+ℤ_cancel_two p d c)
    ∙ h

put_zigzag_decode :
    (dst : List ℕ) (n : ℤ)
    → cast64 n ≡ n
    → (bs : List ℕ) × (put_zigzag dst n ≡ dst ++ bs)
      × ((rest : List ℕ) → varint_decode64 (bs ++ rest) ≡ some (zigzag_encode64 n, rest))
      × (zigzag_decode64 (zigzag_encode64 n) ≡ n)
unfolding put_zigzag put_varint64 varint_encode64
put_zigzag_decode dst n h =
    let range : (pos_part n < 2 ^ 63) × (neg_part n ≤ 2 ^ 63) = ground (arith, cast64-range n, h) in
    let (same, fits) = zigzag_decode64-encode64 n range.0 range.1 in
    let (bs, e, d, l) = varint_decode64-encode64 (zigzag_encode64 n) [] fits in
    (bs, ground (arith, e), (λ rest. again bs e rest fits), same)
  where
    again :
        (bs : List ℕ)
        → varint_encode64 (zigzag_encode64 n) ≡ some bs
        → (rest : List ℕ) → zigzag_encode64 n < 2 ^ 64
        → varint_decode64 (bs ++ rest) ≡ some (zigzag_encode64 n, rest)
    again bs e rest fits =
        let (bs', e', d', l') = varint_decode64-encode64 (zigzag_encode64 n) rest fits in
        ground (arith, e, e', d')

cast64_idem : (a : ℤ) → cast64 (cast64 a) ≡ cast64 a
unfolding cast
cast64_idem a = ground arith

module _ {F : Floats} (ty : FieldType) where
  -- A value of the column's type, within the width of that type.
  abbrev pub IsStored : DbVal F → Type 0
  IsStored v =
      (data_type v ≡ code ty) × (cast64 (get_int v) ≡ get_int v) × (set_inner ty (get_int v) ≡ v)

  -- What the builder writes for the values from the third on, the loop reads back.
  record Written (vs : List (DbVal F)) (s t : CompIntValBuilder) (out : List ℕ) : Type 0 where
    appended : append_vals ty vs s ≡ (ok, t)
    extended : t.data_ ≡ s.data_ ++ out
    counted : t.val_cnt ≡ s.val_cnt + length vs

  append_step :
      (v : DbVal F) (vs : List (DbVal F)) (s s1 t : CompIntValBuilder) (bs out : List ℕ)
      → append_val ty v s ≡ (ok, s1)
      → s1.data_ ≡ s.data_ ++ bs
      → s1.val_cnt ≡ suc s.val_cnt
      → Written vs s1 t out
      → Written (v ∷ vs) s t (bs ++ out)
  unfolding append_vals
  append_step v vs s s1 t bs out e d n w = record {
    appended = ground (arith, e, w.appended);
    extended = w.extended ∙ ap (λ l. l ++ out) d ∙ append_assoc s.data_ bs out;
    counted = omega (arith, w.counted, n);
  }

  -- One value from the third on.
  append_third :
      (v : DbVal F) (s : CompIntValBuilder) (n : ℕ)
      → data_type v ≡ code ty
      → s.val_cnt ≡ suc (suc n)
      → append_val ty v s ≡ (
        ok,
        record {
          val_cnt = suc s.val_cnt;
          data_ = put_zigzag s.data_ (sub64 (sub64 (get_int v) s.pre_val) s.pre_delta);
          pre_val = get_int v;
          pre_delta = sub64 (get_int v) s.pre_val;
        },
      )
  unfolding append_val
  append_third v s n h e = ground (arith, h, e)

  decode_loop-append_vals :
      (vs : List (DbVal F)) (s : CompIntValBuilder) (n : ℕ)
      → All IsStored vs
      → s.val_cnt ≡ suc (suc n)
      → (t : CompIntValBuilder) × (out : List ℕ) × Written vs s t out
        × (decode_loop ty (length vs) out s.pre_val s.pre_delta ≡ (ok, vs))
  unfolding append_vals decode_loop
  decode_loop-append_vals [] s n h e = (
    s,
    [],
    record { appended = refl; extended = sym (append-nil s.data_); counted = omega arith },
    refl,
  )
  decode_loop-append_vals (v ∷ vs) s n ((ty_ok, range, back), hs) e =
      let c = get_int v in
      let dd = sub64 (sub64 c s.pre_val) s.pre_delta in
      let (bs, put, read, same) = put_zigzag_decode s.data_ dd (cast64_idem _) in
      let s1 : CompIntValBuilder = record {
        val_cnt = suc s.val_cnt;
        data_ = put_zigzag s.data_ dd;
        pre_val = c;
        pre_delta = sub64 c s.pre_val;
      } in
      let (t, out, w, d) = decode_loop-append_vals vs s1 (suc n) hs (ap suc e) in
      let cur : add64 (add64 s.pre_val s.pre_delta) dd ≡ c =
        add64-sub64-sub64 s.pre_val s.pre_delta c range in
      (
        t,
        bs ++ out,
        append_step v vs s s1 t bs out (append_third v s n ty_ok e) put refl w,
        ground (arith, read out, same, cur, back, d),
      )

  append_first :
      (v : DbVal F)
      → data_type v ≡ code ty
      → append_val ty v new ≡ (
        ok,
        record {
          val_cnt = 1;
          data_ = put_zigzag [] (get_int v);
          pre_val = get_int v;
          pre_delta = pos 0;
        },
      )
  unfolding append_val
  append_first v h = ground (arith, h)

  append_second :
      (v : DbVal F) (s : CompIntValBuilder)
      → data_type v ≡ code ty
      → s.val_cnt ≡ 1
      → append_val ty v s ≡ (
        ok,
        record {
          val_cnt = suc s.val_cnt;
          data_ = put_zigzag s.data_ (sub64 (get_int v) s.pre_val);
          pre_val = get_int v;
          pre_delta = sub64 (get_int v) s.pre_val;
        },
      )
  unfolding append_val
  append_second v s h e = ground (arith, h, e)

  -- A column of integers, not empty, each of the column's type and within its width: appending
  -- succeeds, the builder counts the values, and decoding that many values from what it wrote gives
  -- the column back, whatever the differences are.
  pub decode_int_vals-append_vals :
      (v : DbVal F) (vs : List (DbVal F))
      → All IsStored (v ∷ vs)
      → let r = append_vals ty (v ∷ vs) new in
        (r.0 ≡ ok)
        × (r.1.val_cnt ≡ suc (length vs))
        × (decode_int_vals ty (length vs) r.1.data_ ≡ (ok, v ∷ vs))
  unfolding append_vals decode_int_vals
  decode_int_vals-append_vals v [] ((ty_ok, range, back), hs) =
      let (bs, put, read, same) = put_zigzag_decode [] (get_int v) range in
      let whole = ap varint_decode64 (sym (append-nil bs)) ∙ read [] in
      ground (arith, append_first v ty_ok, put, whole, same, back)
  decode_int_vals-append_vals v (w ∷ ws) ((ty_ok, range, back), ((ty_ok', range', back'), hs)) =
      let (bs, put, read, same) = put_zigzag_decode [] (get_int v) range in
      let delta = sub64 (get_int w) (get_int v) in
      let s1 : CompIntValBuilder = record {
        val_cnt = 1;
        data_ = put_zigzag [] (get_int v);
        pre_val = get_int v;
        pre_delta = pos 0;
      } in
      let (bs', put', read', same') = put_zigzag_decode s1.data_ delta (cast64_idem _) in
      let s2 : CompIntValBuilder = record {
        val_cnt = 2;
        data_ = put_zigzag s1.data_ delta;
        pre_val = get_int w;
        pre_delta = delta;
      } in
      let (t, out, written, d) = decode_loop-append_vals ws s2 0 hs refl in
      let cur : add64 (get_int v) delta ≡ get_int w = add64-sub64 (get_int v) (get_int w) range' in
      let bytes : t.data_ ≡ bs ++ (bs' ++ out) =
        written.extended
        ∙ ap (λ l. l ++ out) (put' ∙ ap (λ l. l ++ bs') put)
        ∙ append_assoc bs bs' out in
      let all : append_vals ty (v ∷ w ∷ ws) new ≡ (ok, t) =
        ground (arith, append_first v ty_ok, append_second w s1 ty_ok' refl, written.appended) in
      rw all (
        refl,
        omega (arith, written.counted),
        rw bytes (ground (arith, read (bs' ++ out), read' out, same, same', cur, back, back', d)),
      )
