-- ===== src/Query/Conditions/Ranges.antt =====
-- The ranges, the device filter and the constant test that BuildCondition of
-- src/pinusdb/query/condition_filter.cpp takes from the conditions: what they exclude no record
-- could pass.
use pinusdb.Prelude.{
  Option, ◌≡◌, refl, true, false, none, some, List, [], ◌∷◌, ◌++◌, arith, ap, sym, ◌∙◌, get_or,
  ◌==◌, Bool-cases, inl, inr,
}
use pinusdb.Prelude.Int.{ℤ, pos, ◌≤ℤ◌}
use pinusdb.Value.{Floats, DbVal, PdbErr, ok, is_true, null, int64, datetime}
use pinusdb.Query.Items.{ValueItem, int64_max}
use pinusdb.Query.Conditions.{
  ConditionFilter, ExprValue, new, note_const, note_dev_id, note_tstamp, build_condition,
  run_condition, filter_dev_id, is_always_false, is_false, push_condition, min_microsecond,
  max_microsecond,
}

module _ {F : Floats} where
  -- A record with the device id `d` and the time stamp `t`, within what the database stores.
  pub record InWindow (r : List (DbVal F)) (d t : ℤ) : Type 0 where
    pub device : get_or r 0 null ≡ int64 d
    pub low_id : pos 1 ≤ℤ d
    pub high_id : d ≤ℤ int64_max
    pub stamp : get_or r 1 null ≡ datetime t
    pub low_time : min_microsecond ≤ℤ t
    pub high_time : t ≤ℤ max_microsecond

  -- What BuildCondition relies on: the ranges of an item hold for each record of which it is true,
  -- a constant item needs no record, and a condition on the device id needs only that.
  pub record IsRanged (it : ValueItem F) : Type 0 where
    pub dev_range :
        (r : List (DbVal F)) (d t lo hi : ℤ)
        → InWindow r d t
        → it.dev_id_range ≡ some (lo, hi)
        → is_true (it.get_value r).1 ≡ true
        → (lo ≤ℤ d) × (d ≤ℤ hi)
    pub tstamp_range :
        (r : List (DbVal F)) (d t lo hi : ℤ)
        → InWindow r d t
        → it.tstamp_range ≡ some (lo, hi)
        → is_true (it.get_value r).1 ≡ true
        → (lo ≤ℤ t) × (t ≤ℤ hi)
    pub constant :
        it.is_const_value ≡ true → (r : List (DbVal F)) → it.get_value r ≡ it.get_value []
    pub dev_only :
        it.is_dev_id_condition ≡ true
        → (r : List (DbVal F)) → it.get_value r ≡ it.get_value (get_or r 0 null ∷ [])

  abbrev pub AllRanged : ExprValue F → Type 0
  AllRanged (ExprValue.and_expr l r) = AllRanged l × AllRanged r
  AllRanged ExprValue.and_missing = Unit
  AllRanged (ExprValue.general none) = Unit
  AllRanged (ExprValue.general (some it)) = IsRanged it

  -- Nothing in the filter excludes the device `d` or the time `t`.
  record Admits (c : ConditionFilter F) (d t : ℤ) : Type 0 where
    min_dev : c.min_dev_id ≤ℤ d
    max_dev : d ≤ℤ c.max_dev_id
    min_ts : c.min_tstamp ≤ℤ t
    max_ts : t ≤ℤ c.max_tstamp
    devices : filter_dev_id c.dev_id_condi_vec d ≡ true
    not_closed : c.always_false ≡ false

  run_condition-append :
      (its : List (ValueItem F)) (it : ValueItem F) (r : List (DbVal F))
      → run_condition (its ++ (it ∷ [])) r ≡ (ok, true)
      → (run_condition its r ≡ (ok, true))
        × ((it.get_value r).0 ≡ ok)
        × (is_true (it.get_value r).1 ≡ true)
  unfolding run_condition
  run_condition-append [] it r h = ground (arith, h)
  run_condition-append (i ∷ its) it r h = ground (arith, h, run_condition-append its it r)

  filter_dev_id-append :
      (its : List (ValueItem F)) (it : ValueItem F) (d : ℤ)
      → filter_dev_id its d ≡ true
      → (it.get_value (int64 d ∷ [])).0 ≡ ok
      → is_true (it.get_value (int64 d ∷ [])).1 ≡ true
      → filter_dev_id (its ++ (it ∷ [])) d ≡ true
  unfolding filter_dev_id
  filter_dev_id-append [] it d h e v = ground (arith, e, v)
  filter_dev_id-append (i ∷ its) it d h e v = ground (arith, h, filter_dev_id-append its it d)

  not_false : (v : DbVal F) → is_true v ≡ true → is_false v ≡ false
  not_false v h = ground (arith, h)

  module _ (r : List (DbVal F)) (d t : ℤ) (window : InWindow r d t) (it : ValueItem F)
      (ranged : IsRanged it) (fine : (it.get_value r).0 ≡ ok)
      (holds : is_true (it.get_value r).1 ≡ true) where
    note_const-Admits : (c : ConditionFilter F) → Admits c d t → Admits (note_const it c) d t
    unfolding note_const
    note_const-Admits c a = elim (Bool-cases it.is_const_value) [
      | inl k ↦
          let same = ranged.constant k r in
          let value = not_false (it.get_value r).1 holds in
          let kept : note_const it c ≡ c = ground (arith, k, same, value) in rw kept a
      | inr k ↦ let kept : note_const it c ≡ c = ground (arith, k) in rw kept a
    ]

    note_dev_id-Admits : (c : ConditionFilter F) → Admits c d t → Admits (note_dev_id it c) d t
    unfolding note_dev_id
    note_dev_id-Admits c a = elim (Bool-cases it.is_dev_id_condition) [
      | inl k ↦
          let same = ranged.dev_only k r in
          let tail = ap (λ v. it.get_value (v ∷ [])) window.device in
          let devices =
            filter_dev_id-append c.dev_id_condi_vec it d a.devices
              (ap (λ p. p.0) (sym (same ∙ tail)) ∙ fine)
              (ap (λ p. is_true p.1) (sym (same ∙ tail)) ∙ holds) in
          go it.dev_id_range refl k devices
      | inr k ↦ let kept : note_dev_id it c ≡ c = ground (arith, k) in rw kept a
    ]
      where
        go :
            (o : Option (ℤ × ℤ))
            → it.dev_id_range ≡ o
            → it.is_dev_id_condition ≡ true
            → filter_dev_id (c.dev_id_condi_vec ++ (it ∷ [])) d ≡ true
            → Admits (note_dev_id it c) d t
        go none e k f = ground (arith, e, k, f, a)
        go (some (lo, hi)) e k f =
            ground (arith, e, k, f, a, ranged.dev_range r d t lo hi window e holds)

    note_tstamp-Admits : (c : ConditionFilter F) → Admits c d t → Admits (note_tstamp it c) d t
    unfolding note_tstamp
    note_tstamp-Admits c a = go it.tstamp_range refl
      where
        go : (o : Option (ℤ × ℤ)) → it.tstamp_range ≡ o → Admits (note_tstamp it c) d t
        go none e = ground (arith, e, a)
        go (some (lo, hi)) e = ground (arith, e, a, ranged.tstamp_range r d t lo hi window e holds)

  module _ (r : List (DbVal F)) (d t : ℤ) (window : InWindow r d t) where
    -- Records that the conditions accept are admitted.
    abbrev IsSound : ConditionFilter F → Type 0
    IsSound c = run_condition c.condition_vec r ≡ (ok, true) → Admits c d t

    pushed : (it : ValueItem F) (c : ConditionFilter F) → IsSound c → IsSound (push_condition it c)
    pushed it c sound h =
        let a = sound (run_condition-append c.condition_vec it r h).0 in
        record {
          min_dev = a.min_dev;
          max_dev = a.max_dev;
          min_ts = a.min_ts;
          max_ts = a.max_ts;
          devices = a.devices;
          not_closed = a.not_closed;
        }

    notes-vec :
        (it : ValueItem F) (c : ConditionFilter F)
        → (note_tstamp it (note_dev_id it (note_const it c))).condition_vec ≡ c.condition_vec
    unfolding note_tstamp note_dev_id note_const
    notes-vec it c = ground arith

    noted :
        (it : ValueItem F) (c : ConditionFilter F)
        → IsRanged it
        → IsSound c
        → IsSound (note_tstamp it (note_dev_id it (note_const it (push_condition it c))))
    noted it c ranged sound h =
        let all = ap (λ v. run_condition v r) (sym (notes-vec it (push_condition it c))) ∙ h in
        let (rest, fine, holds) = run_condition-append c.condition_vec it r all in
        note_tstamp-Admits r d t window it ranged fine holds _ (
          note_dev_id-Admits r d t window it ranged fine holds _
            (note_const-Admits r d t window it ranged fine holds _ (pushed it c sound all)))

    both :
        (left right : ExprValue F) (c : ConditionFilter F)
        → IsSound (build_condition left c).1
        → IsSound (build_condition right (build_condition left c).1).1
        → IsSound (build_condition (ExprValue.and_expr left right) c).1
    unfolding build_condition
    both left right c first second = go (build_condition left c).0 refl
      where
        go :
            (x : PdbErr)
            → (build_condition left c).0 ≡ x
            → IsSound (build_condition (ExprValue.and_expr left right) c).1
        go ok e = rw (build_condition, e) second
        go _ e = rw (build_condition, e) first

    build_condition-IsSound :
        (e : ExprValue F) (c : ConditionFilter F)
        → AllRanged e
        → IsSound c
        → IsSound (build_condition e c).1
    unfolding build_condition
    build_condition-IsSound (ExprValue.and_expr left right) c (hl, hr) sound =
        let first = build_condition-IsSound left c hl sound in
        both left right c first (build_condition-IsSound right (build_condition left c).1 hr first)
    build_condition-IsSound ExprValue.and_missing c h sound = sound
    build_condition-IsSound (ExprValue.general none) c h sound = sound
    build_condition-IsSound (ExprValue.general (some it)) c h sound =
        elim (Bool-cases (it.value_type == 1)) [
          | inl b ↦ rw b (noted it c h sound)
          | inr b ↦ rw b (pushed it c sound)
        ]

  -- A record that all the conditions accept is excluded by nothing that BuildCondition takes from
  -- them: its device id and its time stamp lie in the ranges, FilterDevId lets its device pass and
  -- AlwaysFalse does not hold. The items are such that their ranges hold for each record of which
  -- they are true, and the record lies within what the database stores.
  pub build_condition_lem :
      (e : ExprValue F) (r : List (DbVal F)) (d t : ℤ)
      → AllRanged e
      → InWindow r d t
      → let c = (build_condition e new).1 in
        run_condition c.condition_vec r ≡ (ok, true)
        → (c.min_dev_id ≤ℤ d)
          × (d ≤ℤ c.max_dev_id)
          × (c.min_tstamp ≤ℤ t)
          × (t ≤ℤ c.max_tstamp)
          × (filter_dev_id c.dev_id_condi_vec d ≡ true)
          × (is_always_false c ≡ false)
  build_condition_lem e r d t ranged window h =
      let start : Admits new d t = record {
        min_dev = window.low_id;
        max_dev = window.high_id;
        min_ts = window.low_time;
        max_ts = window.high_time;
        devices = unfold filter_dev_id in refl;
        not_closed = refl;
      } in
      let a = build_condition-IsSound r d t window e new ranged (λ k. start) h in
      (
        a.min_dev,
        a.max_dev,
        a.min_ts,
        a.max_ts,
        a.devices,
        unfold is_always_false in ground (arith, a),
      )
