-- ===== src/Page/Places.antt =====
-- The search of InsertRec of src/pinusdb/storage/normal_data_page.cpp.
use pinusdb.Prelude.{
  if_cases, ℕ, zero, suc, ◌+◌, ◌-◌, ◌/◌, ◌≤◌, ◌<◌, ◌≡◌, ◌⊎◌, inl, inr, refl, true, false, Option,
  some, List, [], ◌∷◌, length, get_or, arith, ltb, leb, ltb→lt, ltb→ge, Bool-cases,
}
use pinusdb.Prelude.Int.{ℤ, pos, ltb_ℤ, ◌<ℤ◌, ◌≤ℤ◌}
use pinusdb.Value.{ok}
use pinusdb.Page.{NormalDataPage, Place, slot, get_rec_tstamp, place_loop, find_place, same_ts}
use pinusdb.Page.Records.{IsPage, IsRec, Ascending, stamp, All-get_or, stamp_at-rec}

abbrev pub stamp_of : List (List ℕ) → ℕ → ℤ
stamp_of rs i = stamp (get_or rs i [])

pub Ascending_lt :
    (rs : List (List ℕ)) (i j : ℕ)
    → Ascending rs
    → i < j
    → j < length rs
    → stamp_of rs i <ℤ stamp_of rs j
Ascending_lt [] i j a h k = absurd (omega arith)
Ascending_lt (r ∷ rs) i zero a h k = absurd (omega arith)
Ascending_lt (r ∷ rs) zero (suc j) (a, b) h k =
    All-get_or (λ s. stamp r <ℤ stamp s) rs j a (omega arith)
Ascending_lt (r ∷ rs) (suc i) (suc j) (a, b) h k = Ascending_lt rs i j b (omega arith) (omega arith)

-- The records before the place are earlier, those from it on later.
abbrev pub Before : List (List ℕ) → ℤ → ℕ → Type 0
Before rs ts k = (i : ℕ) → i < k → stamp_of rs i <ℤ ts

abbrev pub Behind : List (List ℕ) → ℤ → ℕ → Type 0
Behind rs ts k = (i : ℕ) → k ≤ i → i < length rs → ts <ℤ stamp_of rs i

abbrev pub Cut : List (List ℕ) → ℤ → ℕ → Type 0
Cut rs ts k = (k ≤ length rs) × Before rs ts k × Behind rs ts k

abbrev pub Same : ℤ → ℤ → Type 0
Same a b = (a ≤ℤ b) × (b ≤ℤ a)

-- The search ends at the record of the time, or beside the place where it belongs.
abbrev pub IsPlace : List (List ℕ) → ℤ → Place → Type 0
IsPlace rs ts q =
    (q.ret_val ≡ ok)
    × (q.rec_idx < length rs)
    × ((Same q.cur_ts ts × (q.cur_ts ≡ stamp_of rs q.rec_idx))
        ⊎ ((q.cur_ts <ℤ ts) × Cut rs ts (suc q.rec_idx))
        ⊎ ((ts <ℤ q.cur_ts) × Cut rs ts q.rec_idx))

module _ (p : NormalDataPage) (rs : List (List ℕ)) (h : IsPage p rs) where
  pub get_rec_tstamp-stamp :
      (i : ℕ) (cur : ℤ) → i < length rs → get_rec_tstamp i cur p ≡ (ok, stamp_of rs i)
  unfolding get_rec_tstamp
  get_rec_tstamp-stamp i cur b =
      let c = h.counted in
      let within : leb p.rec_cnt i ≡ false = ground (arith, c) in
      let e =
        stamp_at-rec p.page_data (slot p.page_data i) (get_or rs i [])
          (All-get_or IsRec rs i h.recs b) (h.holds i (omega (arith, c))).2 in
      rw (within, e) refl

  module _ (ts : ℤ) where
    -- The last probe is just outside the range.
    abbrev Edge : ℕ → ℕ → ℕ → ℤ → Type 0
    Edge lwr hi idx cur =
        (lwr < hi)
        ⊎ ((idx < length rs) × (((cur <ℤ ts) × (lwr ≡ suc idx)) ⊎ ((ts <ℤ cur) × (hi ≡ idx))))

    abbrev IsFound : Option Place → Type 0
    IsFound o = (q : Place) × (o ≡ some q) × IsPlace rs ts q

    same : (t : ℤ) → same_ts t ts ≡ true → Same t ts
    same t e = ground arith

    apart : (t : ℤ) → same_ts t ts ≡ false → ltb_ℤ t ts ≡ false → ts <ℤ t
    apart t d e = ground arith

    -- The order carries a probe over to the records beside it.
    earlier : (k : ℕ) → k < length rs → stamp_of rs k <ℤ ts → Before rs ts (k + 1)
    earlier k b e i l = elim (Bool-cases (ltb i k)) [
      | inl f ↦ let c = Ascending_lt rs i k h.sorted (ltb→lt i k f) b in omega arith
      | inr f ↦ let s : i ≡ k = omega (arith, ltb→ge i k f) in rw s e
    ]

    later : (k : ℕ) → k < length rs → ts <ℤ stamp_of rs k → Behind rs ts k
    later k b e i l m = elim (Bool-cases (ltb k i)) [
      | inl f ↦ let c = Ascending_lt rs k i h.sorted (ltb→lt k i f) m in omega arith
      | inr f ↦ let s : i ≡ k = omega (arith, ltb→ge k i f) in rw s e
    ]

    Edge-IsPlace :
        (lwr hi idx : ℕ) (cur : ℤ)
        → hi ≤ length rs
        → Before rs ts lwr
        → Behind rs ts hi
        → hi ≡ lwr
        → Edge lwr hi idx cur
        → IsPlace rs ts (record { ret_val = ok; rec_idx = idx; cur_ts = cur })
    Edge-IsPlace lwr hi idx cur n a b l (inl r) = absurd (omega arith)
    Edge-IsPlace lwr hi idx cur n a b l (inr (r, inl (s, t))) =
        let same : hi ≡ suc idx = omega arith in
        (refl, r, inr (inl (s, (omega arith, rw (← t) a, rw (← same) b))))
    Edge-IsPlace lwr hi idx cur n a b l (inr (r, inr (s, t))) =
        let same : lwr ≡ idx = omega arith in
        (refl, r, inr (inr (s, (omega arith, rw (← same) a, rw (← t) b))))

    place_loop-IsPlace :
        (fuel lwr hi idx : ℕ) (cur : ℤ)
        → hi < lwr + fuel
        → lwr ≤ hi
        → hi ≤ length rs
        → Before rs ts lwr
        → Behind rs ts hi
        → Edge lwr hi idx cur
        → IsFound (place_loop p ts fuel lwr hi idx cur)
    unfolding place_loop
    place_loop-IsPlace zero lwr hi idx cur f o n a b g = absurd (omega arith)
    place_loop-IsPlace (suc fuel) lwr hi idx cur f o n a b g =
        if_cases IsFound (ltb lwr hi)
          (λ e.
            let l = ltb→lt lwr hi e in
            let mid = (lwr + (hi - 1)) / 2 in
            let t = stamp_of rs mid in
            rw (get_rec_tstamp-stamp mid cur (omega arith)) (
              if_cases IsFound (same_ts t ts)
                (λ e. (_, refl, (refl, omega arith, inl (same t e, refl))))
                (λ d.
                  if_cases IsFound (ltb_ℤ t ts)
                    (λ e.
                      place_loop-IsPlace fuel (mid + 1) hi mid t (omega arith) (omega arith) n
                        (earlier mid (omega arith) (ltb→lt _ _ e)) b
                        (inr (omega arith, inl (ltb→lt _ _ e, omega arith))))
                    (λ e.
                      place_loop-IsPlace fuel lwr mid mid t (omega arith) (omega arith)
                        (omega arith) a (later mid (omega arith) (apart t d e))
                        (inr (omega arith, inr (apart t d e, refl)))))))
          (λ e. (_, refl, Edge-IsPlace lwr hi idx cur n a b (omega (arith, ltb→ge lwr hi e)) g))

    -- On a page with records, the search ends within its fuel at the record of the time, or beside
    -- the place of the index where the time belongs.
    pub find_place-IsPlace :
        0 < length rs → (q : Place) × (find_place p ts ≡ some q) × IsPlace rs ts q
    unfolding find_place
    find_place-IsPlace some_recs =
        let c = h.counted in
        let last : p.rec_cnt - 1 < length rs = omega (arith, c) in
        let got = get_rec_tstamp-stamp (p.rec_cnt - 1) (pos 0) last in
        let t = stamp_of rs (p.rec_cnt - 1) in
        let not_empty : leb p.rec_cnt 0 ≡ false = ground (arith, c) in
        rw (not_empty, got)
          (if_cases IsFound (ltb_ℤ ts t)
            (λ e.
              place_loop-IsPlace (suc p.rec_cnt) 0 p.rec_cnt (p.rec_cnt - 1) t (omega arith)
                (omega arith) (omega (arith, c)) (λ i b. absurd (omega arith))
                (λ i l b. absurd (omega (arith, c))) (inl (omega (arith, c))))
            (λ e. (
              _,
              refl,
              (
                refl,
                last,
                elim (Bool-cases (same_ts t ts)) [
                  | inl f ↦ inl (same t f, refl)
                  | inr f ↦
                      let late : t <ℤ ts = ground arith in
                      let next : p.rec_cnt - 1 + 1 ≡ length rs = omega (arith, c) in
                      let n' : p.rec_cnt - 1 + 1 ≡ suc (p.rec_cnt - 1) = omega arith in
                      inr (
                        inl (
                          late,
                          (
                            omega (arith, c),
                            rw (← n') (earlier (p.rec_cnt - 1) last late),
                            λ i l b. absurd (omega (arith, c)),
                          ),
                        ))
                ],
              ),
            )))
