-- ===== src/Page/Insert.antt =====
-- InsertRec of src/pinusdb/storage/normal_data_page.cpp: the page is a map by time of limited size.
use pinusdb.Prelude.{
  All-map, ℕ, zero, suc, ◌+◌, ◌*◌, ◌≤◌, ◌<◌, ◌≡◌, ◌≢◌, ◌⊎◌, inl, inr, refl, Bool, true, false, not,
  ◌&&◌, Option, some, List, [], ◌∷◌, length, get_or, All, arith, ltb, leb, ltb→lt, ltb→ge, ge→ltb,
  lt→ltb, Bool-cases, if◌then◌else◌, if_cases,
}
use pinusdb.Prelude.Int.{ℤ, pos, negsuc, ltb_ℤ, ◌<ℤ◌}
use pinusdb.Value.{PdbErr, ok, record_exist}
use pinusdb.Page.{
  NormalDataPage, Place, find_place, same_ts, head_size, rec_idx_len, page_size, insert_at,
  insert_rec, insert_in, clean_up,
}
use pinusdb.Page.Records.{
  IsPage, IsRec, Ascending, stamp, total, All-get_or, put_rec, has_stamp, insert_spec,
}
use pinusdb.Page.Edits.{put_at, set_at, All-put_at, All-set_at}
use pinusdb.Page.Push.{push_rec-IsPage}
use pinusdb.Page.Swap.{swap_rec-IsPage}
use pinusdb.Page.Clean.{clean_up-IsPage}
use pinusdb.Page.Places.{stamp_of, Cut, Same, IsPlace, find_place-IsPlace}

All_of :
    (P : List ℕ → Type 0) (rs : List (List ℕ))
    → ((i : ℕ) → i < length rs → P (get_or rs i []))
    → All P rs
All_of P [] h = tt
All_of P (r ∷ rs) h = (h 0 (omega arith), All_of P rs (λ i b. h (suc i) (omega arith)))

module _ (r : List ℕ) where
  -- Where no record has the time, one is put into its place.
  Cut-put_rec :
      (rs : List (List ℕ)) (k : ℕ)
      → Ascending rs
      → Cut rs (stamp r) k
      → (put_rec r rs ≡ put_at k r rs)
        × (has_stamp (stamp r) rs ≡ false)
        × Ascending (put_at k r rs)
  unfolding put_rec has_stamp
  Cut-put_rec [] zero a c = (refl, refl, (tt, tt))
  Cut-put_rec [] (suc k) a (c, _, _) = absurd (omega arith)
  Cut-put_rec (s ∷ rs) zero a (c, before, behind) =
      let later = behind 0 (omega arith) (omega arith) in
      (
        ground arith,
        none_of (s ∷ rs) (λ i. behind i (omega arith)),
        (All_of (λ t. stamp r <ℤ stamp t) (s ∷ rs) (λ i. behind i (omega arith)), a),
      )
    where
      none_of :
          (rs : List (List ℕ))
          → ((i : ℕ) → i < length rs → stamp r <ℤ stamp_of rs i)
          → has_stamp (stamp r) rs ≡ false
      none_of [] h = refl
      none_of (t ∷ ts) h =
          let later = h 0 (omega arith) in
          let rest = none_of ts (λ i b. h (suc i) (omega arith)) in ground (arith, rest)
  Cut-put_rec (s ∷ rs) (suc k) (all, a) (c, before, behind) =
      let earlier = before 0 (omega arith) in
      let (e, n, asc) = Cut-put_rec rs k a (
        omega arith,
        λ i b. before (suc i) (omega arith),
        λ i b d. behind (suc i) (omega arith) (omega arith),
      ) in
      (
        ground (arith, e),
        ground (arith, n),
        (All-put_at (λ t. stamp s <ℤ stamp t) k r rs earlier all, asc),
      )

  -- Where a record has the time, the new one takes its place.
  Same-put_rec :
      (rs : List (List ℕ)) (k : ℕ)
      → Ascending rs
      → k < length rs
      → Same (stamp_of rs k) (stamp r)
      → (put_rec r rs ≡ set_at k r rs) × (has_stamp (stamp r) rs ≡ true) × Ascending (set_at k r rs)
  unfolding put_rec has_stamp
  Same-put_rec [] k a b c = absurd (omega arith)
  Same-put_rec (s ∷ rs) zero (all, a) b (c, d) =
      (ground arith, ground arith, (All-map (λ t (l : stamp s <ℤ stamp t). omega arith) rs all, a))
  Same-put_rec (s ∷ rs) (suc k) (all, a) b (c, d) =
      let (e, n, asc) = Same-put_rec rs k a (omega arith) (c, d) in
      let l = All-get_or (λ t. stamp s <ℤ stamp t) rs k all (omega arith) in
      let earlier : stamp s <ℤ stamp r = omega arith in
      (
        ground (arith, e),
        ground (arith, n),
        (All-set_at (λ t. stamp s <ℤ stamp t) k r rs earlier all, asc),
      )

not_zero : (t : ℤ) → t ≢ pos 0 → same_ts (pos 0) t ≡ false
not_zero (pos zero) n = absurd (n refl)
not_zero (pos (suc m)) n = ground arith
not_zero (negsuc m) n = ground arith

module _ (rec : List ℕ) (replace : Bool) (k : IsRec rec) where
  abbrev ts : ℤ
  ts = stamp rec

  -- What an insertion is to do where the record fits.
  abbrev fit_spec : List (List ℕ) → PdbErr × List (List ℕ)
  fit_spec rs = if has_stamp ts rs && not replace then (record_exist, rs) else (ok, put_rec rec rs)

  abbrev IsDone : PdbErr × List (List ℕ) → Option (PdbErr × NormalDataPage) → Type 0
  IsDone e o = (q : NormalDataPage) × (o ≡ some (e.0, q)) × IsPage q e.1

  chosen :
      (b : Bool) (p r : NormalDataPage) (rs ws : List (List ℕ))
      → IsPage p rs
      → IsPage r ws
      → IsDone
          (if b then (record_exist, rs) else (ok, ws))
          (some (if b then (record_exist, p) else (ok, r)))
  chosen true p r rs ws h k = (p, refl, h)
  chosen false p r rs ws h k = (r, refl, k)

  module _ (p : NormalDataPage) (rs : List (List ℕ)) (h : IsPage p rs)
      (fits : length rec + rec_idx_len ≤ p.free_bytes) where
    pushed-IsDone :
        (q : Place)
        → q.ret_val ≡ ok
        → (i : ℕ)
        → (if ltb_ℤ q.cur_ts ts && ltb q.rec_idx p.rec_cnt then q.rec_idx + 1 else q.rec_idx) ≡ i
        → same_ts q.cur_ts ts ≡ false
        → Cut rs ts i
        → IsDone (fit_spec rs) (insert_at ts rec replace p (some q))
    pushed-IsDone q e i f s c =
        let (put, n, asc) = Cut-put_rec rec rs i h.sorted c in
        rw (e, s, f, n, put) (_, refl, push_rec-IsPage p rs i rec h c.0 k fits asc)

    swapped-IsDone :
        (q : Place)
        → q.ret_val ≡ ok
        → q.rec_idx < length rs
        → same_ts q.cur_ts ts ≡ true
        → Same (stamp_of rs q.rec_idx) ts
        → IsDone (fit_spec rs) (insert_at ts rec replace p (some q))
    swapped-IsDone q e b s c =
        let (put, n, asc) = Same-put_rec rec rs q.rec_idx h.sorted b c in
        let (r, swapped, r_page) = swap_rec-IsPage p rs q.rec_idx rec h b k fits asc in
        rw (e, s, n, put, swapped) (chosen (not replace) p r rs (set_at q.rec_idx rec rs) h r_page)

    placed-IsDone :
        (q : Place) → IsPlace rs ts q → IsDone (fit_spec rs) (insert_at ts rec replace p (some q))
    placed-IsDone q (e, b, inl (s, at)) = swapped-IsDone q e b (ground arith) (rw (← at) s)
    placed-IsDone q (e, b, inr (inl (l, c))) =
        let n = h.counted in pushed-IsDone q e (suc q.rec_idx) (ground arith) (ground arith) c
    placed-IsDone q (e, b, inr (inr (l, c))) =
        pushed-IsDone q e q.rec_idx (ground arith) (ground arith) c

    -- On an empty page the search leaves the time 0.
    empty-IsDone :
        length rs ≡ 0
        → ts ≢ pos 0
        → IsDone (fit_spec rs) (insert_at ts rec replace p (find_place p ts))
    unfolding find_place
    empty-IsDone e n =
        let c = h.counted in
        let none' : leb p.rec_cnt 0 ≡ true = ground (arith, c) in
        rw none' (
          pushed-IsDone (record { ret_val = ok; rec_idx = 0; cur_ts = pos 0 }) refl 0
            (ground (arith, c, e)) (not_zero ts n)
            (omega arith, λ i b. absurd (omega arith), λ i b d. absurd (omega (arith, e))))

    insert_at-IsDone :
        (0 < length rs) ⊎ (ts ≢ pos 0)
        → IsDone (fit_spec rs) (insert_at ts rec replace p (find_place p ts))
    insert_at-IsDone s = elim (Bool-cases (ltb 0 (length rs))) [
      | inl e ↦
          let (q, found, place) = find_place-IsPlace p rs h ts (ltb→lt 0 (length rs) e) in
          rw found (placed-IsDone q place)
      | inr e ↦ empty-IsDone (omega (arith, ltb→ge 0 (length rs) e)) (ground (arith, e, s))
    ]

  abbrev Fits : List (List ℕ) → Type 0
  Fits rs = head_size + length rs * rec_idx_len + total rs + (length rec + rec_idx_len) ≤ page_size

  insert_in-IsDone :
      (p : NormalDataPage) (rs : List (List ℕ))
      → IsPage p rs
      → (0 < length rs) ⊎ (ts ≢ pos 0)
      → length rec + rec_idx_len ≤ p.free_bytes
      → IsDone (insert_spec rec replace rs) (insert_in ts rec replace p)
  unfolding insert_in insert_spec
  insert_in-IsDone p rs h s fits =
      let fits_in : Fits rs = omega (arith, h.room, h.counted) in
      rw (ge→ltb _ _ fits, ge→ltb _ _ fits_in) (insert_at-IsDone p rs h fits s)

  insert_in-full :
      (p : NormalDataPage) (rs : List (List ℕ))
      → IsPage p rs
      → p.free_bytes + p.chip_bytes < length rec + rec_idx_len
      → IsDone (insert_spec rec replace rs) (insert_in ts rec replace p)
  unfolding insert_in insert_spec
  insert_in-full p rs h full =
      let no_room : page_size
          < head_size + length rs * rec_idx_len + total rs + (length rec + rec_idx_len) =
        omega (arith, h.room, h.counted) in
      let less : p.free_bytes < length rec + rec_idx_len = omega arith in
      rw (lt→ltb _ _ less, lt→ltb _ _ no_room) (p, refl, h)

  -- Cleaning up gathers the chips.
  insert_in-clean_up :
      (p : NormalDataPage) (rs : List (List ℕ))
      → IsPage p rs
      → (0 < length rs) ⊎ (ts ≢ pos 0)
      → length rec + rec_idx_len ≤ p.free_bytes + p.chip_bytes
      → IsDone (insert_spec rec replace rs) (insert_in ts rec replace (clean_up p))
  insert_in-clean_up p rs h s fits =
      let (clean, free, chip) =
        clean_up-IsPage p rs (head_size + p.rec_cnt * rec_idx_len + p.free_bytes) h.counted h.recs
          h.sorted h.holds (omega (arith, h.room, h.counted)) in
      insert_in-IsDone (clean_up p) rs clean s (omega (arith, h.room, h.counted, free))

-- InsertRec does what an insertion is to do on any page of records in order: the record goes to
-- the place of its time, or takes that of the record of its time if it may, and is refused
-- otherwise; it is refused as too long exactly if it does not fit beside the records, whether the
-- bytes that are free lie together or not. The page that is left holds the records of the outcome.
-- On a page without records the time is not 0.
pub insert_rec-IsDone :
    (p : NormalDataPage) (rs : List (List ℕ)) (rec : List ℕ) (replace : Bool)
    → IsPage p rs
    → IsRec rec
    → (0 < length rs) ⊎ (stamp rec ≢ pos 0)
    → (q : NormalDataPage) × (insert_rec (stamp rec) rec replace p
        ≡ some ((insert_spec rec replace rs).0, q))
      × IsPage q (insert_spec rec replace rs).1
unfolding insert_rec
insert_rec-IsDone p rs rec replace h k s =
    let need = length rec + rec_idx_len in
    if_cases
      (λ c. IsDone rec replace k (insert_spec rec replace rs) (insert_in (stamp rec) rec replace c))
      (ltb p.free_bytes need && leb need (p.free_bytes + p.chip_bytes))
      (λ e. insert_in-clean_up rec replace k p rs h s (ground (arith, e)))
      (λ e. elim (Bool-cases (ltb p.free_bytes need)) [
        | inl f ↦ insert_in-full rec replace k p rs h (ground (arith, e, f))
        | inr f ↦ insert_in-IsDone rec replace k p rs h s (ltb→ge _ _ f)
      ])
