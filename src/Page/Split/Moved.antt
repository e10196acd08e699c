-- ===== src/Page/Split/Moved.antt =====
-- SplitMost of src/pinusdb/storage/normal_data_page.cpp: which records move to the new page.
use pinusdb.Prelude.{
  ℕ, zero, suc, ◌+◌, ◌-◌, ◌≤◌, ◌<◌, ◌≡◌, ◌⊎◌, inl, inr, ap, sym, ◌∙◌, refl, true, List, [], ◌∷◌,
  length, get_or, take, drop, length-drop, drop_all, arith, ltb, ltb→lt, ltb→ge, ge→ltb, if_cases,
}
use mathlib.Core.Path.{subst}
use pinusdb.Value.{PdbErr, ok}
use pinusdb.Page.{
  NormalDataPage, head_size, rec_idx_len, page_size, slot, push_rec, rec_offset, clean_up,
}
use pinusdb.Page.Records.{IsPage, IsRec, Ascending, All-get_or, get16-rec}
use pinusdb.Page.Push.{push_rec-IsPage}
use pinusdb.Page.Places.{stamp_of}
use pinusdb.Page.Split.{insert_for_pos, update_idx_ts, split_loop, split_most}
use pinusdb.Page.Split.Parts.{
  need, drop-next, Ascending-drop, flagged-IsPage, update_idx_ts-IsPage, shortened-IsPage,
}

module _ (p : NormalDataPage) (rs : List (List ℕ)) (h : IsPage p rs) (bytes : ℕ)
    (bounded : bytes ≤ page_size - head_size) where
  -- A record that fits goes to the front of the new page.
  insert_for_pos-front :
      (q : NormalDataPage) (i : ℕ)
      → i < length rs
      → IsPage q (drop (suc i) rs)
      → q.chip_bytes ≡ 0
      → need (drop i rs) ≤ bytes
      → (r : NormalDataPage) × (insert_for_pos 0 (get_or rs i []) q ≡ (ok, r))
        × IsPage r (drop i rs)
        × (r.chip_bytes ≡ 0)
  unfolding insert_for_pos
  insert_for_pos-front q i b k chip le =
      let e = drop-next i rs [] b in
      let sum : need (drop i rs) ≡ length (get_or rs i []) + rec_idx_len + need (drop (suc i) rs) =
        ap need e ∙ omega arith in
      let fits : length (get_or rs i []) + rec_idx_len ≤ q.free_bytes =
        omega (arith, k.room, k.counted, chip, sum) in
      let asc : Ascending (get_or rs i [] ∷ drop (suc i) rs) =
        subst (λ x. Ascending x) e (Ascending-drop i rs h.sorted) in
      (
        push_rec 0 (rec_offset (get_or rs i []) q) (get_or rs i []) q,
        rw (ge→ltb _ _ fits) refl,
        rw e (
            push_rec-IsPage q (drop (suc i) rs) 0 (get_or rs i []) k (omega arith)
              (All-get_or IsRec rs i h.recs b) fits asc),
        chip,
      )

  -- Where the loop ends: the records behind the place are in the new page, and one more would be
  -- too much, if there is one besides the first.
  abbrev pub IsSplit : PdbErr × ℕ × NormalDataPage → Type 0
  IsSplit e =
      (e.0 ≡ ok)
      × (suc e.1 ≤ length rs)
      × IsPage e.2 (drop (suc e.1) rs)
      × (need (drop (suc e.1) rs) ≤ bytes)
      × ((e.1 ≡ 0) ⊎ (bytes < need (drop e.1 rs)))

  split_loop-IsSplit :
      (i trans : ℕ) (q : NormalDataPage)
      → i < length rs
      → IsPage q (drop (suc i) rs)
      → q.chip_bytes ≡ 0
      → trans ≡ need (drop (suc i) rs)
      → trans ≤ bytes
      → IsSplit (split_loop p bytes trans i q)
  unfolding split_loop
  split_loop-IsSplit zero trans q b k chip t le = (refl, omega arith, k, omega (arith, t), inl refl)
  split_loop-IsSplit (suc i) trans q b k chip t le =
      let r = get_or rs (suc i) [] in
      let stands = (h.holds (suc i) (omega (arith, h.counted))).2 in
      let len =
        get16-rec p.page_data (slot p.page_data (suc i)) r (All-get_or IsRec rs (suc i) h.recs b)
          stands in
      let sum : need (drop (suc i) rs) ≡ length r + rec_idx_len + need (drop (suc (suc i)) rs) =
        ap need (drop-next (suc i) rs [] b) ∙ omega arith in
      rw (len, stands)
        (if_cases IsSplit (ltb bytes (trans + length r + rec_idx_len))
          (λ e. (refl, b, k, omega (arith, t), inr (omega (arith, ltb→lt _ _ e, sum, t))))
          (λ e.
            let fits : need (drop (suc i) rs) ≤ bytes = omega (arith, ltb→ge _ _ e, sum, t) in
            let (q', put, k', chip') = insert_for_pos-front q (suc i) b k chip fits in
            rw put (
              split_loop-IsSplit i (trans + (length r + rec_idx_len)) q' (omega arith) k' chip'
                (omega (arith, sum, t)) (omega (arith, fits, sum, t)))))

-- SplitMost of a page with records to an empty page: the last records, as many as fit the bytes
-- given beside the first, are in the new page, which begins with the time of the first of them,
-- and the others are still in the old one, packed.
pub split_most-parts :
    (p q : NormalDataPage) (rs : List (List ℕ)) (bytes : ℕ)
    → IsPage p rs
    → IsPage q []
    → q.chip_bytes ≡ 0
    → 0 < length rs
    → bytes ≤ page_size - head_size
    → (k : ℕ) × (p' : NormalDataPage) × (q' : NormalDataPage) × (split_most bytes p q
        ≡ (ok, p', q'))
      × (0 < k)
      × (k ≤ length rs)
      × IsPage p' (take k rs)
      × IsPage q' (drop k rs)
      × (need (drop k rs) ≤ bytes)
      × ((k ≡ 1) ⊎ (bytes < need (drop (k - 1) rs)))
      × (k < length rs → q'.idx_ts ≡ stamp_of rs k)
unfolding split_most
split_most-parts p q rs bytes h k chip some_recs bounded =
    let last : suc (p.rec_cnt - 1) ≡ length rs = omega (arith, h.counted) in
    let none_moved : [] ≡ drop (suc (p.rec_cnt - 1)) rs =
      sym (drop_all (suc (p.rec_cnt - 1)) rs (omega arith)) in
    let (ok', le, moved, small, most) =
      split_loop-IsSplit p rs h bytes bounded (p.rec_cnt - 1) 0 q (omega arith)
        (rw (← none_moved) k) chip (rw (← none_moved) refl) (omega arith) in
    let s = split_loop p bytes 0 (p.rec_cnt - 1) q in
    let k = s.1 + 1 in
    let e : suc s.1 ≡ k = omega arith in
    let marked =
      flagged-IsPage s.2 (drop k rs) s.2.is_dirty true
        (subst (λ n. IsPage s.2 (drop n rs)) e moved) in
    let (timed, first) =
      update_idx_ts-IsPage (record (s.2) { only_mem = true }) (drop k rs) marked in
    let kept = shortened-IsPage p rs k h (omega (arith, le)) in
    (
      k,
      record (clean_up (record p { rec_cnt = k })) { is_dirty = true },
      update_idx_ts (record (s.2) { only_mem = true }),
      rw ok' refl,
      omega arith,
      omega (arith, le),
      flagged-IsPage (clean_up (record p { rec_cnt = k })) (take k rs) true
          (clean_up (record p { rec_cnt = k })).only_mem kept,
      timed,
      subst (λ n. need (drop n rs) ≤ bytes) e small,
      elim most [
        | inl z ↦ inl (omega (arith, z))
        | inr l ↦
            let f : s.1 ≡ k - 1 = omega arith in inr (subst (λ n. bytes < need (drop n rs)) f l)
      ],
      λ l.
          first (omega (arith, length-drop k rs, l)) ∙ ap (λ x. stamp_of x 0) (drop-next k rs [] l),
    )
