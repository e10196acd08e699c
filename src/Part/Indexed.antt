-- ===== src/Part/Indexed.antt =====
-- InsertRec of src/pinusdb/storage/normal_data_part.cpp for a device that has a page: the pages and
-- the index of the partition.
use mathlib.Core.Path.{subst}
use pinusdb.Prelude.{
  ℕ, ◌≤◌, ◌<◌, ◌≡◌, ◌≢◌, inl, inr, refl, sym, Bool, true, false, ◌==◌, ==_iff, Option, none, some,
  List, [], ◌∷◌, ◌++◌, All, length, if_cases, if◌then◌else◌, arith,
}
use pinusdb.Prelude.Int.{ℤ, pos, ◌≤ℤ◌, ◌<ℤ◌, ltb_ℤ}
use pinusdb.Value.{PdbErr, ok}
use pinusdb.Index.{NormalPartIdx, MemPageIdx, get_index, add_idx}
use pinusdb.Index.Sorted.{IsValid, add_idx-IsValid}
use pinusdb.Index.Added.{Knows, add_idx-Knows}
use pinusdb.Page.{NormalDataPage, same_ts}
use pinusdb.Page.Records.{IsPage, IsRec, stamp, put_rec}
use pinusdb.Page.Edits.{All-put_at}
use pinusdb.Part.{PageOutcome, NormalDataPart, put_page, store_new, store_outcome, insert}
use pinusdb.Part.Sizes.{max_len, Short}
use pinusdb.Part.Grown.{Shows, IsPut, IsDone}
use pinusdb.Part.Inserted.{insert_page-IsDone}

clash : {A : Type 0} {b : Bool} → b ≡ true → b ≡ false → A
clash y n = ground arith

same_self : (n : ℤ) → same_ts n n ≡ true
same_self n = ground arith

-- A time in the day of the partition.
abbrev pub OfDay : NormalPartIdx → List ℕ → Type 0
OfDay s r = (s.bg_day_ts ≤ℤ stamp r) × (stamp r <ℤ s.ed_day_ts)

All-put_rec :
    (P : List ℕ → Type 0) (r : List ℕ) (rs : List (List ℕ)) → P r → All P rs → All P (put_rec r rs)
unfolding put_rec
All-put_rec P r [] h a = (h, tt)
All-put_rec P r (x ∷ rs) h (b, a) =
    if_cases (All P) (ltb_ℤ (stamp x) (stamp r)) (λ _. (b, All-put_rec P r rs h a))
      (λ _. if_cases (All P) (same_ts (stamp x) (stamp r)) (λ _. (h, a)) (λ _. (h, (b, a))))

All-behind :
    (P : List ℕ → Type 0) (ls ms : List (List ℕ)) (m : List ℕ) → All P (ls ++ (m ∷ ms)) → P m
All-behind P [] ms m (h, a) = h
All-behind P (x ∷ ls) ms m (h, a) = All-behind P ls ms m a

All-IsPut :
    (P : List ℕ → Type 0) (rs : List (List ℕ)) (rec : List ℕ) (ws : List (List ℕ))
    → P rec
    → All P rs
    → IsPut rs rec ws
    → All P ws
All-IsPut P rs rec ws h a (inl e) = subst (All P) (sym e) (All-put_rec P rec rs h a)
All-IsPut P rs rec ws h a (inr (k, _, _, e)) = subst (All P) (sym e) (All-put_at P k rec rs h a)

module _ (s : NormalDataPart) (rs : List (List ℕ)) (rec : List ℕ) (new_no dev_id page_no : ℤ) where
  -- The index has what it had, and a page that is new under its number and time.
  abbrev pub Indexes : Bool → NormalDataPart → Type 0
  Indexes false t = t.normal_idx ≡ s.normal_idx
  Indexes true t =
      Knows t.normal_idx dev_id (record { idx_ts = (t.pages new_no).idx_ts; page_no = new_no })
      × ((d : ℤ) (e : MemPageIdx) → Knows s.normal_idx d e → Knows t.normal_idx d e)

  -- What has become of the partition: the pages of the two numbers show the record in its place,
  -- the others are as before, and the index is in order and knows a page that is new.
  abbrev pub IsStored : Option (PdbErr × NormalDataPart) → Type 0
  IsStored o =
      (t : NormalDataPart) × (grown : Bool) × (o ≡ some (ok, t))
      × IsValid t.normal_idx
      × Indexes grown t
      × (ws : List (List ℕ)) × Shows (t.pages page_no)
          (if grown then some (t.pages new_no) else none) ws
      × IsPut rs rec ws
      × ((n : ℤ) → same_ts page_no n ≡ false → same_ts new_no n ≡ false → t.pages n ≡ s.pages n)

  module _ (apart : same_ts new_no page_no ≡ false) (valid : IsValid s.normal_idx)
      (dev : pos 0 <ℤ dev_id) (number : pos 0 <ℤ new_no) (of_day : All (OfDay s.normal_idx) rs)
      (rec_of_day : OfDay s.normal_idx rec) where
    store_new-IsStored :
        (out : PageOutcome) (o : Option NormalDataPage) (ws : List (List ℕ))
        → out.ret_val ≡ ok
        → Shows out.old_page o ws
        → IsPut rs rec ws
        → IsStored (some (store_new new_no dev_id page_no out o s))
    store_new-IsStored out none ws e h put =
        let at : put_page page_no out.old_page s.pages page_no ≡ out.old_page =
          rw (same_self page_no) refl in
        (
          (store_new new_no dev_id page_no out none s).1,
          false,
          rw e refl,
          valid,
          refl,
          ws,
          subst (λ p. IsPage p ws) (sym at) h,
          put,
          λ n a b. rw a refl,
        )
    store_new-IsStored out (some q) ws e (ls, m, ms, hp, hq, whole, first) put =
        let pages = put_page new_no q (put_page page_no out.old_page s.pages) in
        let at : pages page_no ≡ out.old_page = rw (apart, same_self page_no) refl in
        let at' : pages new_no ≡ q = rw (same_self new_no) refl in
        let day : OfDay s.normal_idx m = All-behind (OfDay s.normal_idx) ls ms m (
          subst (All (OfDay s.normal_idx)) (sym whole)
            (All-IsPut (OfDay s.normal_idx) rs rec ws rec_of_day of_day put)) in
        let (done, new, old) =
          add_idx-Knows dev_id q.idx_ts new_no s.normal_idx dev
            (subst (λ t. s.normal_idx.bg_day_ts ≤ℤ t) (sym first) day.0)
            (subst (λ t. t <ℤ s.normal_idx.ed_day_ts) (sym first) day.1) number in
        let code : (if out.is_split
              then out.ret_val
              else (add_idx dev_id q.idx_ts new_no s.normal_idx).0)
            ≡ ok =
          if_cases (λ (c : PdbErr). c ≡ ok) out.is_split (λ _. e) (λ _. done) in
        (
          (store_new new_no dev_id page_no out (some q) s).1,
          true,
          rw code refl,
          add_idx-IsValid dev_id q.idx_ts new_no s.normal_idx valid,
          (
            subst
                (λ (p : NormalDataPage).
                  Knows (add_idx dev_id q.idx_ts new_no s.normal_idx).1 dev_id
                    (record { idx_ts = p.idx_ts; page_no = new_no }))
                (sym at') new,
            old,
          ),
          ws,
          subst (λ (p : NormalDataPage). Shows p (some (pages new_no)) ws) (sym at)
              (subst (λ (p : NormalDataPage). Shows out.old_page (some p) ws) (sym at')
                (ls, m, ms, hp, hq, whole, first)),
          put,
          λ n a b. rw (b, a) refl,
        )

    store_outcome-IsStored :
        (o : Option PageOutcome)
        → IsDone rs rec o
        → IsStored (store_outcome new_no dev_id page_no o s)
    store_outcome-IsStored o (out, e, ret, ws, h, put) =
        subst (λ x. IsStored (store_outcome new_no dev_id page_no x s)) (sym e)
          (store_new-IsStored out out.new_page ws ret h put)

-- InsertRec of a partition that may be written, with the fields of the table, for a device that has
-- a page with records for the time, stores the record and returns OK: it is in this page, or in it
-- and a new one, the other pages stay, the index stays in order, and has, beside all that it had, a
-- new page under the time of its first record. A page can be had, the new one has a positive number
-- of its own, the device is positive, the records are of the day and not too long, and the time is
-- not 0.
pub insert-IsStored :
    (s : NormalDataPart) (rs : List (List ℕ)) (rec : List ℕ) (new_no dev_id : ℤ) (idx : MemPageIdx)
    → s.read_only ≡ false
    → get_index dev_id (stamp rec) s.normal_idx ≡ (ok, idx)
    → same_ts new_no idx.page_no ≡ false
    → IsValid s.normal_idx
    → pos 0 <ℤ dev_id
    → pos 0 <ℤ new_no
    → All (OfDay s.normal_idx) rs
    → OfDay s.normal_idx rec
    → IsPage (s.pages idx.page_no) rs
    → IsRec rec
    → Short rs
    → length rec ≤ max_len
    → 0 < length rs
    → stamp rec ≢ pos 0
    → IsStored s rs rec new_no dev_id idx.page_no
        (insert (ok, new_no) ok s.part_meta_code dev_id (stamp rec) rec s)
unfolding insert
insert-IsStored s rs rec new_no dev_id idx writable found apart valid dev number of_day rec_of_day h
      is_rec short short_rec some_recs some_time =
    let same : (s.part_meta_code == s.part_meta_code) ≡ true =
      (==_iff s.part_meta_code s.part_meta_code).1 refl in
    if_cases (IsStored s rs rec new_no dev_id idx.page_no) s.read_only (λ e. clash e writable)
      (λ _.
        rw (same, found)
          (store_outcome-IsStored s rs rec new_no dev_id idx.page_no apart valid dev number of_day
            rec_of_day _
            (insert_page-IsDone rs rec new_no dev_id _ (s.pages idx.page_no) h is_rec short
              short_rec some_recs some_time)))
