-- ===== src/Page/Reload.antt =====
-- A page from Init over calls of InsertRec to UpdateCrc, and what Load reads of its bytes
-- (src/pinusdb/storage/normal_data_page.cpp).
use mathlib.Core.Path.{subst}
use pinusdb.Prelude.{
  ℕ, ◌+◌, ◌^◌, ◌≡◌, ◌≢◌, ◌∙◌, inr, refl, sym, Bool, Option, none, some, List, [], ◌∷◌, length, ltb,
  leb, ◌&&◌, All, if_cases, arith,
}
use pinusdb.Prelude.Int.{ℤ, pos}
use pinusdb.Value.{PdbErr}
use pinusdb.Page.{
  NormalDataPage, Place, init, load, update_crc, insert_rec, insert_in, insert_at, find_place,
  clean_up, get_rec_data, rec_idx_len,
}
use pinusdb.Page.Records.{IsPage, IsRec, stamp, insert_spec}
use pinusdb.Page.Init.{InRange, init-IsPage, update_crc-IsPage, load-page_data}
use pinusdb.Page.Insert.{insert_rec-IsDone}

-- A page of the number, the device and the time of another.
abbrev pub Named : ℤ → ℤ → ℤ → NormalDataPage → Type 0
Named page_no dev_id idx_ts p = (p.page_no ≡ page_no) × (p.dev_id ≡ dev_id) × (p.idx_ts ≡ idx_ts)

-- InsertRec leaves these.
abbrev Keeps : NormalDataPage → Option (PdbErr × NormalDataPage) → Type 0
Keeps p none = Unit
Keeps p (some r) = Named p.page_no p.dev_id p.idx_ts r.1

insert_at-Keeps :
    (ts : ℤ) (rec : List ℕ) (replace : Bool) (p : NormalDataPage) (o : Option Place)
    → Keeps p (insert_at ts rec replace p o)
unfolding get_rec_data
insert_at-Keeps ts rec replace p none = tt
insert_at-Keeps ts rec replace p (some q) = (ground arith, ground arith, ground arith)

insert_in-Keeps :
    (ts : ℤ) (rec : List ℕ) (replace : Bool) (p : NormalDataPage)
    → Keeps p (insert_in ts rec replace p)
unfolding insert_in
insert_in-Keeps ts rec replace p =
    if_cases (Keeps p) (ltb p.free_bytes (length rec + rec_idx_len)) (λ e. (refl, refl, refl))
      (λ e. insert_at-Keeps ts rec replace p (find_place p ts))

pub insert_rec-Keeps :
    (ts : ℤ) (rec : List ℕ) (replace : Bool) (p q : NormalDataPage) (e : PdbErr)
    → insert_rec ts rec replace p ≡ some (e, q)
    → Named p.page_no p.dev_id p.idx_ts q
unfolding insert_rec clean_up
insert_rec-Keeps ts rec replace p q e h =
    let kept : Keeps p (insert_rec ts rec replace p) =
      if_cases (λ (c : NormalDataPage). Keeps p (insert_in ts rec replace c))
        (ltb p.free_bytes (length rec + rec_idx_len)
          && leb (length rec + rec_idx_len) (p.free_bytes + p.chip_bytes))
        (λ e. insert_in-Keeps ts rec replace (clean_up p))
        (λ e. insert_in-Keeps ts rec replace p) in
    subst (Keeps p) h kept

-- The calls of InsertRec: a record, and if it may replace another.
abbrev pub Call : Type 0
Call = List ℕ × Bool

abbrev pub then_write :
    Option (PdbErr × NormalDataPage)
    → (NormalDataPage → Option NormalDataPage)
    → Option NormalDataPage
then_write none f = none
then_write (some r) f = f r.1

-- The page behind the calls, refused ones included, with its checksum.
abbrev pub write_recs : List Call → NormalDataPage → Option NormalDataPage
write_recs [] p = some (update_crc p)
write_recs ((rec, replace) ∷ calls) p =
    then_write (insert_rec (stamp rec) rec replace p) (write_recs calls)

-- The records that are to be there.
abbrev pub recs_of : List Call → List (List ℕ) → List (List ℕ)
recs_of [] rs = rs
recs_of ((rec, replace) ∷ calls) rs = recs_of calls (insert_spec rec replace rs).1

abbrev pub IsCall : Call → Type 0
IsCall c = IsRec c.0 × (stamp c.0 ≢ pos 0)

module _ (page_no dev_id idx_ts : ℤ) where
  abbrev pub IsWritten : List (List ℕ) → Option NormalDataPage → Type 0
  IsWritten rs o = (q : NormalDataPage) × (o ≡ some q) × IsPage q rs × Named page_no dev_id idx_ts q

  write_recs-IsWritten :
      (calls : List Call) (p : NormalDataPage) (rs : List (List ℕ))
      → All IsCall calls
      → IsPage p rs
      → Named page_no dev_id idx_ts p
      → IsWritten (recs_of calls rs) (write_recs calls p)
  unfolding update_crc
  write_recs-IsWritten [] p rs ks h n = (update_crc p, refl, update_crc-IsPage p rs h, n)
  write_recs-IsWritten ((rec, replace) ∷ calls) p rs ((is_rec, some_time), ks) h (a, b, c) =
      let (q, e, hq) = insert_rec-IsDone p rs rec replace h is_rec (inr some_time) in
      let (x, y, z) =
        insert_rec-Keeps (stamp rec) rec replace p q (insert_spec rec replace rs).0 e in
      subst
        (λ o.
          IsWritten (recs_of calls (insert_spec rec replace rs).1)
            (then_write o (write_recs calls)))
        (sym e)
        (write_recs-IsWritten calls q (insert_spec rec replace rs).1 ks hq (x ∙ a, y ∙ b, z ∙ c))

  -- A page that Init begins, that takes in records, none of the time 0, and gets its checksum: the
  -- calls end, the page holds the records of the outcomes, and Load of its bytes gives all its
  -- members back, with the number, the device and the time that Init was given, if these fit their
  -- types.
  pub load-write_recs :
      (calls : List Call)
      → All IsCall calls
      → InRange (2 ^ 31) page_no
      → InRange (2 ^ 63) dev_id
      → InRange (2 ^ 63) idx_ts
      → (q : NormalDataPage) × (write_recs calls (init page_no dev_id idx_ts) ≡ some q)
        × IsPage q (recs_of calls [])
        × (load q.page_data q.is_dirty q.only_mem ≡ q)
        × Named page_no dev_id idx_ts (load q.page_data q.is_dirty q.only_mem)
  unfolding init
  load-write_recs calls ks n d t =
      let (q, e, h, (a, b, c)) =
        write_recs-IsWritten calls (init page_no dev_id idx_ts) [] ks
          (init-IsPage page_no dev_id idx_ts) (refl, refl, refl) in
      let l =
        load-page_data q (recs_of calls []) h (subst (InRange (2 ^ 63)) (sym b) d)
          (subst (InRange (2 ^ 63)) (sym c) t) (subst (InRange (2 ^ 31)) (sym a) n) in
      (q, e, h, l, subst (Named page_no dev_id idx_ts) (sym l) (a, b, c))
