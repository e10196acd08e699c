-- ===== src/Page/Tests.antt =====
-- Pages of records of src/pinusdb/storage/normal_data_page.cpp.
use pinusdb.Prelude.{
  ℕ, ◌-◌, ◌≤◌, ◌<◌, ◌≡◌, ◌⊎◌, ◌≢◌, inl, refl, true, false, some, List, [], ◌∷◌, take, drop, arith,
  if◌then◌else◌,
}
use pinusdb.Prelude.Int.{pos, of_word}
use pinusdb.Coding.{fixed_decode16, fixed_decode64, of_bytes}
use pinusdb.Value.{ok, invalid_param, record_exist}
use pinusdb.Page.{NormalDataPage, init, load, insert_rec, push_rec, rec_offset}
use pinusdb.Page.Records.{Ascending, IsPage, IsRec, stamp, insert_spec}
use pinusdb.Page.Push.{push_rec-IsPage}
use pinusdb.Page.Insert.{insert_rec-IsDone}
use pinusdb.Page.Init.{init-IsPage, insert_rec-time_zero}
use pinusdb.Page.Reload.{Call, Named, write_recs, recs_of, load-write_recs}
use pinusdb.Page.Places.{stamp_of}
use pinusdb.Page.Split.{split_most}
use pinusdb.Page.Split.Parts.{need}
use pinusdb.Page.Split.Moved.{split_most-parts}

-- A record of the time 7 and one of the time 0, without fields.
abbrev pub rec7 : List ℕ
rec7 = 10 ∷ 0 ∷ 7 ∷ 0 ∷ 0 ∷ 0 ∷ 0 ∷ 0 ∷ 0 ∷ 0 ∷ []

abbrev rec0 : List ℕ
rec0 = 10 ∷ 0 ∷ 0 ∷ 0 ∷ 0 ∷ 0 ∷ 0 ∷ 0 ∷ 0 ∷ 0 ∷ []

pub rec7-IsRec : IsRec rec7
unfolding fixed_decode16 of_bytes
rec7-IsRec = (refl, omega arith)

pub stamp-rec7 : stamp rec7 ≡ pos 7
unfolding fixed_decode64 of_bytes of_word
stamp-rec7 = refl

stamp-rec0 : stamp rec0 ≡ pos 0
unfolding fixed_decode64 of_bytes of_word
stamp-rec0 = refl

abbrev pub empty_page : NormalDataPage
empty_page = init (pos 1) (pos 5) (pos 0)

abbrev pub one_page : NormalDataPage
one_page = push_rec 0 (rec_offset rec7 empty_page) rec7 empty_page

pub one_page-IsPage : IsPage one_page (rec7 ∷ [])
unfolding init
one_page-IsPage =
    push_rec-IsPage empty_page [] 0 rec7 (init-IsPage (pos 1) (pos 5) (pos 0)) (omega arith)
      rec7-IsRec (omega arith) (tt, tt)

insert_rec-IsDone_example :
    (q : NormalDataPage) × (insert_rec (stamp rec7) rec7 true one_page
      ≡ some ((insert_spec rec7 true (rec7 ∷ [])).0, q))
    × IsPage q (insert_spec rec7 true (rec7 ∷ [])).1
insert_rec-IsDone_example =
    insert_rec-IsDone one_page (rec7 ∷ []) rec7 true one_page-IsPage rec7-IsRec (inl (omega arith))

insert_rec-time_zero_example :
    (q : NormalDataPage) × (insert_rec (stamp rec0) rec0 true empty_page
      ≡ some (if true then invalid_param else record_exist, q))
    × IsPage q []
    × (true ≡ false → q ≡ empty_page)
unfolding init
insert_rec-time_zero_example =
    insert_rec-time_zero empty_page rec0 true (init-IsPage (pos 1) (pos 5) (pos 0)) stamp-rec0
      (omega arith)

abbrev rec9 : List ℕ
rec9 = 10 ∷ 0 ∷ 9 ∷ 0 ∷ 0 ∷ 0 ∷ 0 ∷ 0 ∷ 0 ∷ 0 ∷ []

rec9-IsRec : IsRec rec9
unfolding fixed_decode16 of_bytes
rec9-IsRec = (refl, omega arith)

stamp-rec9 : stamp rec9 ≡ pos 9
unfolding fixed_decode64 of_bytes of_word
stamp-rec9 = refl

stamp-rec7-pos : stamp rec7 ≢ pos 0
stamp-rec7-pos e = ground (arith, stamp-rec7, e)

stamp-rec9-pos : stamp rec9 ≢ pos 0
stamp-rec9-pos e = ground (arith, stamp-rec9, e)

-- The second record may not replace another.
abbrev two_calls : List Call
two_calls = (rec7, true) ∷ (rec9, false) ∷ []

load-write_recs_example :
    (q : NormalDataPage) × (write_recs two_calls empty_page ≡ some q)
    × IsPage q (recs_of two_calls [])
    × (load q.page_data q.is_dirty q.only_mem ≡ q)
    × Named (pos 1) (pos 5) (pos 0) (load q.page_data q.is_dirty q.only_mem)
unfolding init
load-write_recs_example =
    load-write_recs (pos 1) (pos 5) (pos 0) two_calls
      ((rec7-IsRec, stamp-rec7-pos), ((rec9-IsRec, stamp-rec9-pos), tt)) (omega arith, omega arith)
      (omega arith, omega arith) (omega arith, omega arith)

in_order : Ascending (rec7 ∷ rec9 ∷ [])
unfolding fixed_decode64 of_bytes of_word
in_order = ((omega arith, tt), (tt, tt))

abbrev two_page : NormalDataPage
two_page = push_rec 1 (rec_offset rec9 one_page) rec9 one_page

two_page-IsPage : IsPage two_page (rec7 ∷ rec9 ∷ [])
unfolding init
two_page-IsPage =
    push_rec-IsPage one_page (rec7 ∷ []) 1 rec9 one_page-IsPage (omega arith) rec9-IsRec
      (omega arith) in_order

split_most-parts_example :
    (k : ℕ) × (p' : NormalDataPage) × (q' : NormalDataPage) × (split_most 12 two_page empty_page
      ≡ (ok, p', q'))
    × (0 < k)
    × (k ≤ 2)
    × IsPage p' (take k (rec7 ∷ rec9 ∷ []))
    × IsPage q' (drop k (rec7 ∷ rec9 ∷ []))
    × (need (drop k (rec7 ∷ rec9 ∷ [])) ≤ 12)
    × ((k ≡ 1) ⊎ (12 < need (drop (k - 1) (rec7 ∷ rec9 ∷ []))))
    × (k < 2 → q'.idx_ts ≡ stamp_of (rec7 ∷ rec9 ∷ []) k)
unfolding init
split_most-parts_example =
    split_most-parts two_page empty_page (rec7 ∷ rec9 ∷ []) 12 two_page-IsPage
      (init-IsPage (pos 1) (pos 5) (pos 0)) refl (omega arith) (omega arith)
