-- ===== src/Part/Tests.antt =====
-- A partition of src/pinusdb/storage/normal_data_part.cpp with a page.
use pinusdb.Prelude.{◌≡◌, ◌≢◌, refl, false, [], ◌∷◌, arith}
use pinusdb.Prelude.Int.{pos, of_word}
use pinusdb.Coding.{fixed_decode64, of_bytes}
use pinusdb.Value.{ok}
use pinusdb.Index.{MemPageIdx, NormalPartIdx, find, get_index, page_idx_binary_search}
use pinusdb.Page.Records.{stamp}
use pinusdb.Page.Tests.{rec7, rec7-IsRec, stamp-rec7, one_page, one_page-IsPage}
use pinusdb.Part.{NormalDataPart, insert}
use pinusdb.Part.Indexed.{OfDay, IsStored, insert-IsStored}

stamp-rec7-pos : stamp rec7 ≢ pos 0
stamp-rec7-pos e = ground (arith, stamp-rec7, e)

abbrev entry : MemPageIdx
entry = record { idx_ts = pos 0; page_no = pos 1 }

abbrev day : NormalPartIdx
day = record { bg_day_ts = pos 0; ed_day_ts = pos 100; idx_map = (pos 5, entry ∷ []) ∷ [] }

abbrev part : NormalDataPart
part = record {
  read_only = false;
  part_meta_code = 4;
  bg_day_ts = pos 0;
  normal_idx = day;
  pages = λ n. one_page;
  dirty_list = [];
}

found : get_index (pos 5) (stamp rec7) day ≡ (ok, entry)
unfolding get_index find page_idx_binary_search fixed_decode64 of_bytes of_word
found = refl

rec7-OfDay : OfDay day rec7
rec7-OfDay = (ground (arith, stamp-rec7), ground (arith, stamp-rec7))

insert-IsStored_example :
    IsStored part
      (rec7 ∷ [])
      rec7
      (pos 3)
      (pos 5)
      (pos 1)
      (insert (ok, pos 3) ok 4 (pos 5) (stamp rec7) rec7 part)
insert-IsStored_example =
    insert-IsStored part (rec7 ∷ []) rec7 (pos 3) (pos 5) entry refl found refl
      (((tt, tt), ((omega arith, omega arith), tt)), tt) (omega arith) (omega arith)
      (rec7-OfDay, tt) rec7-OfDay one_page-IsPage rec7-IsRec (omega arith, tt) (omega arith)
      (omega arith) stamp-rec7-pos
