-- ===== src/Index/Tests.antt =====
-- A concrete index of one device for src/pinusdb/storage/normal_part_idx.cpp.
use pinusdb.Prelude.{ℕ, ◌+◌, ◌≡◌, ◌<◌, refl, List, [], ◌∷◌, some, length, get_or, arith}
use pinusdb.Prelude.Int.{pos}
use pinusdb.Value.{ok}
use pinusdb.Index.{
  MemPageIdx, NormalPartIdx, no_idx, find, page_idx_binary_search, add_idx, get_index,
}
use pinusdb.Index.Sorted.{Ascending, IsValid, add_idx-IsValid}
use pinusdb.Index.Lookup.{IsFloor, get_index-latest}

abbrev at : ℕ → MemPageIdx
at t = record { idx_ts = pos t; page_no = pos (t + 1) }

abbrev entries : List MemPageIdx
entries = at 20 ∷ at 40 ∷ at 60 ∷ []

abbrev day : NormalPartIdx
day = record { bg_day_ts = pos 0; ed_day_ts = pos 100; idx_map = (pos 7, entries) ∷ [] }

search_45 : page_idx_binary_search entries (pos 45) ≡ some 1
unfolding page_idx_binary_search
search_45 = refl

-- An entry that is earlier than the last one is sorted in.
add_30 :
    add_idx (pos 7) (pos 30) (pos 31) day
    ≡ (ok, record day { idx_map = (pos 7, at 20 ∷ at 30 ∷ at 40 ∷ at 60 ∷ []) ∷ [] })
unfolding add_idx
add_30 = refl

day_entries : find (pos 7) day.idx_map ≡ some entries
unfolding find
day_entries = refl

entries-Ascending : Ascending entries
entries-Ascending = ((omega arith, (omega arith, tt)), ((omega arith, tt), (tt, tt)))

add_idx-IsValid_example : IsValid (add_idx (pos 7) (pos 30) (pos 31) day).1
add_idx-IsValid_example =
    add_idx-IsValid (pos 7) (pos 30) (pos 31) day ((entries-Ascending, omega arith), tt)

get_index-latest_example :
    (r : ℕ) × (r < length entries)
    × (get_index (pos 7) (pos 45) day ≡ (ok, get_or entries r no_idx))
    × IsFloor (pos 7) (pos 45) day entries r
get_index-latest_example =
    get_index-latest (pos 7) (pos 45) day (at 20) (at 40 ∷ at 60 ∷ []) day_entries entries-Ascending
