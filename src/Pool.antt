-- ===== src/Pool.antt =====
-- src/pinusdb/db/page_pool.cpp: the pages of the cache. A header is known by its number, the two
-- lists run from `next` of their heads, and the map is an association list. `alloc` stands for the
-- headers that a call of _AllocCache puts into the free list, none if it is not due or fails. The
-- mutex and the sizes of InitPool are left out; the PageRef of a call holds no page. A
-- call that waits returns `waits`.
mod Tests
pub mod Kept
use Prim.Native.Nat.{bit_and}
use pinusdb.Prelude.{
  ℕ, zero, suc, Bool, true, false, not, ◌&&◌, ◌==◌, Option, none, some, List, [], ◌∷◌,
  if◌then◌else◌,
}

pub record PageHdr : Type 0 where
  pub hdr_id : ℕ
  pub page_code : ℕ
  pub is_dirty : Bool
  pub ref_cnt : ℕ

pub record PagePool : Type 0 where
  pub read_list : List PageHdr
  pub free_list : List PageHdr
  pub page_map : List (ℕ × ℕ)

-- `pageMap_.find` and `pageMap_.erase`.
abbrev pub find_page : ℕ → List (ℕ × ℕ) → Option ℕ
find_page code [] = none
find_page code (e ∷ es) = let rest = find_page code es in if e.0 == code then some (e.1) else rest

abbrev pub erase_page : ℕ → List (ℕ × ℕ) → List (ℕ × ℕ)
erase_page code [] = []
erase_page code (e ∷ es) = let rest = erase_page code es in if e.0 == code then rest else e ∷ rest

-- The test of the search for a page to reuse.
abbrev pub is_clean : PageHdr → Bool
is_clean h = not h.is_dirty && (h.ref_cnt == 0)

-- The last page of the list that is clean, and the others.
abbrev pub reuse : List PageHdr → Option (PageHdr × List PageHdr)
reuse [] = none
reuse (h ∷ hs) = elim (reuse hs) [
  | some r ↦ some (r.0, h ∷ r.1)
  | none ↦ if is_clean h then some (h, hs) else none
]

-- The header with a number, and the others.
abbrev pub pull : ℕ → List PageHdr → Option (PageHdr × List PageHdr)
pull i [] = none
pull i (h ∷ hs) =
    let rest : Option (PageHdr × List PageHdr) = elim (pull i hs) [
      | none ↦ none
      | some r ↦ some (r.0, h ∷ r.1)
    ] in
    if h.hdr_id == i then some (h, hs) else rest

-- The free list, for which headers are allocated when it is empty.
abbrev pub refill : List PageHdr → List PageHdr → List PageHdr
refill alloc [] = alloc
refill alloc (h ∷ hs) = h ∷ hs

-- The first header that is free, or else a page that is reused.
abbrev pub take_free : List PageHdr → PagePool → Option (PageHdr × PagePool)
take_free (h ∷ hs) p = some (h, record p { free_list = hs })
take_free [] p = elim (reuse p.read_list) [
  | none ↦ none
  | some r ↦ some (
    r.0,
    record p { read_list = r.1; free_list = []; page_map = erase_page (r.0.page_code) p.page_map },
  )
]

-- _GetFreePage
abbrev pub get_free_page : List PageHdr → PagePool → Option (PageHdr × PagePool)
get_free_page alloc p = take_free (refill alloc p.free_list) p

pub data PageResult : Type 0 where
  got : PageHdr → PagePool → PageResult
  waits : PagePool → PageResult

-- A page of the map goes to the front and counts the reference. The map of the code holds the
-- header itself, so that the search for its number does not fail there.
abbrev pub attach : Option (PageHdr × List PageHdr) → PagePool → PageResult
attach none p = waits p
attach (some r) p =
    let h = record (r.0) { ref_cnt = suc (r.0.ref_cnt) } in got h (record p { read_list = h ∷ r.1 })

-- A header for a page that was not in the map.
abbrev pub set_page : ℕ → Option (PageHdr × PagePool) → PagePool → PageResult
set_page page_code none p = waits p
set_page page_code (some r) p =
    let h : PageHdr = record {
      hdr_id = r.0.hdr_id;
      page_code = page_code;
      is_dirty = false;
      ref_cnt = 1;
    } in
    got h (record (r.1) {
      read_list = h ∷ r.1.read_list;
      page_map = (page_code, h.hdr_id) ∷ r.1.page_map;
    })

-- A turn of the loop of GetPage while the server runs.
unfoldable pub get_page : ℕ → List PageHdr → PagePool → PageResult
get_page page_code alloc p = elim (find_page page_code p.page_map) [
  | some i ↦ attach (pull i p.read_list) p
  | none ↦ set_page page_code (get_free_page alloc p) p
]

abbrev erase_masked : ℕ → ℕ → List (ℕ × ℕ) → List (ℕ × ℕ)
erase_masked page_code mask_code [] = []
erase_masked page_code mask_code (e ∷ es) =
    let rest = erase_masked page_code mask_code es in
    if bit_and (e.0) mask_code == page_code then rest else e ∷ rest

-- The headers stay in their list with their codes.
unfoldable pub clear_page_for_mask : ℕ → ℕ → PagePool → PagePool
clear_page_for_mask page_code mask_code p = record p {
  page_map = erase_masked page_code mask_code p.page_map;
}
