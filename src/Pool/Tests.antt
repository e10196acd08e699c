-- ===== src/Pool/Tests.antt =====
-- Runs of the page pool of src/pinusdb/db/page_pool.cpp.
use pinusdb.Prelude.{ℕ, ◌≡◌, refl, false, none, [], ◌∷◌, arith}
use pinusdb.Pool.{
  PageHdr, PagePool, PageResult, got, waits, get_page, find_page, clear_page_for_mask,
}
use pinusdb.Pool.Kept.{get_page-IsKept, IsKept}

abbrev hdr : ℕ → ℕ → ℕ → PageHdr
hdr i code refs = record { hdr_id = i; page_code = code; is_dirty = false; ref_cnt = refs }

abbrev two_pages : PagePool
two_pages = record {
  read_list = hdr 1 70 1 ∷ hdr 2 80 0 ∷ [];
  free_list = [];
  page_map = (70, 1) ∷ (80, 2) ∷ [];
}

get_page-IsKept_example : IsKept 90 two_pages (get_page 90 [] two_pages)
get_page-IsKept_example =
    get_page-IsKept 90 [] two_pages
      ((refl, (refl, tt)), (((λ e. ground (arith, e)), tt), (tt, tt)), tt, tt) tt tt

abbrev pool_of : PageResult → PagePool
pool_of (got h p) = p
pool_of (waits p) = p

-- The page of 80 is taken for 90, and that of 70, which is in use, stays.
reuse_run : (pool_of (get_page 90 [] two_pages)).page_map ≡ (90, 2) ∷ (70, 1) ∷ []
unfolding get_page
reuse_run = refl

abbrev cleared : PagePool
cleared = pool_of (
    get_page 80 (hdr 3 0 0 ∷ []) (
      clear_page_for_mask 80 255
        (record { read_list = hdr 2 80 0 ∷ []; free_list = []; page_map = (80, 2) ∷ [] })))

-- The header that a mask cleared is reused, and the page of its code that is in use is lost.
stale_run : find_page 80 (pool_of (get_page 90 [] cleared)).page_map ≡ none
unfolding get_page clear_page_for_mask
stale_run = refl
