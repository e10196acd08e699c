-- ===== src/Part.antt =====
-- InsertRec of src/pinusdb/storage/normal_data_part.cpp: the pages of a partition and its index.
-- What AllocPage and GetPage return are arguments: the number of a page that is new, and the code
-- of the page pool. The pages are those in memory, by number, each as the object that Load gives. The mutexes, the log lines and the
-- marks isFull and splitGrp of a page, which order the writing, are left out.
mod Tests
pub mod Lists
pub mod Fits
pub mod Sizes
pub mod Grown
pub mod Inserted
pub mod Indexed
use pinusdb.Prelude.{
  ℕ, ◌+◌, ◌≤◌, Bool, true, false, not, ◌&&◌, Option, none, some, List, [], ◌∷◌, ◌++◌, ◌==◌,
  if◌then◌else◌,
}
use pinusdb.Prelude.Int.{ℤ, pos, ltb_ℤ}
use pinusdb.Value.{PdbErr, ok, page_fill, dev_not_found, file_readonly, table_field_mismatch, on_ok}
use pinusdb.Index.{NormalPartIdx, MemPageIdx, get_index, get_next_index, add_idx}
use pinusdb.Page.{NormalDataPage, init, insert_rec, get_last_tstamp, page_size, same_ts}
use pinusdb.Page.Split.{split_most}

-- What becomes of a page that takes in a record, with the page that is new.
pub record PageOutcome : Type 0 where
  pub ret_val : PdbErr
  pub old_page : NormalDataPage
  pub new_page : Option NormalDataPage
  pub is_split : Bool

abbrev pub is_ok : PdbErr → Bool
is_ok ok = true
is_ok _ = false

abbrev on_fill {ℓ} : {A : Type ℓ} → PdbErr → A → A → A
on_fill page_fill rest out = rest
on_fill _ rest out = out

abbrev failed : PdbErr → NormalDataPage → Option PageOutcome
failed e p = some (record { ret_val = e; old_page = p; new_page = none; is_split = false })

-- A record behind all others goes to a new page.
abbrev append_page : Option (PdbErr × NormalDataPage) → NormalDataPage → Option PageOutcome
append_page none p = none
append_page (some s) p =
    on_ok (s.0)
      (some (record {
        ret_val = ok;
        old_page = p;
        new_page = some (record (s.1) { only_mem = true });
        is_split = false;
      }))
      (failed (s.0) p)

abbrev insert_behind : Option (PdbErr × NormalDataPage) → NormalDataPage → Option PageOutcome
insert_behind none p = none
insert_behind (some s) p =
    some (record { ret_val = s.0; old_page = p; new_page = some (s.1); is_split = true })

abbrev insert_before : Option (PdbErr × NormalDataPage) → NormalDataPage → Option PageOutcome
insert_before none q = none
insert_before (some s) q =
    some (record { ret_val = s.0; old_page = s.1; new_page = some q; is_split = true })

-- Another record goes into one of the pages that a split leaves.
abbrev pub insert_split :
    ℤ → List ℕ → NormalDataPage → PdbErr × NormalDataPage × NormalDataPage → Option PageOutcome
insert_split tstamp rec p parts =
    on_ok parts.0
      (if ltb_ℤ parts.2.idx_ts tstamp
        then insert_behind (insert_rec tstamp rec true parts.2) parts.1
        else insert_before (insert_rec tstamp rec true parts.1) parts.2)
      (failed parts.0 p)

unfoldable pub split_page : Bool → ℤ → List ℕ → NormalDataPage → NormalDataPage → Option PageOutcome
unfolding split_most
split_page is_last tstamp rec p q =
    insert_split tstamp rec p (split_most (if is_last then 24576 else 32768) p q)

unfoldable pub grow_page : PdbErr × ℤ → ℤ → Bool → ℤ → List ℕ → NormalDataPage → Option PageOutcome
unfolding split_page init get_last_tstamp
grow_page alloc dev_id is_last tstamp rec p =
    let last = get_last_tstamp (pos 0) p in
    let q = init alloc.1 dev_id tstamp in
    on_ok last.0
      (on_ok alloc.0
        (if ltb_ℤ last.1 tstamp
          then append_page (insert_rec tstamp rec true q) p
          else split_page is_last tstamp rec p q)
        (failed alloc.0 p))
      (failed last.0 p)

-- The branch of InsertRec for a device with a page.
abbrev fill_page :
    PdbErr × ℤ → ℤ → Bool → ℤ → List ℕ → Option (PdbErr × NormalDataPage) → Option PageOutcome
fill_page alloc dev_id is_last tstamp rec none = none
fill_page alloc dev_id is_last tstamp rec (some r) =
    on_fill (r.0) (grow_page alloc dev_id is_last tstamp rec (r.1)) (failed (r.0) (r.1))

unfoldable pub insert_page :
    PdbErr × ℤ → ℤ → Bool → ℤ → List ℕ → NormalDataPage → Option PageOutcome
unfolding grow_page
insert_page alloc dev_id is_last tstamp rec p =
    fill_page alloc dev_id is_last tstamp rec (insert_rec tstamp rec true p)

pub record NormalDataPart : Type 0 where
  pub read_only : Bool
  pub part_meta_code : ℕ
  pub bg_day_ts : ℤ
  pub normal_idx : NormalPartIdx
  pub pages : ℤ → NormalDataPage
  pub dirty_list : List ℤ

abbrev pub put_page : ℤ → NormalDataPage → (ℤ → NormalDataPage) → ℤ → NormalDataPage
put_page page_no p pages n = if same_ts page_no n then p else pages n

-- The first record of a device goes to a page of the day.
abbrev pub insert_first :
    ℤ → ℤ → Option (PdbErr × NormalDataPage) → NormalDataPart → Option (PdbErr × NormalDataPart)
insert_first page_no dev_id none s = none
insert_first page_no dev_id (some r) s =
    let added = add_idx dev_id s.bg_day_ts page_no s.normal_idx in
    some (
      on_ok (r.0)
        (
          added.0,
          record s {
            pages = put_page page_no (record (r.1) { only_mem = true }) s.pages;
            dirty_list = s.dirty_list ++ (page_no ∷ []);
            normal_idx = added.1;
          },
        )
        (r.0, s))

-- A page that has become dirty is put into the list.
abbrev pub mark_dirty : ℤ → NormalDataPage → NormalDataPage → List ℤ → List ℤ
mark_dirty page_no old p dirty_list =
    if not old.is_dirty && p.is_dirty then dirty_list ++ (page_no ∷ []) else dirty_list

abbrev pub store_new :
    ℤ → ℤ → ℤ → PageOutcome → Option NormalDataPage → NormalDataPart → PdbErr × NormalDataPart
store_new new_no dev_id page_no out none s = (
  out.ret_val,
  record s {
    pages = put_page page_no out.old_page s.pages;
    dirty_list = mark_dirty page_no (s.pages page_no) out.old_page s.dirty_list;
  },
)
store_new new_no dev_id page_no out (some q) s =
    let added = add_idx dev_id q.idx_ts new_no s.normal_idx in
    (
      if out.is_split then out.ret_val else added.0,
      record s {
        pages = put_page new_no q (put_page page_no out.old_page s.pages);
        dirty_list =
            mark_dirty page_no (s.pages page_no) out.old_page (s.dirty_list ++ (new_no ∷ []));
        normal_idx = added.1;
      },
    )

abbrev pub store_outcome :
    ℤ → ℤ → ℤ → Option PageOutcome → NormalDataPart → Option (PdbErr × NormalDataPart)
store_outcome new_no dev_id page_no none s = none
store_outcome new_no dev_id page_no (some out) s =
    some (store_new new_no dev_id page_no out out.new_page s)

abbrev pub is_missing : PdbErr → Bool
is_missing dev_not_found = true
is_missing _ = false

-- `alloc` is what AllocPage returns, `got` what GetPage returns.
unfoldable pub insert :
    PdbErr × ℤ → PdbErr → ℕ → ℤ → ℤ → List ℕ → NormalDataPart → Option (PdbErr × NormalDataPart)
unfolding insert_page
insert alloc got meta_code dev_id tstamp rec s =
    let idx = get_index dev_id tstamp s.normal_idx in
    let is_last = not (is_ok (get_next_index dev_id tstamp s.normal_idx).0) in
    let first =
      insert_first alloc.1 dev_id (insert_rec tstamp rec true (init alloc.1 dev_id s.bg_day_ts))
        s in
    let next =
      store_outcome alloc.1 dev_id idx.1.page_no
        (insert_page alloc dev_id is_last tstamp rec (s.pages idx.1.page_no)) s in
    if s.read_only
    then some (file_readonly, s)
    else if not (meta_code == s.part_meta_code)
    then some (table_field_mismatch, s)
    else if is_missing idx.0
    then on_ok alloc.0 first (some (alloc.0, s))
    else if is_ok idx.0
    then on_ok got next (some (got, s))
    else some (idx.0, s)
