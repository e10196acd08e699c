-- ===== src/Pool/Kept.antt =====
-- Which pages of the cache GetPage of src/pinusdb/db/page_pool.cpp gives up.
use pinusdb.Prelude.{
  All-map, ℕ, ◌≡◌, ◌≢◌, ◌⊎◌, refl, sym, ap, ◌∙◌, true, ◌==◌, ==_iff, Option, none, some, List, [],
  ◌∷◌, All, arith, if_cases, if◌then◌else◌,
}
use pinusdb.Pool.{
  PageHdr, PagePool, find_page, erase_page, is_clean, reuse, pull, refill, take_free, get_free_page,
  attach, set_page, PageResult, got, waits, get_page,
}

-- The headers have different numbers.
abbrev pub Distinct : List PageHdr → Type 0
Distinct [] = Unit
Distinct (h ∷ hs) = All (λ g. g.hdr_id ≢ h.hdr_id) hs × Distinct hs

-- The map finds the header under its code.
abbrev pub IsMapped : List (ℕ × ℕ) → PageHdr → Type 0
IsMapped m h = find_page h.page_code m ≡ some h.hdr_id

abbrev pub Apart : List PageHdr → List PageHdr → Type 0
Apart fs hs = All (λ f. All (λ h. h.hdr_id ≢ f.hdr_id) hs) fs

-- All the pages that have been read are mapped, and no header stands in the lists twice.
abbrev pub IsPool : PagePool → Type 0
IsPool p =
    All (IsMapped p.page_map) p.read_list
    × Distinct p.read_list
    × Distinct p.free_list
    × Apart p.free_list p.read_list

module _ {ℓ κ μ ν} {A : Type ℓ} {P : A → Type κ} {Q : A → Type μ} {R : A → Type ν} where
  All-both : ((a : A) → P a → Q a → R a) → (xs : List A) → All P xs → All Q xs → All R xs
  All-both f [] h k = tt
  All-both f (x ∷ xs) (h, hs) (k, ks) = (f x h k, All-both f xs hs ks)

find-erase : (c d : ℕ) (m : List (ℕ × ℕ)) → c ≢ d → find_page c (erase_page d m) ≡ find_page c m
find-erase c d [] n = refl
find-erase c d (e ∷ es) n = ground (arith, find-erase c d es n)

find-erase_none :
    (c d : ℕ) (m : List (ℕ × ℕ)) → find_page c m ≡ none → find_page c (erase_page d m) ≡ none
find-erase_none c d [] n = refl
find-erase_none c d (e ∷ es) n = ground (arith, find-erase_none c d es)

id_of : (i j : ℕ) → some i ≡ some j → i ≡ j
id_of i j e = cc

-- Two mapped headers have different codes.
IsMapped-erase :
    (m : List (ℕ × ℕ)) (g v : PageHdr)
    → IsMapped m g
    → IsMapped m v
    → g.hdr_id ≢ v.hdr_id
    → IsMapped (erase_page v.page_code m) g
IsMapped-erase m g v e f u =
    find-erase g.page_code v.page_code m
      (λ q. u (id_of _ _ (sym e ∙ ap (λ c. find_page c m) q ∙ f)))
    ∙ e

-- A header and the others of a list.
data Picked : List PageHdr → PageHdr → List PageHdr → Type 0 where
  here : {h : PageHdr} {hs : List PageHdr} → Picked (h ∷ hs) h hs
  there : {h v : PageHdr} {hs rest : List PageHdr} → Picked hs v rest → Picked (h ∷ hs) v (h ∷ rest)

All-Picked :
    (P : PageHdr → Type 0) {hs rest : List PageHdr} {v : PageHdr}
    → Picked hs v rest
    → All P hs
    → P v × All P rest
All-Picked P here (h, hs) = (h, hs)
All-Picked P (there k) (h, hs) = let (v, rest) = All-Picked P k hs in (v, (h, rest))

Picked-All :
    (P : PageHdr → Type 0) {hs rest : List PageHdr} {v : PageHdr}
    → Picked hs v rest
    → P v
    → All P rest
    → All P hs
Picked-All P here v rest = (v, rest)
Picked-All P (there k) v (h, rest) = (h, Picked-All P k v rest)

Picked-Distinct :
    {hs rest : List PageHdr} {v : PageHdr}
    → Picked hs v rest
    → Distinct hs
    → Distinct rest × All (λ g. g.hdr_id ≢ v.hdr_id) rest
Picked-Distinct here (a, d) = (d, a)
Picked-Distinct (there k) (a, d) =
    let (dr, av) = Picked-Distinct k d in
    let (v, ar) = All-Picked (λ g. g.hdr_id ≢ _) k a in ((ar, dr), ((λ e. v (sym e)), av))

abbrev IsReuse : List PageHdr → Option (PageHdr × List PageHdr) → Type 0
IsReuse hs none = Unit
IsReuse hs (some r) = Picked hs r.0 r.1 × (is_clean r.0 ≡ true)

reuse-IsReuse : (hs : List PageHdr) → IsReuse hs (reuse hs)
reuse-IsReuse [] = tt
reuse-IsReuse (h ∷ hs) = go (reuse hs) (reuse-IsReuse hs)
  where
    go :
        (o : Option (PageHdr × List PageHdr))
        → IsReuse hs o
        → IsReuse (h ∷ hs) (elim o [
          | some r ↦ some (r.0, h ∷ r.1)
          | none ↦ if is_clean h then some (h, hs) else none
        ])
    go none k = if_cases (IsReuse (h ∷ hs)) (is_clean h) (λ y. (here, y)) (λ _. tt)
    go (some r) (k, y) = (there k, y)

abbrev IsPulled : ℕ → List PageHdr → Option (PageHdr × List PageHdr) → Type 0
IsPulled i hs none = Unit
IsPulled i hs (some r) = Picked hs r.0 r.1 × (r.0.hdr_id ≡ i)

pull-IsPulled : (i : ℕ) (hs : List PageHdr) → IsPulled i hs (pull i hs)
pull-IsPulled i [] = tt
pull-IsPulled i (h ∷ hs) =
    if_cases (IsPulled i (h ∷ hs)) (h.hdr_id == i) (λ y. (here, (==_iff (h.hdr_id) i).0 y))
      (λ _. go (pull i hs) (pull-IsPulled i hs))
  where
    go :
        (o : Option (PageHdr × List PageHdr))
        → IsPulled i hs o
        → IsPulled i (h ∷ hs) (elim o [ none ↦ none | some r ↦ some (r.0, h ∷ r.1) ])
    go none k = tt
    go (some r) (k, y) = (there k, y)

-- A page that is still to be written, or that a reference holds.
abbrev pub IsUsed : PageHdr → Type 0
IsUsed h = (h.is_dirty ≡ true) ⊎ (h.ref_cnt ≢ 0)

is_clean-IsUsed : {A : Type 0} (h : PageHdr) → is_clean h ≡ true → IsUsed h → A
is_clean-IsUsed h y u = ground arith

-- What holds when a header is at hand for a page whose code the map does not find.
abbrev IsTaken : ℕ → PagePool → Option (PageHdr × PagePool) → Type 0
IsTaken code p none = Unit
IsTaken code p (some r) =
    IsPool r.1
    × All (λ g. g.hdr_id ≢ r.0.hdr_id) r.1.read_list
    × All (λ g. r.0.hdr_id ≢ g.hdr_id) r.1.free_list
    × (find_page code r.1.page_map ≡ none)
    × All (λ h. IsUsed h → IsMapped r.1.page_map h) p.read_list

take_free-IsTaken :
    (code : ℕ) (fs : List PageHdr) (p : PagePool)
    → All (IsMapped p.page_map) p.read_list
    → Distinct p.read_list
    → Distinct fs
    → Apart fs p.read_list
    → find_page code p.page_map ≡ none
    → IsTaken code p (take_free fs p)
take_free-IsTaken code (f ∷ fs) p m d (ff, df) (a, az) n =
    ((m, d, df, az), a, All-map (λ g e q. e (sym q)) fs ff, n, All-map (λ h k _. k) p.read_list m)
take_free-IsTaken code [] p m d df a n = go (reuse p.read_list) (reuse-IsReuse p.read_list)
  where
    go :
        (o : Option (PageHdr × List PageHdr))
        → IsReuse p.read_list o
        → IsTaken code p (elim o [
          | none ↦ none
          | some r ↦ some (
            r.0,
            record p {
              read_list = r.1;
              free_list = [];
              page_map = erase_page (r.0.page_code) p.page_map;
            },
          )
        ])
    go none k = tt
    go (some r) (k, y) =
        let (dr, av) = Picked-Distinct k d in
        let (mv, mr) = All-Picked (IsMapped p.page_map) k m in
        let kept = All-both (λ g e u. IsMapped-erase p.page_map g r.0 e mv u) r.1 mr av in
        (
          (kept, dr, tt, tt),
          av,
          tt,
          find-erase_none code r.0.page_code p.page_map n,
          Picked-All (λ h. IsUsed h → IsMapped (erase_page r.0.page_code p.page_map) h) k
              (λ u. is_clean-IsUsed r.0 y u) (All-map (λ h e _. e) r.1 kept),
        )

get_free_page-IsTaken :
    (code : ℕ) (alloc fs : List PageHdr) (p : PagePool)
    → All (IsMapped p.page_map) p.read_list
      × Distinct p.read_list
      × Distinct fs
      × Apart fs p.read_list
    → Distinct alloc
    → Apart alloc p.read_list
    → find_page code p.page_map ≡ none
    → IsTaken code p (take_free (refill alloc fs) p)
get_free_page-IsTaken code alloc [] p (m, d, _, _) da aa n =
    take_free-IsTaken code alloc p m d da aa n
get_free_page-IsTaken code alloc (f ∷ fs) p (m, d, df, a) _ _ n =
    take_free-IsTaken code (f ∷ fs) p m d df a n

-- What a turn of the loop keeps.
abbrev pub IsKept : ℕ → PagePool → PageResult → Type 0
IsKept code p (waits q) = q ≡ p
IsKept code p (got h q) =
    IsPool q
    × (find_page code q.page_map ≡ some h.hdr_id)
    × All (λ g. IsUsed g → IsMapped q.page_map g) p.read_list

IsMapped-insert :
    (code i : ℕ) (m : List (ℕ × ℕ)) (h : PageHdr)
    → find_page code m ≡ none
    → IsMapped m h
    → IsMapped ((code, i) ∷ m) h
IsMapped-insert code i m h n e = ground arith

found_here : (code i : ℕ) (m : List (ℕ × ℕ)) → find_page code ((code, i) ∷ m) ≡ some i
found_here code i m = ground arith

set_page-IsKept :
    (code : ℕ) (o : Option (PageHdr × PagePool)) (p : PagePool)
    → IsTaken code p o
    → IsKept code p (set_page code o p)
set_page-IsKept code none p k = refl
set_page-IsKept code (some r) p ((m, d, df, a), u, w, n, kept) =
    let into = IsMapped-insert code r.0.hdr_id r.1.page_map in
    (
      (
        (found_here code r.0.hdr_id r.1.page_map, All-map (λ h e. into h n e) r.1.read_list m),
        (u, d),
        df,
        All-both (λ f e b. (e, b)) r.1.free_list w a,
      ),
      found_here code r.0.hdr_id r.1.page_map,
      (All-map (λ h e c. into h n (e c)) p.read_list kept),
    )

attach-IsKept :
    (code i : ℕ) (o : Option (PageHdr × List PageHdr)) (p : PagePool)
    → IsPool p
    → find_page code p.page_map ≡ some i
    → IsPulled i p.read_list o
    → IsKept code p (attach o p)
attach-IsKept code i none p w f k = refl
attach-IsKept code i (some r) p (m, d, df, a) f (k, e) =
    let (dr, av) = Picked-Distinct k d in
    (
      (
        All-Picked (IsMapped p.page_map) k m,
        (av, dr),
        df,
        All-map (λ g b. All-Picked (λ h. h.hdr_id ≢ g.hdr_id) k b) p.free_list a,
      ),
      f ∙ ap some (sym e),
      (All-map (λ h b _. b) p.read_list m),
    )

-- On a pool whose read pages are all found in the map, and whose headers differ, a turn of the loop
-- of GetPage gives a header that the map finds under the code, keeps in the map every page that is
-- dirty or referenced, and leaves such a pool; or it waits and changes nothing. The headers that a
-- call allocates are new.
pub get_page-IsKept :
    (code : ℕ) (alloc : List PageHdr) (p : PagePool)
    → IsPool p
    → Distinct alloc
    → Apart alloc p.read_list
    → IsKept code p (get_page code alloc p)
unfolding get_page
get_page-IsKept code alloc p w da aa = go (find_page code p.page_map) refl
  where
    go :
        (o : Option ℕ)
        → find_page code p.page_map ≡ o
        → IsKept code p (elim o [
          | some i ↦ attach (pull i p.read_list) p
          | none ↦ set_page code (get_free_page alloc p) p
        ])
    go (some i) e = attach-IsKept code i (pull i p.read_list) p w e (pull-IsPulled i p.read_list)
    go none e =
        set_page-IsKept code (get_free_page alloc p) p
          (get_free_page-IsTaken code alloc p.free_list p w da aa e)
