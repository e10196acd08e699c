-- ===== src/Part/Lists.antt =====
-- Putting a record into two lists of records, one behind the other in time.
use pinusdb.Prelude.{
  ℕ, zero, suc, ◌<◌, ◌≡◌, ap, refl, List, [], ◌∷◌, ◌++◌, length, take, All, arith,
}
use pinusdb.Prelude.Int.{ℤ, ◌<ℤ◌}
use pinusdb.Page.Records.{stamp, put_rec}
use pinusdb.Page.Edits.{put_at}
use pinusdb.Page.Places.{stamp_of}

-- All of the first are earlier.
pub put_rec-append_behind :
    (r : List ℕ) (ls ms : List (List ℕ))
    → All (λ s. stamp s <ℤ stamp r) ls
    → put_rec r (ls ++ ms) ≡ ls ++ put_rec r ms
unfolding put_rec
put_rec-append_behind r [] ms h = refl
put_rec-append_behind r (l ∷ ls) ms (h, hs) =
    let rest = put_rec-append_behind r ls ms hs in ground (arith, rest)

-- The second begins later.
pub put_rec-append_before :
    (r m : List ℕ) (ls ms : List (List ℕ))
    → stamp r <ℤ stamp m
    → put_rec r (ls ++ (m ∷ ms)) ≡ put_rec r ls ++ (m ∷ ms)
unfolding put_rec
put_rec-append_before r m [] ms h = ground arith
put_rec-append_before r m (l ∷ ls) ms h =
    let rest = put_rec-append_before r m ls ms h in ground (arith, rest)

pub put_at-append :
    (r : List ℕ) (ls ms : List (List ℕ)) → put_at (length ls) r (ls ++ ms) ≡ ls ++ (r ∷ ms)
put_at-append r [] ms = refl
put_at-append r (l ∷ ls) ms = ap (λ t. l ∷ t) (put_at-append r ls ms)

pub append_nil : (ls : List (List ℕ)) → ls ++ [] ≡ ls
append_nil [] = refl
append_nil (l ∷ ls) = ap (λ t. l ∷ t) (append_nil ls)

pub append-assoc_one :
    (ls ms : List (List ℕ)) (r : List ℕ) → (ls ++ (r ∷ [])) ++ ms ≡ ls ++ (r ∷ ms)
append-assoc_one [] ms r = refl
append-assoc_one (l ∷ ls) ms r = ap (λ t. l ∷ t) (append-assoc_one ls ms r)

-- The first records of a list in order are earlier than the one that follows them.
pub take-All_before :
    (k : ℕ) (rs : List (List ℕ)) (t : ℤ)
    → ((i : ℕ) → i < k → i < length rs → stamp_of rs i <ℤ t)
    → All (λ s. stamp s <ℤ t) (take k rs)
take-All_before zero rs t h = tt
take-All_before (suc k) [] t h = tt
take-All_before (suc k) (r ∷ rs) t h = (
  h 0 (omega arith) (omega arith),
  take-All_before k rs t (λ i l b. h (suc i) (omega arith) (omega arith)),
)
