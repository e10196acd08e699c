-- ===== src/Page/Edits.antt =====
-- Lists of records in which one is put at a place, or one is replaced.
use pinusdb.Prelude.{
  ℕ, zero, suc, ◌+◌, ◌≤◌, ◌<◌, ◌≡◌, ◌≢◌, ap, refl, List, [], ◌∷◌, length, get_or, All, arith,
}
use pinusdb.Page.Records.{total}

-- A record at a place of the list.
abbrev pub put_at : ℕ → List ℕ → List (List ℕ) → List (List ℕ)
put_at zero r rs = r ∷ rs
put_at (suc k) r [] = r ∷ []
put_at (suc k) r (s ∷ rs) = s ∷ put_at k r rs

pub length-put_at :
    (k : ℕ) (r : List ℕ) (rs : List (List ℕ)) → length (put_at k r rs) ≡ suc (length rs)
length-put_at zero r rs = refl
length-put_at (suc k) r [] = refl
length-put_at (suc k) r (s ∷ rs) = ap suc (length-put_at k r rs)

pub total-put_at :
    (k : ℕ) (r : List ℕ) (rs : List (List ℕ)) → total (put_at k r rs) ≡ length r + total rs
total-put_at zero r rs = refl
total-put_at (suc k) r [] = refl
total-put_at (suc k) r (s ∷ rs) = omega (arith, total-put_at k r rs)

module _ (P : List ℕ → Type 0) where
  pub All-put_at :
      (k : ℕ) (r : List ℕ) (rs : List (List ℕ)) → P r → All P rs → All P (put_at k r rs)
  All-put_at zero r rs h a = (h, a)
  All-put_at (suc k) r [] h a = (h, tt)
  All-put_at (suc k) r (s ∷ rs) h (b, a) = (b, All-put_at k r rs h a)

pub get_or-put_at_before :
    (k i : ℕ) (r : List ℕ) (rs : List (List ℕ))
    → i < k
    → k ≤ length rs
    → get_or (put_at k r rs) i [] ≡ get_or rs i []
get_or-put_at_before zero i r rs h l = absurd (omega arith)
get_or-put_at_before (suc k) i r [] h l = absurd (omega arith)
get_or-put_at_before (suc k) zero r (s ∷ rs) h l = refl
get_or-put_at_before (suc k) (suc i) r (s ∷ rs) h l =
    get_or-put_at_before k i r rs (omega arith) (omega arith)

pub get_or-put_at_self :
    (k : ℕ) (r : List ℕ) (rs : List (List ℕ)) → k ≤ length rs → get_or (put_at k r rs) k [] ≡ r
get_or-put_at_self zero r rs l = refl
get_or-put_at_self (suc k) r [] l = absurd (omega arith)
get_or-put_at_self (suc k) r (s ∷ rs) l = get_or-put_at_self k r rs (omega arith)

pub get_or-put_at_behind :
    (k i : ℕ) (r : List ℕ) (rs : List (List ℕ))
    → k ≤ i
    → get_or (put_at k r rs) (suc i) [] ≡ get_or rs i []
get_or-put_at_behind zero i r rs h = refl
get_or-put_at_behind (suc k) i r [] h = get_or_nil i
  where
    get_or_nil : (i : ℕ) → get_or (r ∷ []) (suc i) [] ≡ get_or [] i []
    get_or_nil i = refl
get_or-put_at_behind (suc k) zero r (s ∷ rs) h = absurd (omega arith)
get_or-put_at_behind (suc k) (suc i) r (s ∷ rs) h = get_or-put_at_behind k i r rs (omega arith)

abbrev pub set_at : ℕ → List ℕ → List (List ℕ) → List (List ℕ)
set_at k r [] = []
set_at zero r (s ∷ rs) = r ∷ rs
set_at (suc k) r (s ∷ rs) = s ∷ set_at k r rs

pub length-set_at : (k : ℕ) (r : List ℕ) (rs : List (List ℕ)) → length (set_at k r rs) ≡ length rs
length-set_at k r [] = refl
length-set_at zero r (s ∷ rs) = refl
length-set_at (suc k) r (s ∷ rs) = ap suc (length-set_at k r rs)

pub total-set_at :
    (k : ℕ) (r : List ℕ) (rs : List (List ℕ))
    → k < length rs
    → total (set_at k r rs) + length (get_or rs k []) ≡ total rs + length r
total-set_at k r [] h = absurd (omega arith)
total-set_at zero r (s ∷ rs) h = omega arith
total-set_at (suc k) r (s ∷ rs) h = omega (arith, total-set_at k r rs)

module _ (P : List ℕ → Type 0) where
  pub All-set_at :
      (k : ℕ) (r : List ℕ) (rs : List (List ℕ)) → P r → All P rs → All P (set_at k r rs)
  All-set_at k r [] h a = tt
  All-set_at zero r (s ∷ rs) h (b, a) = (h, a)
  All-set_at (suc k) r (s ∷ rs) h (b, a) = (b, All-set_at k r rs h a)

pub get_or-set_at_self :
    (k : ℕ) (r : List ℕ) (rs : List (List ℕ)) → k < length rs → get_or (set_at k r rs) k [] ≡ r
get_or-set_at_self k r [] h = absurd (omega arith)
get_or-set_at_self zero r (s ∷ rs) h = refl
get_or-set_at_self (suc k) r (s ∷ rs) h = get_or-set_at_self k r rs (omega arith)

pub get_or-set_at_other :
    (k i : ℕ) (r : List ℕ) (rs : List (List ℕ))
    → i ≢ k
    → get_or (set_at k r rs) i [] ≡ get_or rs i []
get_or-set_at_other k i r [] h = refl
get_or-set_at_other zero zero r (s ∷ rs) h = absurd (h refl)
get_or-set_at_other zero (suc i) r (s ∷ rs) h = refl
get_or-set_at_other (suc k) zero r (s ∷ rs) h = refl
get_or-set_at_other (suc k) (suc i) r (s ∷ rs) h = get_or-set_at_other k i r rs (λ e. h (ap suc e))
