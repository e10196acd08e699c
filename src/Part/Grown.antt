-- ===== src/Part/Grown.antt =====
-- The branch of InsertRec of src/pinusdb/storage/normal_data_part.cpp for a device with a page: the
-- records of the page that it finds and of the page that may be new.
use mathlib.Core.Path.{subst}
use pinusdb.Prelude.{
  ℕ, suc, ◌+◌, ◌≤◌, ◌<◌, ◌≡◌, ◌⊎◌, inl, inr, ap, sym, ◌∙◌, refl, true, Option, none, some, List, [],
  ◌∷◌, ◌++◌, length, get_or, take, drop, length-take, length-drop, take-append-drop, All, arith,
  ltb→lt, ltb→ge, Bool-cases,
}
use pinusdb.Prelude.Int.{ltb_ℤ, ◌<ℤ◌, ◌≤ℤ◌}
use pinusdb.Value.{ok}
use pinusdb.Page.{NormalDataPage, page_size, head_size, rec_idx_len, insert_rec}
use pinusdb.Page.Records.{IsPage, IsRec, stamp, put_rec}
use pinusdb.Page.Edits.{put_at}
use pinusdb.Page.Reload.{insert_rec-Keeps}
use pinusdb.Page.Places.{stamp_of, Same}
use pinusdb.Page.Split.Parts.{need, drop-next}
use pinusdb.Part.{PageOutcome, insert_behind, insert_before}
use pinusdb.Part.Lists.{
  put_rec-append_behind, put_rec-append_before, put_at-append, append_nil, append-assoc_one,
  take-All_before,
}
use pinusdb.Part.Fits.{insert_rec-fits}

-- The pages show a list of records: the new page begins with the time that goes into the index.
abbrev pub Shows : NormalDataPage → Option NormalDataPage → List (List ℕ) → Type 0
Shows p none ws = IsPage p ws
Shows p (some q) ws =
    (ls : List (List ℕ)) × (m : List ℕ) × (ms : List (List ℕ)) × IsPage p ls
    × IsPage q (m ∷ ms)
    × (ls ++ (m ∷ ms) ≡ ws)
    × (q.idx_ts ≡ stamp m)

-- The record is in its place, or it stands before one of its time.
abbrev pub IsPut : List (List ℕ) → List ℕ → List (List ℕ) → Type 0
IsPut rs rec ws =
    (ws ≡ put_rec rec rs)
    ⊎ ((k : ℕ) × (k < length rs) × Same (stamp rec) (stamp_of rs k) × (ws ≡ put_at k rec rs))

abbrev pub IsDone : List (List ℕ) → List ℕ → Option PageOutcome → Type 0
IsDone rs rec o =
    (out : PageOutcome) × (o ≡ some out)
    × (out.ret_val ≡ ok)
    × (ws : List (List ℕ)) × Shows out.old_page out.new_page ws
    × IsPut rs rec ws

pub put_rec_nil : (r : List ℕ) → put_rec r [] ≡ r ∷ []
unfolding put_rec
put_rec_nil r = refl

put_rec-first :
    (r m : List ℕ) (ms : List (List ℕ)) → stamp m <ℤ stamp r → put_rec r (m ∷ ms) ≡ m ∷ put_rec r ms
unfolding put_rec
put_rec-first r m ms h = ground arith

module _ (rs : List (List ℕ)) (rec : List ℕ) (is_rec : IsRec rec) (p q : NormalDataPage) (k : ℕ)
    (b : k < length rs) (hp : IsPage p (take k rs)) (hq : IsPage q (drop k rs))
    (first : q.idx_ts ≡ stamp_of rs k)
    (sorted : (i j : ℕ) → i < j → j < length rs → stamp_of rs i <ℤ stamp_of rs j) where
  abbrev m : List ℕ
  m = get_or rs k []

  abbrev ms : List (List ℕ)
  ms = drop (suc k) rs

  parts : take k rs ++ (m ∷ ms) ≡ rs
  parts = ap (λ l. take k rs ++ l) (sym (drop-next k rs [] b)) ∙ take-append-drop k rs

  before : stamp m ≤ℤ stamp rec → All (λ s. stamp s <ℤ stamp rec) (take k rs)
  before h = take-All_before k rs (stamp rec) λ i l c. let s = sorted i k l b in omega arith

  pub behind-IsDone :
      head_size + need (drop k rs) + (length rec + rec_idx_len) ≤ page_size
      → stamp m <ℤ stamp rec
      → IsDone rs rec (insert_behind (insert_rec (stamp rec) rec true q) p)
  behind-IsDone room l =
      let len = length-drop k rs in
      let (r, e, hr) =
        insert_rec-fits rec is_rec q (drop k rs) hq (inl (omega (arith, len, b))) room in
      let put : put_rec rec (drop k rs) ≡ m ∷ put_rec rec ms =
        ap (put_rec rec) (drop-next k rs [] b) ∙ put_rec-first rec m ms l in
      let whole : take k rs ++ (m ∷ put_rec rec ms) ≡ put_rec rec rs =
        ap (λ t. take k rs ++ t) (sym (put_rec-first rec m ms l))
        ∙ sym (put_rec-append_behind rec (take k rs) (m ∷ ms) (before (omega arith)))
        ∙ ap (put_rec rec) parts in
      rw e (
        _,
        refl,
        refl,
        put_rec rec rs,
        (
          take k rs,
          m,
          put_rec rec ms,
          hp,
          subst (IsPage r) put hr,
          whole,
          (insert_rec-Keeps (stamp rec) rec true q r ok e).2 ∙ first,
        ),
        inl refl,
      )

  pub before-IsDone :
      0 < k
      → head_size + need (take k rs) + (length rec + rec_idx_len) ≤ page_size
      → stamp rec ≤ℤ stamp m
      → IsDone rs rec (insert_before (insert_rec (stamp rec) rec true p) q)
  before-IsDone some_left room l =
      let len = length-take k rs (omega arith) in
      let (r, e, hr) =
        insert_rec-fits rec is_rec p (take k rs) hp (inl (omega (arith, len))) room in
      let hq' = subst (IsPage q) (drop-next k rs [] b) hq in
      rw e (
        _,
        refl,
        refl,
        put_rec rec (take k rs) ++ (m ∷ ms),
        (put_rec rec (take k rs), m, ms, hr, hq', refl, first),
        elim (Bool-cases (ltb_ℤ (stamp rec) (stamp m))) [
          | inl f ↦ inl (
              sym (put_rec-append_before rec m (take k rs) ms (ltb→lt _ _ f))
              ∙ ap (put_rec rec) parts)
          | inr f ↦
              let same : stamp m ≤ℤ stamp rec = ltb→ge _ _ f in
              let alone : put_rec rec (take k rs) ≡ take k rs ++ (rec ∷ []) =
                ap (put_rec rec) (sym (append_nil (take k rs)))
                ∙ put_rec-append_behind rec (take k rs) [] (before same)
                ∙ ap (λ t. take k rs ++ t) (put_rec_nil rec) in
              inr (
                k,
                b,
                (l, same),
                ap (λ t. t ++ (m ∷ ms)) alone
                    ∙ append-assoc_one (take k rs) (m ∷ ms) rec
                    ∙ sym (put_at-append rec (take k rs) (m ∷ ms))
                    ∙ ap (λ n. put_at n rec (take k rs ++ (m ∷ ms))) len
                    ∙ ap (put_at k rec) parts,
              )
        ],
      )
