-- ===== src/Log/Files/Expired.antt =====
-- The files that RemoveExpiredLog of src/pinusdb/commitlog/commit_log_list.cpp deletes.
use pinusdb.Prelude.{
  ℕ, ◌≤◌, ◌≡◌, refl, ap, true, false, List, [], ◌∷◌, ◌++◌, All, Bool, leb, leb→le, ◌&&◌, if_cases,
}
use pinusdb.Log.{NormalFile, CommitLogFile, get_file_end_pos}
use pinusdb.Log.Files.{CommitLogList, expired_loop, remove_expired_log}

and_both : (a b : Bool) → (a && b) ≡ true → (a ≡ true) × (b ≡ true)
and_both true true h = (refl, refl)
and_both true false h = absurd (cc h)
and_both false b h = absurd (cc h)

module _ {N : NormalFile} where
  -- A file that is no longer written and ends at or before the position.
  abbrev pub IsExpired : ℕ → CommitLogFile N → Type 0
  IsExpired min_pos f = (f.read_only ≡ true) × (get_file_end_pos f ≤ min_pos)

  -- The files are those that go and those that stay, the ones that go are expired, and the first
  -- one that stays is not.
  abbrev pub IsCut :
      ℕ → List (CommitLogFile N) → List (CommitLogFile N) × List (CommitLogFile N) → Type 0
  IsCut min_pos fs r = (fs ≡ r.0 ++ r.1) × All (IsExpired min_pos) r.0 × elim r.1 [
    | [] ↦ Unit
    | f ∷ rest ↦ (f.read_only && leb (get_file_end_pos f) min_pos) ≡ false
  ]

  expired_loop-IsCut :
      (min_pos : ℕ) (fs : List (CommitLogFile N)) → IsCut min_pos fs (expired_loop min_pos fs)
  expired_loop-IsCut min_pos [] = (refl, tt, tt)
  expired_loop-IsCut min_pos (f ∷ fs) =
      let (e, gone, stays) = expired_loop-IsCut min_pos fs in
      if_cases (IsCut min_pos (f ∷ fs)) (f.read_only && leb (get_file_end_pos f) min_pos)
        (λ h.
          let (ro, ends) = and_both f.read_only (leb (get_file_end_pos f) min_pos) h in
          (ap (λ l. f ∷ l) e, ((ro, leb→le (get_file_end_pos f) min_pos ends), gone), stays))
        (λ h. (refl, tt, h))

  -- RemoveExpiredLog deletes files from the front of the list that are no longer written and end at or
  -- before the committed sync position, all of these up to the first that is not so, and no other;
  -- the file that is written and the sync position that is committed stay.
  pub remove_expired_log_lem :
      (l : CommitLogList N)
      → (gone : List (CommitLogFile N)) × IsCut l.cur_sync_pos l.log_files
          (gone, (remove_expired_log l).log_files)
        × ((remove_expired_log l).write_log ≡ l.write_log)
        × ((remove_expired_log l).cur_sync_pos ≡ l.cur_sync_pos)
  unfolding remove_expired_log
  remove_expired_log_lem l = (
    (expired_loop l.cur_sync_pos l.log_files).0,
    expired_loop-IsCut l.cur_sync_pos l.log_files,
    refl,
    refl,
  )
