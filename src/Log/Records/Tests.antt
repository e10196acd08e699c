-- ===== src/Log/Records/Tests.antt =====
-- A record logged and read back.
use pinusdb.Prelude.{List, [], ◌∷◌, arith}
use pinusdb.Log.{CommitLogFile}
use pinusdb.Log.Tests.{MemFile, new_log}
use pinusdb.Log.Records.RoundTrip.{LogRec, IsLoggable}
use pinusdb.Log.Records.Readback.{log_all}

abbrev pub one_rec : LogRec
one_rec = record { tab_crc = 5; meta_crc = 6; rec_type = 3; dev_id = 7; rec = 1 ∷ 2 ∷ [] }

abbrev recs : List LogRec
recs = one_rec ∷ []

pub one_rec-IsLoggable : IsLoggable one_rec
one_rec-IsLoggable = (omega arith, omega arith, omega arith, omega arith, omega arith, omega arith)

abbrev logged : CommitLogFile MemFile
logged = (log_all recs new_log).1
