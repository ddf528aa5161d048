-- ===== src/Tests/Dbstore.antt =====
-- The database processor.
use recsync.Prelude.{
  ℕ, ◌+◌, ◌≡◌, refl, [], ◌∷◌, true, false, some, ok, err, database_error, key_error, arith, nat_eq,
  codes,
}
use recsync.Integer.{pos}
use recsync.Dict
use recsync.Sets.{occurs}
use recsync.Recast.Transaction.{Transaction}
use recsync.Recast.Session.{open_session, close}
use recsync.Dbstore.Settings.{DbConfig}
use recsync.Dbstore.Statement.{number, statements}
use recsync.Dbstore.Commit.{Cursor, run_each, new_server, commit}
use recsync.Dbstore.Commit.Sources.{early_close_raises, rolled_back_source}
use recsync.Dbstore.Waiting.{Waiting, stop_service}
use recsync.Dbstore.Waiting.Closing.{fire, Once, SameItems, stop_service-closes}
use recsync.Tests.Data.{peer}
use recsync.Tests.Cf.{first_commit}

abbrev names : DbConfig
names = record {
  tserver = codes "server";
  tinfo = codes "servinfo";
  trecord = codes "record";
  tname = codes "record_name";
  trecinfo = codes "recinfo";
  mykey = pos 42;
}

-- The world counts the statements; every server gets the id 5.
abbrev working : Cursor ℕ
working = record {
  execute = λ sql parameters n. (ok tt, n + 1);
  executemany = λ sql rows n. (ok tt, n + 1);
  fetchone = λ n. (ok (some (number 5 ∷ [])), n);
}

abbrev failing : Cursor ℕ
failing = record working { executemany = λ sql rows n. (err database_error, n) }

abbrev upload : Transaction
upload = record first_commit { srcid = 3; initial = true; connected = true }

rolled_back_source_example :
    ((commit failing names upload [] 0).0 ≡ err database_error)
    × (Dict.get (commit failing names upload [] 0).1.0 upload.srcid ≡ some (number 5))
unfolding new_server run_each statements
rolled_back_source_example =
    rolled_back_source failing names upload [] 0 1 3 (number 5) database_error refl refl refl refl
      refl

early_close_raises_example :
    (t : Transaction) × ((close (open_session 5 2 peer 1)).commit_chain ≡ t ∷ [])
    × (commit working names t [] 0 ≡ (err key_error, ([], 1)))
unfolding Dict.get
early_close_raises_example = early_close_raises working names 5 2 1 peer [] 0 1 refl refl

-- The cleanup 1 of the start is not over when the processor is stopped.
abbrev waiting : Waiting
waiting = record { ds = 1 ∷ []; done = false; closed = false }

once : Once (1 ∷ [])
unfolding occurs
once x = ground arith

same : SameItems (1 ∷ 2 ∷ []) (stop_service 2 waiting).ds
unfolding occurs stop_service
same x = ground arith

stop_service-closes_example :
    ((fire (1 ∷ 2 ∷ []) (stop_service 2 waiting)).ds ≡ [])
    × ((fire (1 ∷ 2 ∷ []) (stop_service 2 waiting)).closed ≡ true)
stop_service-closes_example = stop_service-closes 2 waiting (1 ∷ 2 ∷ []) once same
