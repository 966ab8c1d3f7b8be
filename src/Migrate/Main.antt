-- ===== src/Migrate/Main.antt =====
-- main of cmd/migrate: the pool, the ping, and run. os.Exit skips the deferred pool.Close().
use event_streaming_and_audi.Migrate.{Environment, Database, run}
use event_streaming_and_audi.Postgres.Connect.{PoolLibrary}
use event_streaming_and_audi.Prelude.{Option, ◌≡◌, some, ◌⊎◌, inr, inl, none, refl}
use event_streaming_and_audi.Config.{Config}
use event_streaming_and_audi.Errors.{Exit, Error, exited}
use event_streaming_and_audi.Migrate.History.{IsHistory, run-IsHistory}
use event_streaming_and_audi.Migrate.Rerun.{run-IsComplete, IsComplete}

module _ {Schema D : Type 0} (env : Environment Schema) (pool : PoolLibrary D) where
  abbrev pub after_run : D → Option Error × Database Schema → Exit × D × Database Schema
  after_run d (none, db) = (exited 0, pool.close d, db)
  after_run d (some x, db) = (exited 1, d, db)

  abbrev pub after_ping : Option Error × D → Database Schema → Exit × D × Database Schema
  after_ping (none, d) db = after_run d (run env db)
  after_ping (some x, d) db = (exited 1, d, db)

  abbrev pub after_connect : Option Error × D → Database Schema → Exit × D × Database Schema
  after_connect (none, d) db = after_ping (pool.ping d) db
  after_connect (some x, d) db = (exited 1, d, db)

  unfoldable pub migrate_main : Config → D → Database Schema → Exit × D × Database Schema
  migrate_main cfg d db = after_connect (pool.new cfg.postgres.dsn d) db

  -- How main may end: with 0 and every SQL file recorded, or with 1; in both cases the schema is what
  -- the recorded files make of the first one.
  abbrev pub Ending : Schema → Exit → Database Schema → Type 0
  Ending first exit db =
      IsHistory env first db × ((exit ≡ exited 1) ⊎ ((exit ≡ exited 0) × IsComplete env db))

  after_run-Ending :
      (first : Schema) (d : D) (db : Database Schema) (r : Option Error × Database Schema)
      → run env db ≡ r
      → IsHistory env first r.1
      → Ending first (after_run d r).0 (after_run d r).2
  after_run-Ending first d db (none, db') as_is h =
      (h, inr (refl, (run-IsComplete env db db' as_is).1))
  after_run-Ending first d db (some x, db') as_is h = (h, inl refl)

  after_ping-Ending :
      (first : Schema) (r : Option Error × D) (db : Database Schema)
      → IsHistory env first db
      → Ending first (after_ping r db).0 (after_ping r db).2
  after_ping-Ending first (none, d) db h =
      after_run-Ending first d db (run env db) refl (run-IsHistory env first db h)
  after_ping-Ending first (some x, d) db h = (h, inl refl)

  after_connect-Ending :
      (first : Schema) (r : Option Error × D) (db : Database Schema)
      → IsHistory env first db
      → Ending first (after_connect r db).0 (after_connect r db).2
  after_connect-Ending first (none, d) db h = after_ping-Ending first (pool.ping d) db h
  after_connect-Ending first (some x, d) db h = (h, inl refl)

  -- cmd/migrate exits with 0 only when every SQL file of the directory is recorded as applied, and
  -- else with 1; and in both cases the schema is what the recorded files make of the first schema, in
  -- the order of their records, if it was so before.
  pub migrate_main-Ending :
      (first : Schema) (cfg : Config) (d : D) (db : Database Schema)
      → IsHistory env first db
      → Ending first (migrate_main cfg d db).0 (migrate_main cfg d db).2
  unfolding migrate_main
  migrate_main-Ending first cfg d db h =
      after_connect-Ending first (pool.new cfg.postgres.dsn d) db h
