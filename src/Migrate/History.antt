-- ===== src/Migrate/History.antt =====
-- The schema, and the migrations that are recorded as applied.
use event_streaming_and_audi.Errors.{Result, ok, err, Error, Result-cases, ◌>>=◌}
use event_streaming_and_audi.Migrate.{
  Database, Environment, contains, apply_one, apply_file, apply_pending, transaction, record_name,
  go_on, run, sql_files, run_files, after_set_up,
}
use event_streaming_and_audi.Migrate.Rerun.{transaction-applied}
use event_streaming_and_audi.Prelude.{
  String, List, ◌≡◌, Option, ◌++◌, arith, inr, some, ◌∷◌, [], Bool-cases, inl, none,
}

module _ {Schema : Type 0} (env : Environment Schema) where
  -- One migration, and migrations in a row, on a schema.
  abbrev pub migrated : String → Schema → Result Schema
  migrated name schema = do sql ← env.read_file name; env.exec sql schema

  abbrev pub all_migrated : List String → Schema → Result Schema
  all_migrated [] schema = ok schema
  all_migrated (name ∷ names) schema = do s ← migrated name schema; all_migrated names s

  -- The schema is what the recorded migrations make of the first one, in the order of the records.
  abbrev pub IsHistory : Schema → Database Schema → Type 0
  IsHistory first db = all_migrated db.applied first ≡ ok db.schema

  all_migrated-append :
      (names : List String) (name : String) (s t u : Schema)
      → all_migrated names s ≡ ok t
      → migrated name t ≡ ok u
      → all_migrated (names ++ name ∷ []) s ≡ ok u
  all_migrated-append [] name s t u h k = ground (arith)
  all_migrated-append (n ∷ names) name s t u h k = elim (Result-cases (migrated n s)) [
    | inr (x, failed) ↦ cc (rw failed at h)
    | inl (s', done) ↦ rw done (all_migrated-append names name s' t u (rw done at h) k)
  ]

  transaction-schema :
      (name sql : String) (db db' : Database Schema)
      → transaction env name sql db ≡ ok db'
      → env.exec sql db.schema ≡ ok db'.schema
  unfolding transaction record_name
  transaction-schema name sql db db' h = ground arith

  apply_one-IsHistory :
      (first : Schema) (name sql : String) (db : Database Schema)
      → env.read_file name ≡ ok sql
      → IsHistory first db
      → IsHistory first (apply_one env name sql db).1
  unfolding apply_one
  apply_one-IsHistory first name sql db read h = elim (Result-cases (transaction env name sql db)) [
    | inr (x, failed) ↦ rw failed h
    | inl (db', done) ↦
        rw (done, transaction-applied env name sql db db' done)
          (all_migrated-append db.applied name first db.schema db'.schema h
            (rw read (transaction-schema name sql db db' done)))
  ]

  apply_file-IsHistory :
      (first : Schema) (name : String) (db : Database Schema)
      → IsHistory first db
      → IsHistory first (apply_file env name (env.read_file name) db).1
  apply_file-IsHistory first name db h = elim (Result-cases (env.read_file name)) [
    | inr (x, failed) ↦ rw failed h
    | inl (sql, read) ↦ rw read (apply_one-IsHistory first name sql db read h)
  ]

  go_on-IsHistory :
      (first : Schema) (r rest : Option Error × Database Schema)
      → IsHistory first r.1
      → IsHistory first rest.1
      → IsHistory first (go_on env r rest).1
  go_on-IsHistory first (none, db) rest h k = k
  go_on-IsHistory first (some x, db) rest h k = h

  apply_pending-IsHistory :
      (first : Schema) (applied files : List String) (db : Database Schema)
      → IsHistory first db
      → IsHistory first (apply_pending env applied files db).1
  unfolding apply_pending
  apply_pending-IsHistory first applied [] db h = h
  apply_pending-IsHistory first applied (name ∷ files) db h =
      elim (Bool-cases (contains name applied)) [
        | inl old ↦ rw old (apply_pending-IsHistory first applied files db h)
        | inr new ↦
            let r : Option Error × Database Schema = apply_file env name (env.read_file name) db in
            let now : IsHistory first r.1 = apply_file-IsHistory first name db h in
            rw new (
              go_on-IsHistory first r (apply_pending env applied files r.1) now
                (apply_pending-IsHistory first applied files r.1 now))
      ]

  run_files-IsHistory :
      (first : Schema) (names : Result (List String)) (db : Database Schema)
      → IsHistory first db
      → IsHistory first (run_files env names db).1
  run_files-IsHistory first (err x) db h = h
  run_files-IsHistory first (ok names) db h =
      apply_pending-IsHistory first db.applied (sql_files names) db h

  after_set_up-IsHistory :
      (first : Schema) (o : Option Error) (db : Database Schema)
      → IsHistory first db
      → IsHistory first (after_set_up env o db).1
  after_set_up-IsHistory first (some x) db h = h
  after_set_up-IsHistory first none db h = run_files-IsHistory first env.entries db h

  -- Whether a run of the migrations succeeds or fails, and wherever it fails: the schema is what the
  -- recorded migrations make of the first schema, in the order of their records, if it was so before.
  pub run-IsHistory :
      (first : Schema) (db : Database Schema) → IsHistory first db → IsHistory first (run env db).1
  unfolding run
  run-IsHistory first db h = after_set_up-IsHistory first env.set_up db h
