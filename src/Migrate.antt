-- ===== src/Migrate.antt =====
-- cmd/migrate/main.go: run and applyOne. PostgreSQL's transactions are read as all or nothing; what
-- the SQL of a migration does to the schema is a parameter.
pub mod Rerun
pub mod History
pub mod Main
use event_streaming_and_audi.Prelude.{
  List, Option, String, Bool, ◌∷◌, select, if◌then◌else◌, false, str_le, has_suffix, none, some, [],
  ◌==◌, ◌||◌, ◌++◌,
}
use event_streaming_and_audi.Errors.{
  Result, Error, ◌>>◌, ok, err, wrap, text, wrapped, ◌>>=◌, wrap_error,
}

-- The database: the schema, and the rows of schema_migrations.
pub record Database (Schema : Type 0) : Type 0 where
  pub schema : Schema
  pub applied : List String

-- What the environment does: the files of the embedded file system, the text of each, what a
-- statement does to the schema, and the failures of the connection (for the set-up statements, and
-- for the transaction of each file: at begin, at the insertion of the record, or at commit).
pub record Environment (Schema : Type 0) : Type 0 where
  pub entries : Result (List String)
  pub read_file : String → Result String
  pub exec : String → Schema → Result Schema
  pub set_up : Option Error
  pub begin_tx : String → Option Error
  pub record_tx : String → Option Error
  pub commit_tx : String → Option Error

abbrev pub and_then : Option Error → Result (Unit {0})
and_then none = ok tt
and_then (some x) = err x

unfoldable pub contains : String → List String → Bool
contains a [] = false
contains a (x ∷ xs) = x == a || contains a xs

-- sort.Strings: by code points, as Go compares the bytes of UTF-8.
unfoldable pub insert_name : String → List String → List String
insert_name a [] = a ∷ []
insert_name a (x ∷ xs) = if str_le a x then a ∷ x ∷ xs else x ∷ insert_name a xs

unfoldable pub sort_strings : List String → List String
sort_strings [] = []
sort_strings (x ∷ xs) = insert_name x (sort_strings xs)

-- The SQL files of the directory, sorted.
unfoldable pub sql_files : List String → List String
sql_files names = sort_strings (select (λ n. has_suffix n ".sql") names)

module _ {Schema : Type 0} (env : Environment Schema) where
  -- The primary key of schema_migrations.
  unfoldable pub record_name : String → List String → Result (List String)
  record_name name applied =
      if contains name applied
      then err (text "duplicate key value violates unique constraint")
      else ok (applied ++ name ∷ [])

  -- The statements of the transaction of applyOne; the deferred Rollback undoes them after an error.
  unfoldable pub transaction : String → String → Database Schema → Result (Database Schema)
  transaction name sql db = do
    wrap "begin tx" (and_then (env.begin_tx name))
    schema ← wrap "exec sql" (env.exec sql db.schema)
    wrap "record migration" (and_then (env.record_tx name))
    applied ← wrap "record migration" (record_name name db.applied)
    wrap "commit" (and_then (env.commit_tx name))
    ok (record { schema = schema; applied = applied })

  abbrev pub kept : Database Schema → Result (Database Schema) → Option Error × Database Schema
  kept db (ok db') = (none, db')
  kept db (err x) = (some x, db)

  unfoldable pub apply_one : String → String → Database Schema → Option Error × Database Schema
  apply_one name sql db = kept db (transaction name sql db)

  abbrev pub apply_file : String → Result String → Database Schema → Option Error × Database Schema
  apply_file name (err x) db = (some (wrapped "read" x), db)
  apply_file name (ok sql) db = let (r, db') = apply_one name sql db in (wrap_error "apply" r, db')

  abbrev pub go_on :
      Option Error × Database Schema
      → Option Error × Database Schema
      → Option Error × Database Schema
  go_on (none, db) rest = rest
  go_on (some x, db) rest = (some x, db)

  -- The loop over the files; `applied` is the map that was read before it.
  unfoldable pub apply_pending :
      List String → List String → Database Schema → Option Error × Database Schema
  apply_pending applied [] db = (none, db)
  apply_pending applied (name ∷ files) db =
      let next =
        if contains name applied then (none, db) else apply_file name (env.read_file name) db in
      go_on next (apply_pending applied files next.1)

  abbrev pub run_files : Result (List String) → Database Schema → Option Error × Database Schema
  run_files (err x) db = (some (wrapped "read migrations FS" x), db)
  run_files (ok names) db = apply_pending db.applied (sql_files names) db

  abbrev pub after_set_up : Option Error → Database Schema → Option Error × Database Schema
  after_set_up (some x) db = (some x, db)
  after_set_up none db = run_files env.entries db

  -- run
  unfoldable pub run : Database Schema → Option Error × Database Schema
  run db = after_set_up env.set_up db
