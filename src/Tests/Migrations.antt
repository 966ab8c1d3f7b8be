-- ===== src/Tests/Migrations.antt =====
-- Two migrations on an empty database.
use event_streaming_and_audi.Migrate.{
  Database, Environment, run, sql_files, sort_strings, insert_name, apply_pending, apply_one,
  transaction, record_name, contains,
}
use event_streaming_and_audi.Migrate.Rerun.{run-run}
use event_streaming_and_audi.Errors.{ok}
use event_streaming_and_audi.Prelude.{ℕ, ◌≡◌, ◌∷◌, [], none, ◌+◌, refl, has_suffix}

-- The schema counts the statements that it has seen.
abbrev pub two_files : Environment ℕ
two_files = record {
  entries = ok ("002_tenants.sql" ∷ "migrations.go" ∷ "001_events.sql" ∷ []);
  read_file = λ name. ok "CREATE TABLE";
  exec = λ sql n. ok (n + 1);
  set_up = none;
  begin_tx = λ name. none;
  record_tx = λ name. none;
  commit_tx = λ name. none;
}

abbrev pub fresh : Database ℕ
fresh = record { schema = 0; applied = [] }

abbrev migrated : Database ℕ
migrated = record { schema = 2; applied = "001_events.sql" ∷ "002_tenants.sql" ∷ [] }

first_run : run two_files fresh ≡ (none, migrated)
unfolding run sql_files sort_strings insert_name apply_pending apply_one transaction record_name
    contains has_suffix
first_run = refl

run-run_example : run two_files migrated ≡ (none, migrated)
run-run_example = run-run two_files fresh migrated first_run
