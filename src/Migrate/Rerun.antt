-- ===== src/Migrate/Rerun.antt =====
-- A second run of the migrations.
use mathlib.Core.Path.{subst}
use event_streaming_and_audi.Prelude.{
  String, List, ◌≡◌, ◌++◌, none, ◌∷◌, [], ◌||◌, arith, ◌==◌, Option, true, All, Option-cases,
  Bool-cases, some, inr, refl, inl, ap, ◌∙◌, eq_refl,
}
use event_streaming_and_audi.Errors.{Result, ok, err, Error, Result-cases, wrap_error}
use event_streaming_and_audi.Migrate.{
  Database, Environment, contains, apply_one, apply_file, apply_pending, transaction, record_name,
  kept, go_on, run, sql_files,
}

contains-append :
    (a b : String) (xs : List String) → contains a (xs ++ b ∷ []) ≡ (contains a xs || b == a)
unfolding contains
contains-append a b [] = ground arith
contains-append a b (x ∷ xs) = ground (arith, contains-append a b xs)

module _ {Schema : Type 0} (env : Environment Schema) where
  pub transaction-applied :
      (name sql : String) (db db' : Database Schema)
      → transaction env name sql db ≡ ok db'
      → db'.applied ≡ db.applied ++ name ∷ []
  unfolding transaction record_name
  transaction-applied name sql db db' h = ground arith

  apply_file-applied :
      (name : String) (r : Result String) (db db' : Database Schema)
      → apply_file env name r db ≡ (none, db')
      → db'.applied ≡ db.applied ++ name ∷ []
  unfolding apply_one
  apply_file-applied name (err x) db db' h = cc
  apply_file-applied name (ok sql) db db' h =
      transaction-applied name sql db db' (committed (transaction env name sql db) h)
    where
      committed :
          (t : Result (Database Schema))
          → ◌≡◌ {A = Option Error × Database Schema}
              (let (r, d) = kept env db t in (wrap_error "apply" r, d))
              (none, db')
          → t ≡ ok db'
      committed (ok d) g = cc
      committed (err x) g = cc

  go_on-none :
      (r rest : Option Error × Database Schema) (db : Database Schema)
      → go_on env r rest ≡ (none, db)
      → (r ≡ (none, r.1)) × (rest ≡ (none, db))
  go_on-none (none, d) rest db h = (refl, h)
  go_on-none (some x, d) rest db h = cc

  apply_pending-records :
      (applied files : List String) (db db' : Database Schema)
      → ((n : String) → contains n applied ≡ true → contains n db.applied ≡ true)
      → apply_pending env applied files db ≡ (none, db')
      → All (λ n. contains n db'.applied ≡ true) files
        × ((n : String) → contains n db.applied ≡ true → contains n db'.applied ≡ true)
  unfolding apply_pending
  apply_pending-records applied [] db db' known h =
      let same : db ≡ db' = cc in
      (tt, λ n p. subst (λ (d : Database Schema). contains n d.applied ≡ true) same p)
  apply_pending-records applied (name ∷ files) db db' known h =
      elim (Bool-cases (contains name applied)) [
        | inl old ↦
            let (later, kept_too) =
              apply_pending-records applied files db db' known (rw old at h) in
            ((kept_too name (known name old), later), kept_too)
        | inr new ↦
            let r : Option Error × Database Schema = apply_file env name (env.read_file name) db in
            let (done, rest) =
              go_on-none r (apply_pending env applied files r.1) db' (rw new at h) in
            let grown = apply_file-applied name (env.read_file name) db r.1 done in
            let holds : (n : String)
                → contains n r.1.applied ≡ (contains n db.applied || name == n) =
              λ n. ap (contains n) grown ∙ contains-append n name db.applied in
            let keeps : (n : String)
                → contains n db.applied ≡ true
                → contains n r.1.applied ≡ true =
              λ n p. ground (arith, holds n) in
            let (later, kept_too) =
              apply_pending-records applied files r.1 db' (λ n p. keeps n (known n p)) rest in
            (
              (kept_too name (ground (arith, holds name, eq_refl name)), later),
              λ n p. kept_too n (keeps n p),
            )
      ]

  apply_pending-nothing :
      (applied files : List String) (db : Database Schema)
      → All (λ n. contains n applied ≡ true) files
      → apply_pending env applied files db ≡ (none, db)
  unfolding apply_pending
  apply_pending-nothing applied [] db all = refl
  apply_pending-nothing applied (name ∷ files) db (old, all) =
      rw old (apply_pending-nothing applied files db all)

  -- Every SQL file of the directory is recorded.
  pub record IsComplete (db : Database Schema) : Type 0 where
    pub names : List String
    pub listed : env.entries ≡ ok names
    pub recorded : All (λ n. contains n db.applied ≡ true) (sql_files names)

  pub run-IsComplete :
      (db db' : Database Schema) → run env db ≡ (none, db') → (env.set_up ≡ none) × IsComplete db'
  unfolding run apply_pending apply_one transaction record_name
  run-IsComplete db db' h = elim (Option-cases env.set_up) [
    | inr (x, failed) ↦ cc (rw failed at h)
    | inl ready ↦ elim (Result-cases env.entries) [
      | inr (x, failed) ↦ cc (rw (ready, failed) at h)
      | inl (names, listed) ↦
          let (all, _) =
            apply_pending-records db.applied (sql_files names) db db' (λ n p. p)
              (rw (ready, listed) at h) in
          (ready, record { names = names; listed = listed; recorded = all })
    ]
  ]

  -- After a run that succeeds, a second run succeeds and changes nothing.
  pub run-run : (db db' : Database Schema) → run env db ≡ (none, db') → run env db' ≡ (none, db')
  unfolding run apply_pending apply_one transaction record_name
  run-run db db' h =
      let (ready, complete) = run-IsComplete db db' h in
      rw (ready, complete.listed)
        (apply_pending-nothing db'.applied (sql_files complete.names) db' complete.recorded)
