-- ===== src/Services/System/Inserts.antt =====
-- The end of an INSERT that overlaps with others.
use mathlib.Core.Path.{subst}
use event_streaming_and_audi.Services.System.{settle}
use event_streaming_and_audi.Services.System.Requests.{IsRecorded}
use event_streaming_and_audi.Event.{Event}
use event_streaming_and_audi.Postgres.{Columns, Database, Row, insert_row, clashes}
use event_streaming_and_audi.Postgres.Contents.{IsRowOf}
use event_streaming_and_audi.Postgres.Concurrent.{IsTimely}
use event_streaming_and_audi.Postgres.Fresh.{clashes-has_id}
use event_streaming_and_audi.Postgres.Versions.{IsWellFormed, stream_length, taken}
use event_streaming_and_audi.Prelude.{
  List, pos, ◌+◌, ◌≡◌, ◌∙◌, ap, sym, refl, ◌++◌, ◌∷◌, [], Bool-cases, inl, inr, arith, true, false,
}

-- A row that meets no constraint has the next version of its stream, however old its version is.
timely-next :
    (r : Row) (rows : List Row)
    → IsWellFormed rows
    → IsTimely rows r
    → clashes r rows ≡ false
    → r.version ≡ pos (stream_length r.stream_id rows + 1)
timely-next r rows wf (k, e, low, high) free =
    let full = taken 1 k r rows (wf r.stream_id) e low free in e ∙ ap pos (omega arith)

settle-refused :
    (e : Event) (r : Row) (db : Database) (q : List Event)
    → clashes r db.rows ≡ true
    → settle e r db q ≡ (db, q)
unfolding insert_row
settle-refused e r db q clash = ground arith

settle-added :
    (e : Event) (r : Row) (db : Database) (q : List Event)
    → clashes r db.rows ≡ false
    → settle e r db q ≡ (record db { rows = db.rows ++ r ∷ [] }, q ++ e ∷ [])
unfolding insert_row
settle-added e r db q free = ground arith

pub settle-IsRecorded :
    (c : Columns) (e : Event) (r : Row) (db : Database) (q : List Event)
    → IsWellFormed db.rows
    → IsTimely db.rows r
    → IsRowOf c e r
    → IsRecorded c (db, q) (settle e r db q)
settle-IsRecorded c e r db q wf timely kept = elim (Bool-cases (clashes r db.rows)) [
  | inl clash ↦
      subst (IsRecorded c (db, q)) (sym (settle-refused e r db q clash)) (inl (refl, refl))
  | inr free ↦ subst (IsRecorded c (db, q)) (sym (settle-added e r db q free)) (
      inr (
        e,
        r,
        kept,
        clashes-has_id r db.rows free,
        timely-next r db.rows wf timely free,
        refl,
        inl refl,
      ))
]
