-- ===== src/Postgres/Appends.antt =====
-- Append: what one call does to the table.
use event_streaming_and_audi.Prelude.{
  some, Option-cases, ◌≡◌, none, ◌⊎◌, false, ◌++◌, ◌+◌, ◌∷◌, ◌<◌, [], two63, pos, inl, inr, arith,
  ap, Bool-cases,
}
use event_streaming_and_audi.Postgres.{append, row_of, clashes}
use event_streaming_and_audi.Postgres.Versions.{
  IsWellFormed, stream_length, has_id, insert-IsWellFormed, not_clashes, next_version-eq,
  values_for-version,
}
use event_streaming_and_audi.Postgres.{Columns, append, insert_row, values_for, Database, Row}
use event_streaming_and_audi.Event.{Event}
use event_streaming_and_audi.Errors.{Error, err, ok, Result-cases, wrapped, text}
use event_streaming_and_audi.Event.Json.{Json, encoded}
use event_streaming_and_audi.Postgres.Contents.{IsRowOf, values_for-IsRowOf}

-- An append fails and leaves the table as it was; or it adds one row at the end, which meets no
-- constraint and has the next version of its stream. Then it returns the event with the row's version,
-- or fails nevertheless, when its answer is lost.
pub append-cases :
    (c : Columns) (e : Event) (db : Database)
    → IsWellFormed db.rows
    → ((x : Error) × (append c e db ≡ (err x, db)))
      ⊎ ((r : Row) × (values_for c e db ≡ ok r)
          × (clashes r db.rows ≡ false)
          × (r.version ≡ pos (stream_length r.stream_id db.rows + 1))
          × (((db.reply ≡ none)
                × (append c e db ≡ (
                  ok (record e { version = r.version }),
                  record db { rows = db.rows ++ r ∷ [] },
                )))
              ⊎ ((x : Error) × (db.reply ≡ some x)
                  × (append c e db
                      ≡ (err (wrapped "insert event" x), record db { rows = db.rows ++ r ∷ [] })))))
unfolding append insert_row
append-cases c e db wf = elim (Result-cases (values_for c e db)) [
  | inr (x, failed) ↦ inl (wrapped "insert event" x, ground arith)
  | inl (r, made) ↦ elim (Bool-cases (clashes r db.rows)) [
    | inl clash ↦ inl (
      wrapped "insert event" (text "duplicate key value violates unique constraint"),
      ground arith,
    )
    | inr free ↦ inr (
      r,
      made,
      free,
      values_for-version c e db r wf made,
      elim (Option-cases db.reply) [
        | inl answered ↦ inl (answered, ground arith)
        | inr (x, lost) ↦ inr (x, lost, ground arith)
      ],
    )
  ]
]

-- Append keeps every stream's versions 1, 2, …, n, whatever it returns.
pub append-IsWellFormed :
    (c : Columns) (e : Event) (db : Database)
    → IsWellFormed db.rows
    → IsWellFormed (append c e db).1.rows
append-IsWellFormed c e db wf = elim (append-cases c e db wf) [
  | inl (x, same) ↦ rw same wf
  | inr (r, made, free, version, inl (_, same)) ↦ rw same (insert-IsWellFormed r db.rows wf version)
  | inr (r, made, free, version, inr (x, _, same)) ↦
      rw same (insert-IsWellFormed r db.rows wf version)
]

-- The values of the INSERT, when no statement fails and the payload is JSON.
values_for-next :
    (c : Columns) (e : Event) (db : Database) (p : Json)
    → IsWellFormed db.rows
    → db.fault ≡ none
    → e.payload ≡ encoded p
    → stream_length e.stream_id db.rows + 1 < two63
    → values_for c e db ≡ ok (row_of c e (pos (stream_length e.stream_id db.rows + 1)) p)
unfolding values_for
values_for-next c e db p wf up json small = ground (arith, next_version-eq e.stream_id db.rows wf)

append-row_of :
    (c : Columns) (e : Event) (db : Database) (p : Json)
    → IsWellFormed db.rows
    → db.fault ≡ none
    → db.reply ≡ none
    → e.payload ≡ encoded p
    → has_id e.id db.rows ≡ false
    → stream_length e.stream_id db.rows + 1 < two63
    → append c e db ≡ (
      ok (record e { version = pos (stream_length e.stream_id db.rows + 1) }),
      record db {
        rows = db.rows ++ row_of c e (pos (stream_length e.stream_id db.rows + 1)) p ∷ [];
      },
    )
unfolding append insert_row
append-row_of c e db p wf up answered json fresh small =
    let r = row_of c e (pos (stream_length e.stream_id db.rows + 1)) p in
    let free : clashes r db.rows ≡ false =
      not_clashes 1 r db.rows (wf e.stream_id) (ap pos (omega arith)) fresh in
    let made = values_for-next c e db p wf up json small in ground arith

-- Append succeeds when no statement fails, its answer is not lost, the payload is JSON, the id is fresh and the stream has
-- fewer than 2^63 - 1 rows. It returns the event with the version after the stream's rows, and adds
-- one row at the end, which holds that event column by column: its id, tenant, stream, type, source
-- and version, and its time, payload and metadata as PostgreSQL keeps them.
pub append-succeeds :
    (c : Columns) (e : Event) (db : Database) (p : Json)
    → IsWellFormed db.rows
    → db.fault ≡ none
    → db.reply ≡ none
    → e.payload ≡ encoded p
    → has_id e.id db.rows ≡ false
    → stream_length e.stream_id db.rows + 1 < two63
    → (r : Row) × (append c e db ≡ (
      ok (record e { version = pos (stream_length e.stream_id db.rows + 1) }),
      record db { rows = db.rows ++ r ∷ [] },
    ))
      × IsRowOf c (record e { version = pos (stream_length e.stream_id db.rows + 1) }) r
append-succeeds c e db p wf up answered json fresh small =
    let r = row_of c e (pos (stream_length e.stream_id db.rows + 1)) p in
    (
      r,
      append-row_of c e db p wf up answered json fresh small,
      values_for-IsRowOf c e db r (values_for-next c e db p wf up json small),
    )
