-- ===== src/Services/System/Audit.antt =====
-- The audit log that the system keeps: what its steps do to the table, whatever else they do.
use mathlib.Core.Path.{subst}
use event_streaming_and_audi.Services.System.{
  Setup, System, Step, Reach, begin, finish, cancel, request, hand_over, lose, consume, provision,
  fault, here, next,
}
use mathlib.Core.List.{Memᴰ}
use mathlib.Core.List.Memᴰ
use event_streaming_and_audi.Services.System.Inserts.{settle-IsRecorded}
use event_streaming_and_audi.Services.System.Requests.{IsRecorded, answered-IsRecorded}
use event_streaming_and_audi.Services.System.Consumption.{OnlyPuts}
use event_streaming_and_audi.Services.System.Topics.{OnlyWrites}
use event_streaming_and_audi.Services.System.State.{IsSound}
use event_streaming_and_audi.Services.System.Sound.{Reach-IsSound}
use event_streaming_and_audi.Event.{Event, Uuid}
use event_streaming_and_audi.Event.Wire.{Wire}
use event_streaming_and_audi.Postgres.{Columns, Database, Row}
use event_streaming_and_audi.Postgres.Contents.{IsRowOf}
use event_streaming_and_audi.Postgres.Versions.{has_id, stream_length}
use event_streaming_and_audi.Prelude.{
  String, List, pos, false, ◌≡◌, ◌+◌, ◌++◌, ◌∷◌, [], inl, inr, sym, refl,
}

-- An audit log has one way to change: an event that it did not have is added at its end, with the
-- next version of its stream.
pub data Grows (c : Columns) (rows : List Row) : List Row → Type 0 where
  stays : Grows c rows rows
  adds :
      {rows' : List Row} (e : Event) (r : Row)
      → Grows c rows rows'
      → IsRowOf c e r
      → has_id r.id rows' ≡ false
      → r.version ≡ pos (stream_length r.stream_id rows' + 1)
      → Grows c rows (rows' ++ r ∷ [])

module _ {P I D : Type 0} (setup : Setup P I D) (log : P → String → List Wire)
    (Holds : I → Uuid → Wire → Type 0) (writes : OnlyWrites setup.writer log)
    (puts : OnlyPuts setup.client Holds) where
  recorded-Grows :
      {rows : List Row} (db : Database) (q : List Event) (db' : Database) (q' : List Event)
      → Grows setup.columns rows db.rows
      → IsRecorded setup.columns (db, q) (db', q')
      → Grows setup.columns rows db'.rows
  recorded-Grows {rows} db q db' q' grown (inl (same, _)) =
      subst (λ (d : Database). Grows setup.columns rows d.rows) (sym same) grown
  recorded-Grows {rows} db q db' q' grown (inr (e, r, kept, fresh, version, stored, _)) =
      subst (λ (d : Database). Grows setup.columns rows d.rows) (sym stored)
        (adds e r grown kept fresh version)

  Step-Grows :
      {s t : System P I D} {rows : List Row}
      → Step setup log s t
      → IsSound setup log Holds s
      → Grows setup.columns rows s.db.rows
      → Grows setup.columns rows t.db.rows
  Step-Grows {s} {rows = rows} (request route id now r) sound grown =
      recorded-Grows s.db s.unpublished _ _ grown
        (answered-IsRecorded setup log route id now r s sound.rows)
  Step-Grows (begin i id now cmd r named complete made) sound grown = grown
  Step-Grows {s} {rows = rows} (finish before e r after split) sound grown =
      let (timely, kept) =
        sound.inserting e r
          (subst (Memᴰ (e, r)) (sym split) (Memᴰ.append_right before (Memᴰ.head refl))) in
      recorded-Grows s.db s.unpublished _ _ grown
        (settle-IsRecorded setup.columns e r s.db s.unpublished sound.rows timely kept)
  Step-Grows (cancel before e r after split) sound grown = grown
  Step-Grows (hand_over before e after split) sound grown = grown
  Step-Grows (lose before e after split) sound grown = grown
  Step-Grows (consume now m commit read) sound grown = grown
  Step-Grows provision sound grown = grown
  Step-Grows (fault x reply) sound grown = grown

  -- Where Kafka and Elasticsearch hold nothing but what is written to them, the running system refines
  -- an audit log: from a sound state, whatever its steps are, the table changes only by the addition
  -- of one event after the other at its end, each with an id that no row had before and with the next
  -- version of its stream.
  pub Reach-Grows :
      {s t : System P I D}
      → IsSound setup log Holds s
      → Reach setup log s t
      → Grows setup.columns s.db.rows t.db.rows
  Reach-Grows sound here = stays
  Reach-Grows sound (next before step) =
      let (middle, _) = Reach-IsSound setup log Holds writes puts sound before in
      Step-Grows step middle (Reach-Grows sound before)
