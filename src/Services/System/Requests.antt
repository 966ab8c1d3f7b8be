-- ===== src/Services/System/Requests.antt =====
-- What a request of any route does to the table and to the events that wait for publication.
use event_streaming_and_audi.Services.System.{Setup, System, answered, queue}
use event_streaming_and_audi.Event.{Event, Time, Uuid}
use event_streaming_and_audi.Event.Wire.{Wire}
use event_streaming_and_audi.Elasticsearch.{searcher}
use event_streaming_and_audi.Request.{Request}
use event_streaming_and_audi.Http.Router.{
  Route, get_health, post_auth_token, post_auth_issue, post_tenants, post_events, list_events_route,
  get_stream_route,
}
use event_streaming_and_audi.Http.Created.{serve-Outcome}
use event_streaming_and_audi.Http.Statuses.{IsKept}
use event_streaming_and_audi.Http.Documented.{serve-IsDocumented}
use event_streaming_and_audi.Postgres.{Columns, Database, Row, event_store}
use event_streaming_and_audi.Postgres.Contents.{IsRowOf}
use event_streaming_and_audi.Postgres.Versions.{IsWellFormed, stream_length, has_id}
use event_streaming_and_audi.Prelude.{
  String, List, ◌≡◌, ◌⊎◌, inl, inr, pos, ◌+◌, ◌++◌, ◌∷◌, [], ap, false,
}

-- Nothing is changed, or one event is stored, and waits unless the database's answer was lost.
abbrev pub IsRecorded : Columns → Database × List Event → Database × List Event → Type 0
IsRecorded c (db, q) (db', q') =
    ((db' ≡ db) × (q' ≡ q))
    ⊎ ((e : Event) × (r : Row) × IsRowOf c e r
        × (has_id r.id db.rows ≡ false)
        × (r.version ≡ pos (stream_length r.stream_id db.rows + 1))
        × (db' ≡ record db { rows = db.rows ++ r ∷ [] })
        × ((q' ≡ q ++ e ∷ []) ⊎ (q' ≡ q)))

kept-IsRecorded :
    (c : Columns) (before after : Database × List Event)
    → after ≡ before
    → IsRecorded c before after
kept-IsRecorded c (db, q) (db', q') h =
    inl (ap (λ (x : Database × List Event). x.0) h, ap (λ (x : Database × List Event). x.1) h)

module _ {P I D : Type 0} (setup : Setup P I D) (log : P → String → List Wire) where
  -- A route that changes nothing.
  unchanged :
      (route : Route) (id : Uuid) (now : Time) (r : Request) (s : System P I D)
      → IsKept route
          (s.db, s.unpublished)
          ((answered setup log route id now r s).1, (answered setup log route id now r s).2)
  unchanged route id now r s =
      (serve-IsDocumented setup.format setup.through_any (event_store setup.columns) queue
        (searcher setup.client setup.index_name) setup.authenticator setup.issuer setup.admin_key
        route id now r s.progress.handled.0 s.db s.unpublished).1

  pub answered-IsRecorded :
      (route : Route) (id : Uuid) (now : Time) (r : Request) (s : System P I D)
      → IsWellFormed s.db.rows
      → IsRecorded setup.columns
          (s.db, s.unpublished)
          ((answered setup log route id now r s).1, (answered setup log route id now r s).2)
  answered-IsRecorded get_health id now r s wf =
      kept-IsRecorded setup.columns _ _ (unchanged get_health id now r s)
  answered-IsRecorded post_auth_token id now r s wf =
      kept-IsRecorded setup.columns _ _ (unchanged post_auth_token id now r s)
  answered-IsRecorded post_auth_issue id now r s wf =
      kept-IsRecorded setup.columns _ _ (unchanged post_auth_issue id now r s)
  answered-IsRecorded post_tenants id now r s wf =
      kept-IsRecorded setup.columns _ _ (unchanged post_tenants id now r s)
  answered-IsRecorded list_events_route id now r s wf =
      kept-IsRecorded setup.columns _ _ (unchanged list_events_route id now r s)
  answered-IsRecorded get_stream_route id now r s wf =
      kept-IsRecorded setup.columns _ _ (unchanged get_stream_route id now r s)
  answered-IsRecorded post_events id now r s wf =
      elim (serve-Outcome setup.columns setup.format setup.through_any queue
        (searcher setup.client setup.index_name) setup.authenticator setup.issuer setup.admin_key id
        now r s.progress.handled.0 s.db s.unpublished wf) [
          | inl (i, req, _, _, _, made) ↦ inr (
            made.e,
            made.row,
            made.kept,
            made.fresh,
            made.version,
            made.stored,
            inl made.published,
          )
          | inr (_, inl db, q, _) ↦ inl (db, q)
          | inr (_, inr (_, left), q, _) ↦
              inr (left.e, left.row, left.kept, left.fresh, left.version, left.stored, inr q)
        ]
