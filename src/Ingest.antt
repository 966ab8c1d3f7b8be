-- ===== src/Ingest.antt =====
-- internal/application/ingest/service.go
pub mod Outcomes
pub mod Stored
use event_streaming_and_audi.Prelude.{String, Option, none, some, ◌||◌, ◌==◌, if◌then◌else◌}
use event_streaming_and_audi.Errors.{Result, ok, err, text, wrapped}
use event_streaming_and_audi.Auth.{Context, Identity, tenant_identity}
use event_streaming_and_audi.Event.{Event, Uuid, Time, StringMap, Store, Publisher, new}
use event_streaming_and_audi.Event.Json.{RawMessage}

pub record Command : Type 0 where
  pub stream_id : String
  pub type : String
  pub source : String
  pub payload : RawMessage
  pub metadata : Option StringMap

module _ {S P : Type 0} (store : Store S) (publisher : Publisher P) where
  -- The end of Ingest: a failed append ends the request, a failed publish does not.
  unfoldable pub publish_appended : Result Event × S → P → Result Event × S × P
  publish_appended (ok e, s) p = (ok e, s, (publisher.publish e p).1)
  publish_appended (err e, s) p = (err (wrapped "append to store" e), s, p)

  unfoldable pub ingest_for :
      Option Identity → Uuid → Time → Context → Command → S → P → Result Event × S × P
  ingest_for none id now ctx cmd s p =
      (err (text "unauthenticated: identity with tenant_id is required"), s, p)
  ingest_for (some identity) id now ctx cmd s p =
      if cmd.stream_id == "" || cmd.type == "" || cmd.source == ""
      then (err (text "stream_id, type, and source are required"), s, p)
      else let e = record (new id now cmd.stream_id cmd.type cmd.source cmd.payload cmd.metadata) {
        tenant_id = identity.tenant_id;
      } in
        publish_appended (store.append ctx e s) p

  -- Ingest; `id` and `now` are the fresh UUID and the clock's reading that event.New takes.
  unfoldable pub ingest : Uuid → Time → Context → Command → S → P → Result Event × S × P
  ingest id now ctx cmd s p = ingest_for (tenant_identity ctx) id now ctx cmd s p
