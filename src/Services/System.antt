-- ===== src/Services/System.antt =====
-- The running system: the ingest-api, PostgreSQL, the Kafka topics, the consumer-service and the
-- search index, as the steps that they take in any order. A request publishes its event after the
-- append, outside of its transaction, and other steps may come in between, or the process may end.
pub mod Requests
pub mod Inserts
pub mod Consumption
pub mod Topics
pub mod State
pub mod Sound
pub mod Reads
pub mod Versions
pub mod Lost
pub mod Silent
pub mod Answers
pub mod Replayed
pub mod Audit
use mathlib.Core.List.{Memᴰ}
use event_streaming_and_audi.Config.{KafkaConfig}
use event_streaming_and_audi.Prelude.{String, List, ◌≢◌, Option, none, ◌++◌, ◌∷◌, [], ◌≡◌}
use event_streaming_and_audi.Event.{Event, Time, Uuid, Publisher}
use event_streaming_and_audi.Event.Json.{Json}
use event_streaming_and_audi.Event.Wire.{Wire}
use event_streaming_and_audi.Errors.{Error, ok, err}
use event_streaming_and_audi.Auth.{Issuer, Identity}
use event_streaming_and_audi.Authenticator.{Authenticator}
use event_streaming_and_audi.Consume.{DlqPublisher, Service, handle}
use event_streaming_and_audi.Elasticsearch.{Client, indexer, searcher, ensure_index}
use event_streaming_and_audi.Http.Dto.{Response}
use event_streaming_and_audi.Http.Router.{Route, serve}
use event_streaming_and_audi.Kafka.Consumer.{Message, Progress, process}
use event_streaming_and_audi.Kafka.Producer.{Writer, publish}
use event_streaming_and_audi.Postgres.{Columns, Database, Row, event_store, insert_row, values_for}
use event_streaming_and_audi.Ingest.{Command}
use event_streaming_and_audi.Ingest.Outcomes.{IsComplete, draft}
use event_streaming_and_audi.Request.{Request}
use event_streaming_and_audi.Services.{resolver_of, consumed_topic}

-- What the two mains build, and the libraries and servers that they stand on: Kafka with a state P,
-- Elasticsearch with a state I, and the dead-letter queue with a state D.
pub record Setup (P I D : Type 0) : Type 0 where
  pub format : Time → String
  pub through_any : Json → Option Json
  pub columns : Columns
  pub authenticator : Authenticator
  pub issuer : Option Issuer
  pub admin_key : String
  pub kafka : KafkaConfig
  pub writer : Writer Wire P
  pub client : Client I
  pub index_name : String
  pub dlq : DlqPublisher D

-- `inserting` holds the INSERTs that have read their version and are not settled, each with the event
-- as Append will return it, and `unpublished` the events that are appended and not yet handed to Kafka.
pub record System (P I D : Type 0) : Type 0 where
  pub db : Database
  pub inserting : List (Event × Row)
  pub unpublished : List Event
  pub kafka : P
  pub progress : Progress (I × D)

-- The publisher that a request meets: the event waits for its publication.
abbrev pub queue : Publisher (List Event)
queue = record { publish = λ e q. (none, q ++ e ∷ []) }

-- The end of an INSERT: the row is there and the event waits, or a constraint has refused the row.
abbrev pub settle : Event → Row → Database → List Event → Database × List Event
settle e r db q = elim (insert_row r db.rows) [
  | ok rows ↦ (record db { rows = rows }, q ++ e ∷ [])
  | err x ↦ (db, q)
]

module _ {P I D : Type 0} (setup : Setup P I D) (log : P → String → List Wire) where
  -- A request on a route of the ingest-api.
  abbrev pub answered :
      Route → Uuid → Time → Request → System P I D → Response × Database × List Event
  answered route id now r s =
      serve setup.format setup.through_any (event_store setup.columns) queue
        (searcher setup.client setup.index_name) setup.authenticator setup.issuer setup.admin_key
        route id now r s.progress.handled.0 s.db s.unpublished

  abbrev pub consumer : Service I D
  consumer = record { indexer = indexer setup.client setup.index_name; dlq = setup.dlq }

  -- `request` is one of any client, whose INSERT meets no other; an ingestion whose INSERT overlaps
  -- with others takes its version in `begin`, and is settled by `finish` or `cancel`. `hand_over` is
  -- the publication of an event that waits, whether it succeeds or not, `lose` the end of the process
  -- before it. `consume` is one round of the consumer-service on a message of its topic, which may be
  -- delivered again, and `provision` the start of its indexer. `fault` is PostgreSQL lost or found.
  pub data Step (s : System P I D) : System P I D → Type 0 where
    request :
        (route : Route) (id : Uuid) (now : Time) (r : Request)
        → Step s (record s {
          db = (answered route id now r s).1;
          unpublished = (answered route id now r s).2;
        })
    begin :
        (i : Identity) (id : Uuid) (now : Time) (cmd : Command) (r : Row)
        → i.tenant_id ≢ ""
        → IsComplete cmd
        → values_for setup.columns (draft i id now cmd) s.db ≡ ok r
        → Step s (record s {
          inserting = (record (draft i id now cmd) { version = r.version }, r) ∷ s.inserting;
        })
    finish :
        (before : List (Event × Row)) (e : Event) (r : Row) (after : List (Event × Row))
        → s.inserting ≡ before ++ (e, r) ∷ after
        → Step s (record s {
          db = (settle e r s.db s.unpublished).0;
          unpublished = (settle e r s.db s.unpublished).1;
          inserting = before ++ after;
        })
    cancel :
        (before : List (Event × Row)) (e : Event) (r : Row) (after : List (Event × Row))
        → s.inserting ≡ before ++ (e, r) ∷ after
        → Step s (record s { inserting = before ++ after })
    hand_over :
        (before : List Event) (e : Event) (after : List Event)
        → s.unpublished ≡ before ++ e ∷ after
        → Step s (record s {
          unpublished = before ++ after;
          kafka = (publish (resolver_of setup.kafka) setup.writer e s.kafka).1;
        })
    lose :
        (before : List Event) (e : Event) (after : List Event)
        → s.unpublished ≡ before ++ e ∷ after
        → Step s (record s { unpublished = before ++ after })
    consume :
        (now : Time) (m : Message) (commit : Option Error)
        → Memᴰ m.value (log s.kafka (consumed_topic setup.kafka))
        → Step s (record s { progress = (process (handle consumer now) m commit s.progress).1 })
    provision : Step s (record s {
      progress = record s.progress {
        handled = (
          (ensure_index setup.client setup.index_name s.progress.handled.0).1,
          s.progress.handled.1,
        );
      };
    })
    fault :
        (x reply : Option Error)
        → Step s (record s { db = record s.db { fault = x; reply = reply } })

  pub data Reach (s : System P I D) : System P I D → Type 0 where
    here : Reach s s
    next : {t u : System P I D} → Reach s t → Step t u → Reach s u
