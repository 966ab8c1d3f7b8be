-- ===== src/Tests/Pipeline.antt =====
-- Requests, events and migrations on their way through several parts.
use event_streaming_and_audi.Elasticsearch.{index, indexer}
use event_streaming_and_audi.Kafka.Consumer.{
  run, Progress, Fetch, message, failed, returned, process, commit,
}
use event_streaming_and_audi.Migrate.Main.{Ending, migrate_main, migrate_main-Ending}
use event_streaming_and_audi.Http.Created.{Outcome, serve-Outcome}
use event_streaming_and_audi.Kafka.Producer.{Writer, DlqWire, producer, publish}
use event_streaming_and_audi.Services.Pipeline.{Logs, ingest-indexed}
use event_streaming_and_audi.Config.{KafkaConfig, load, Config}
use event_streaming_and_audi.Prelude.{
  String, List, ℕ, Option, sym, if◌then◌else◌, some, ◌≡◌, none, ◌==◌, ap, [], ◌+◌, ◌++◌, ◌∷◌, ◌-◌,
  pos, true, refl, ◌⊎◌,
}
use event_streaming_and_audi.Event.{Event, Uuid, Indexer, new}
use event_streaming_and_audi.Ingest.{ingest, ingest_for, publish_appended}
use event_streaming_and_audi.Event.Json.{encoded, obj, field, str, end}
use event_streaming_and_audi.Postgres.Streams.{Call, add, connection, read_from}
use event_streaming_and_audi.Request.{Request}
use event_streaming_and_audi.Http.Dto.{Response}
use event_streaming_and_audi.Tests.Fixtures.{
  plain, order_event, failing, holding, two_orders, as_acme, new_order, two_orders-IsWellFormed,
  order,
}
use event_streaming_and_audi.Event.Wire.{marshal, Wire, of, unmarshal}
use event_streaming_and_audi.Postgres.Connect.{PoolLibrary}
use event_streaming_and_audi.Tests.Migrations.{two_files, fresh}
use event_streaming_and_audi.Postgres.{
  event_store, Database, append, values_for, next_version, max_version, insert_row, clashes,
}
use event_streaming_and_audi.Errors.{Error, ok, text}
use event_streaming_and_audi.Http.Router.{serve, post_events}
use event_streaming_and_audi.Tests.Access.{no_index, simple}
use event_streaming_and_audi.Consume.{handle, route_to_dlq}
use event_streaming_and_audi.Services.{resolver_of, consumed_topic}
use event_streaming_and_audi.Tests.Services.{function_server, counting_dlq, kafka}
use event_streaming_and_audi.Consume.DeadLetters.{over_kafka, handle-cases}
use event_streaming_and_audi.Kafka.TopicResolver.{new_topic_resolver, resolve}
use event_streaming_and_audi.Kafka.Consumer.Shutdown.{run-HasFailed}
use event_streaming_and_audi.Auth.{background, tenant_identity, identity_from_context}
use event_streaming_and_audi.Event.Metadata.{marshal_map, fields_of}
use event_streaming_and_audi.Http.Documented.{serve-IsDocumented}
use event_streaming_and_audi.Http.Statuses.{IsDocumented, IsKept}

-- A log for each topic.
abbrev pub topic_logs : Writer Wire (String → List Wire)
topic_logs = record {
  write_messages = λ m p. (none, λ t. if m.topic == t then p t ++ m.value ∷ [] else p t);
}

topic_logs-Logs : Logs topic_logs (λ p t. p t)
topic_logs-Logs = record {
  appended = λ m w w' h t. sym (ap (λ (r : Option Error × (String → List Wire)). r.1 t) h);
}

abbrev pub one_topic : KafkaConfig
one_topic = record kafka { topic_routes = [] }

abbrev pub no_messages : String → List Wire
no_messages t = []

abbrev third : Event
third = order_event "u3" "acme" 3

abbrev published : String → List Wire
published t = if "events.v1" == t then of third ∷ [] else []

abbrev one_read : List Fetch
one_read = message (record { offset = 0; value = of third }) none ∷ []

opened_pipeline : Unit {0}
unfolding ingest ingest_for publish_appended producer publish marshal resolver_of new_topic_resolver
    resolve new event_store append values_for next_version max_version insert_row clashes
    marshal_map fields_of tenant_identity identity_from_context consumed_topic run process commit
    unmarshal handle index indexer route_to_dlq
opened_pipeline = tt

ingested :
    ingest
      (event_store plain)
      (producer (resolver_of one_topic) topic_logs)
      "u3"
      (pos 7)
      as_acme
      new_order
      (holding two_orders)
      no_messages
    ≡ (ok third, holding (two_orders ++ order "u3" "acme" 3 ∷ []), published)
unfolding opened_pipeline
ingested = refl

abbrev nowhere : (Uuid → Option Wire) × ℕ
nowhere = (λ id. none, 0)

abbrev indexed : Progress ((Uuid → Option Wire) × ℕ)
indexed =
    (run
      (handle (record { indexer = indexer function_server "events"; dlq = counting_dlq }) (pos 9))
      one_read (record { handled = nowhere; committed = [] })).1

ingest-indexed_example :
    indexed.handled.0 "u3" ≡ some (of (record third { payload = third.payload }))
unfolding opened_pipeline
ingest-indexed_example =
    ingest-indexed one_topic (event_store plain) topic_logs (λ p t. p t) topic_logs-Logs
      function_server "events" counting_dlq (λ s id. s id) (pos 9) "u3" (pos 7) as_acme new_order
      (holding two_orders) (holding (two_orders ++ order "u3" "acme" 3 ∷ [])) no_messages published
      third third.payload one_read (λ id. none) 0 [] ingested refl refl refl (λ s. refl) refl refl

-- The store, with the connection lost in between, and then the answer of an INSERT.
abbrev calls : List Call
calls =
    add (order_event "u3" "acme" 0)
    ∷ connection (some (text "timeout")) none
    ∷ add (order_event "u4" "acme" 0)
    ∷ connection none (some (text "connection reset"))
    ∷ add (order_event "u5" "acme" 0)
    ∷ read_from as_acme "order:1" (pos 2)
    ∷ []

-- POST /events with an API key.
abbrev pub posted : Request
posted = record {
  header = λ name. if name == "X-API-Key" then "dev-api-key" else "";
  query = λ name. "";
  stream_id = "";
  body = encoded (
      obj (
        field "stream_id" (str "order:2") (
          field "type" (str "order.created")
            (field "source" (str "api") (field "payload" (obj end) end)))));
  context = background;
}

abbrev pub served : Response × Database × ℕ
served =
    serve (λ t. "") (λ j. some j) (event_store plain) failing no_index simple none "admin-secret"
      post_events "u3" (pos 7) posted tt (holding two_orders) 0

serve-Outcome_example :
    Outcome plain
      (λ t. "")
      (λ j. some j)
      failing
      no_index
      simple
      none
      "admin-secret"
      (pos 7)
      posted
      (holding two_orders)
      0
      served
serve-Outcome_example =
    serve-Outcome plain (λ t. "") (λ j. some j) failing no_index simple none "admin-secret" "u3"
      (pos 7) posted tt (holding two_orders) 0 two_orders-IsWellFormed

-- An index that refuses, and a dead-letter topic that counts.
abbrev refusing : Indexer ℕ
refusing = record { index = λ e n. (some (text "connection refused"), n + 1) }

abbrev letters : Writer DlqWire ℕ
letters = record { write_messages = λ m n. (none, n + 1) }

order_marshalled : marshal third ≡ ok (of third)
unfolding marshal
order_marshalled = refl

handle-cases_example :
    ((i' : ℕ) × (refusing.index third 0 ≡ (none, i'))
      × (handle (over_kafka refusing letters (pos 9)) (pos 9) third (0, 0) ≡ (none, (i', 0))))
    ⊎ ((x : Error) × (i' : ℕ) × (refusing.index third 0 ≡ (some x, i'))
        × (handle (over_kafka refusing letters (pos 9)) (pos 9) third (0, 0) ≡ (none, (i', 1))))
handle-cases_example = handle-cases refusing letters (pos 9) third (of third) 0 0 order_marshalled

abbrev count : Event → ℕ → Option Error × ℕ
count e n = (none, n + 1)

abbrev then_cancelled : List Fetch
then_cancelled = one_read ++ failed (text "context canceled") true ∷ []

run-HasFailed_example :
    (o : Option Error) × ((run count then_cancelled (record { handled = 0; committed = [] })).0
      ≡ returned o)
    × (run count (then_cancelled ++ one_read) (record { handled = 0; committed = [] })
        ≡ run count then_cancelled (record { handled = 0; committed = [] }))
run-HasFailed_example =
    run-HasFailed count then_cancelled one_read (record { handled = 0; committed = [] }) tt

abbrev pool : PoolLibrary ℕ
pool = record {
  new = λ dsn n. (none, n + 1);
  ping = λ n. (none, n);
  exec_ddl = λ n. (none, n);
  close = λ n. n - 1;
}

abbrev by_default : Config
unfolding load
by_default = load (λ name. "")

migrate_main-Ending_example :
    Ending two_files pool 0
      (migrate_main two_files pool by_default 0 fresh).0
      (migrate_main two_files pool by_default 0 fresh).2
migrate_main-Ending_example = migrate_main-Ending two_files pool 0 by_default 0 fresh refl

serve-IsDocumented_example :
    IsDocumented post_events served.0
    × IsKept post_events (holding two_orders, 0) (served.1, served.2)
serve-IsDocumented_example =
    serve-IsDocumented (λ t. "") (λ j. some j) (event_store plain) failing no_index simple none
      "admin-secret" post_events "u3" (pos 7) posted tt (holding two_orders) 0
