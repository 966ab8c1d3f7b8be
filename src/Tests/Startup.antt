-- ===== src/Tests/Startup.antt =====
-- The start of the services: a pool, a cluster and an index that answer.
use event_streaming_and_audi.Services.Shutdown
use event_streaming_and_audi.Kafka.TopicResolver.{contains, topics_of, collect, new_topic_resolver}
use event_streaming_and_audi.Errors.{ok, text}
use event_streaming_and_audi.Postgres.Connect.{PoolLibrary, new_event_store}
use event_streaming_and_audi.Prelude.{
  ℕ, arith, String, none, ◌≡◌, List, ◌∷◌, if◌then◌else◌, ◌+◌, some, Option, ◌++◌, ap, [], ◌==◌,
  refl, map, ◌||◌, sym, ◌-◌, ◌∙◌,
}
use event_streaming_and_audi.Config.{PostgresConfig, Config, load, dlq_topic_name}
use event_streaming_and_audi.Kafka.TopicManager.{
  Cluster, ensure_topics, ensure_from, try_ensure_topics, plan, reach_controller, to_create,
}
use event_streaming_and_audi.Kafka.TopicManager.Provision.{
  Serves, Provisioned, ensure_topics-Provisioned,
}
use event_streaming_and_audi.Services.Startup.{
  Libraries, Waits, World, start_ingest_api, IngestApi, with_topics, ingest_api_of,
}
use event_streaming_and_audi.Kafka.Producer.{Writer, DlqWire, message_of}
use event_streaming_and_audi.Services.{
  consumer_specs, resolver_of, build_topic_specs, build_authenticator,
}
use event_streaming_and_audi.Services.Named.{Fits, IsNamed, load-Fits}
use event_streaming_and_audi.Elasticsearch.{ensure_index, new_indexer, connect_from}
use event_streaming_and_audi.Kafka.Settings.{new_producer, new_dlq_producer, new_consumer}
use event_streaming_and_audi.Event.{Uuid}
use event_streaming_and_audi.Authenticator.Jwt.{authenticate_jwt}
use event_streaming_and_audi.Event.Wire.{Wire, of}
use event_streaming_and_audi.Tests.Access.{one_token}
use event_streaming_and_audi.Tests.Services.{function_server, kafka}
use event_streaming_and_audi.Tests.Fixtures.{order_event}
use event_streaming_and_audi.Services.Shutdown.{Happening, signal}

-- The state is the number of open pools; the schema is refused.
abbrev refusing_pool : PoolLibrary ℕ
refusing_pool = record {
  new = λ dsn n. (none, n + 1);
  ping = λ n. (none, n);
  exec_ddl = λ n. (some (text "permission denied"), n);
  close = λ n. n - 1;
}

abbrev database : PostgresConfig
database = record { dsn = "postgres://localhost" }

-- A cluster is the list of its topics.
abbrev topics_cluster : Cluster (List String)
topics_cluster = record {
  dial = λ ts. none;
  read_partitions = λ ts. ok ts;
  controller = λ ts. none;
  dial_controller = λ ts. none;
  create_topics = λ specs ts. (none, ts ++ map (λ s. s.name) specs);
}

contains-append :
    (t : String) (ts us : List String) → contains t (ts ++ us) ≡ (contains t ts || contains t us)
unfolding contains
contains-append t [] us = refl
contains-append t (x ∷ ts) us = ground (arith, contains-append t ts us)

topics_cluster-Serves : Serves topics_cluster (λ ts t. contains t ts)
topics_cluster-Serves = record {
  lists = λ c ts h t. (let same : c ≡ ts = cc in ap (contains t) (sym same));
  creates = λ specs c c' h t.
      (let same : c ++ map (λ s. s.name) specs ≡ c' = cc in
        ap (contains t) (sym same) ∙ contains-append t c (map (λ s. s.name) specs));
}

abbrev pool : PoolLibrary ℕ
pool = record refusing_pool { exec_ddl = λ n. (none, n) }

abbrev libraries : Libraries ℕ (List String) (Uuid → Option Wire)
libraries = record {
  pool = pool;
  cluster = topics_cluster;
  new_client = λ addresses. none;
  client = function_server;
  jwt = one_token;
}

abbrev no_change : Waits (List String) (Uuid → Option Wire)
no_change = record { kafka = λ n ts. ts; signalled = λ n. none; elasticsearch = λ n s. s }

abbrev with_jwt : Config
with_jwt = record {
  http_addr = ":8080";
  grpc_addr = ":50051";
  postgres = database;
  kafka = kafka;
  elasticsearch = record { addresses = "http://localhost:9200" ∷ []; index = "events" };
  auth = record { mode = "jwt"; api_key = ""; jwt_secret = "s3cret"; admin_key = "" };
}

abbrev before : World ℕ (List String) (Uuid → Option Wire)
before = record { postgres = 0; kafka = "orders.v1" ∷ []; elasticsearch = λ id. none }

abbrev after : World ℕ (List String) (Uuid → Option Wire)
after = record before { postgres = 1; kafka = "orders.v1" ∷ "events.v1" ∷ "events.v1.dlq" ∷ [] }

opened_start : Unit {0}
unfolding start_ingest_api with_topics new_event_store ensure_topics ensure_from try_ensure_topics
    plan reach_controller to_create contains build_topic_specs topics_of collect resolver_of
    new_topic_resolver dlq_topic_name new_indexer connect_from ensure_index build_authenticator
opened_start = tt

abbrev api : IngestApi
api =
    ingest_api_of libraries no_change with_jwt
      (record { authenticate = authenticate_jwt one_token "s3cret" })

api_started : start_ingest_api libraries no_change with_jwt before ≡ (ok api, after)
unfolding opened_start
api_started = refl

-- The shutdown fails after the signal.
abbrev signalled : List Happening
signalled = signal (some (text "context deadline exceeded")) ∷ []

abbrev dlq_writer : Writer DlqWire ℕ
dlq_writer = record { write_messages = λ m n. (none, n + 1) }

-- One topic exists; the other is made.
two_topics :
    ensure_topics topics_cluster (consumer_specs kafka) (λ n ts. ts) (λ n. none) ("events.v1" ∷ [])
    ≡ (none, "events.v1" ∷ "events.v1.dlq" ∷ [], 0)
unfolding opened_start consumer_specs
two_topics = refl

ensure_topics-Provisioned_example :
    Provisioned topics_cluster
      (λ ts t. contains t ts)
      topics_cluster-Serves
      (consumer_specs kafka)
      ("events.v1" ∷ "events.v1.dlq" ∷ [])
    × ((try_ensure_topics topics_cluster
          (consumer_specs kafka)
          ("events.v1" ∷ "events.v1.dlq" ∷ [])).1
        ≡ "events.v1" ∷ "events.v1.dlq" ∷ [])
ensure_topics-Provisioned_example =
    ensure_topics-Provisioned topics_cluster (λ ts t. contains t ts) topics_cluster-Serves
      (consumer_specs kafka) (λ n ts. ts) (λ n. none) ("events.v1" ∷ [])
      ("events.v1" ∷ "events.v1.dlq" ∷ []) 0 two_topics

abbrev environment : String → String
environment name = if name == "KAFKA_TOPIC_ROUTES" then "order:orders.v1" else ""

load-Fits_example :
    Fits (new_producer (load environment).kafka) (
      message_of
        (resolver_of (load environment).kafka)
        (order_event "u1" "acme" 1)
        (of (order_event "u1" "acme" 1)))
    × IsNamed (new_dlq_producer (load environment).kafka).topic
    × IsNamed (new_consumer (load environment).kafka).topic
load-Fits_example =
    load-Fits environment (order_event "u1" "acme" 1) (of (order_event "u1" "acme" 1))
