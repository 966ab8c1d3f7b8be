-- ===== src/Services/Startup.antt =====
-- What the mains of the services do until they serve. `err` is os.Exit(1) after the error is logged.
-- What a service has around it: PostgreSQL, Kafka and Elasticsearch.
use event_streaming_and_audi.Prelude.{String, ℕ, Option, List, some, none, []}
use event_streaming_and_audi.Kafka.TopicResolver.{TopicResolver}
use event_streaming_and_audi.Kafka.Settings.{
  ReaderConfig, WriterConfig, new_consumer, new_producer, new_dlq_producer,
}
use event_streaming_and_audi.Postgres.Connect.{PoolLibrary, new_event_store}
use event_streaming_and_audi.Config.{ElasticsearchConfig, Config}
use event_streaming_and_audi.Kafka.Producer.{Writer, DlqWire, dlq_producer}
use event_streaming_and_audi.Kafka.TopicManager.{Cluster, TopicSpec, ensure_topics}
use event_streaming_and_audi.Errors.{Result, Error, err, text, ok, wrapped, Exit, running, exited}
use event_streaming_and_audi.Authenticator.{Authenticator}
use event_streaming_and_audi.Services.{
  consumer_specs, resolver_of, build_topic_specs, build_authenticator, build_issuer,
}
use event_streaming_and_audi.Event.{Time}
use event_streaming_and_audi.Auth.{Issuer}
use event_streaming_and_audi.Elasticsearch.{Client, indexer, new_indexer}
use event_streaming_and_audi.Consume.{Service, handle}
use event_streaming_and_audi.Kafka.Consumer.{Fetch, Outcome, Progress, returned, run, waiting}
use event_streaming_and_audi.Authenticator.Jwt.{Library}

pub record World (D C S : Type 0) : Type 0 where
  pub postgres : D
  pub kafka : C
  pub elasticsearch : S

-- The http.Server; durations are in seconds.
pub record HttpServer : Type 0 where
  pub addr : String
  pub read_timeout : ℕ
  pub write_timeout : ℕ
  pub idle_timeout : ℕ

-- What the ingest-api runs with.
pub record IngestApi : Type 0 where
  pub resolver : TopicResolver
  pub writer : WriterConfig
  pub index_name : String
  pub authenticator : Authenticator
  pub issuer : Option Issuer
  pub admin_key : String
  pub server : HttpServer

-- What the consumer-service runs with.
pub record ConsumerService : Type 0 where
  pub reader : ReaderConfig
  pub dlq_writer : WriterConfig
  pub index_name : String

-- What the code calls: pgxpool, the cluster, elasticsearch.NewClient with the client, and golang-jwt.
pub record Libraries (D C S : Type 0) : Type 0 where
  pub pool : PoolLibrary D
  pub cluster : Cluster C
  pub new_client : List String → Option Error
  pub client : Client S
  pub jwt : Library

-- What happens around the service while it waits between two attempts, and whether a signal ends the
-- wait.
pub record Waits (C S : Type 0) : Type 0 where
  pub kafka : ℕ → C → C
  pub signalled : ℕ → Option Error
  pub elasticsearch : ℕ → S → S

module _ {D C S : Type 0} (libs : Libraries D C S) (waits : Waits C S) where
  -- NewIndexer
  abbrev pub connect_index : ElasticsearchConfig → Option Error → S → Result (Unit {0}) × S × ℕ
  connect_index cfg (some x) s = (err (wrapped "create elasticsearch client" x), s, 0)
  connect_index cfg none s = new_indexer libs.client cfg.index waits.elasticsearch s

  -- EnsureTopics and NewIndexer, which two of the services call one after the other; `next` goes on.
  abbrev pub indexer_made :
      {R : Type 0}
      → Config
      → (World D C S → Result R × World D C S)
      → World D C S
      → Result (Unit {0}) × S × ℕ
      → Result R × World D C S
  indexer_made cfg next w (err x, s, _) = (err x, record w { elasticsearch = s })
  indexer_made cfg next w (ok _, s, _) = next (record w { elasticsearch = s })

  abbrev pub topics_ensured :
      {R : Type 0}
      → Config
      → (World D C S → Result R × World D C S)
      → World D C S
      → Option Error × C × ℕ
      → Result R × World D C S
  topics_ensured cfg next w (some x, c, _) = (err x, record w { kafka = c })
  topics_ensured cfg next w (none, c, _) =
      indexer_made cfg next (record w { kafka = c })
        (connect_index cfg.elasticsearch (libs.new_client cfg.elasticsearch.addresses)
          w.elasticsearch)

  unfoldable pub with_topics :
      {R : Type 0}
      → Config
      → List TopicSpec
      → (World D C S → Result R × World D C S)
      → World D C S
      → Result R × World D C S
  with_topics cfg specs next w =
      topics_ensured cfg next w
        (ensure_topics libs.cluster specs waits.kafka waits.signalled w.kafka)

  abbrev pub ingest_api_of : Config → Authenticator → IngestApi
  ingest_api_of cfg a = record {
    resolver = resolver_of cfg.kafka;
    writer = new_producer cfg.kafka;
    index_name = cfg.elasticsearch.index;
    authenticator = a;
    issuer = build_issuer libs.jwt cfg.auth;
    admin_key = cfg.auth.admin_key;
    server = record {
      addr = cfg.http_addr;
      read_timeout = 10;
      write_timeout = 10;
      idle_timeout = 60;
    };
  }

  abbrev pub ingest_api_with : Config → Option Authenticator → Result IngestApi
  ingest_api_with cfg none = err (text "AUTH_JWT_SECRET must be set when AUTH_MODE=jwt")
  ingest_api_with cfg (some a) = ok (ingest_api_of cfg a)

  abbrev pub store_made : Config → World D C S → Option Error × D → Result IngestApi × World D C S
  store_made cfg w (some x, d) = (err x, record w { postgres = d })
  store_made cfg w (none, d) =
      with_topics cfg (build_topic_specs cfg.kafka (resolver_of cfg.kafka))
        (λ w'. (ingest_api_with cfg (build_authenticator libs.jwt cfg.auth), w'))
        (record w { postgres = d })

  -- The ingest-api, up to ListenAndServe.
  unfoldable pub start_ingest_api : Config → World D C S → Result IngestApi × World D C S
  start_ingest_api cfg w = store_made cfg w (new_event_store libs.pool cfg.postgres w.postgres)

  abbrev pub consumer_of : Config → ConsumerService
  consumer_of cfg = record {
    reader = new_consumer cfg.kafka;
    dlq_writer = new_dlq_producer cfg.kafka;
    index_name = cfg.elasticsearch.index;
  }

  -- The consumer-service, up to svc.Run.
  unfoldable pub start_consumer : Config → World D C S → Result ConsumerService × World D C S
  start_consumer cfg w =
      with_topics cfg (consumer_specs cfg.kafka) (λ w'. (ok (consumer_of cfg), w')) w

-- The replay-service, up to srv.Serve: the store, then the address that net.Listen is given.
abbrev pub bound : Config → Option Error → Result String
bound cfg none = ok cfg.grpc_addr
bound cfg (some x) = err x

module _ {D : Type 0} (pool : PoolLibrary D) (listen : String → Option Error) where
  abbrev pub replay_store_made : Config → Option Error × D → Result String × D
  replay_store_made cfg (some x, d) = (err x, d)
  replay_store_made cfg (none, d) = (bound cfg (listen cfg.grpc_addr), d)

  unfoldable pub start_replay : Config → D → Result String × D
  start_replay cfg d = replay_store_made cfg (new_event_store pool cfg.postgres d)

abbrev pub exit_of : Outcome → Exit
exit_of waiting = running
exit_of (returned none) = exited 0
exit_of (returned (some x)) = exited 1

module _ {D C S P : Type 0} (libs : Libraries D C S) (waits : Waits C S) (writer : Writer DlqWire P)
    (now : Time) where
  -- The indexer and the dead-letter producer of the consumer-service.
  abbrev pub consume_service : ConsumerService → Service S P
  consume_service app = record {
    indexer = indexer libs.client app.index_name;
    dlq = dlq_producer writer;
  }

  -- svc.Run
  abbrev pub run_service :
      ConsumerService → List Fetch → Progress (S × P) → Outcome × Progress (S × P)
  run_service app rounds progress = run (handle (consume_service app) now) rounds progress

  abbrev pub consume_with :
      List Fetch → P → Result ConsumerService × World D C S → Exit × Progress (S × P)
  consume_with rounds p (err x, w) =
      (exited 1, record { handled = (w.elasticsearch, p); committed = [] })
  consume_with rounds p (ok app, w) =
      let r = run_service app rounds (record { handled = (w.elasticsearch, p); committed = [] }) in
      (exit_of r.0, r.1)

  -- main of the consumer-service, over the rounds that the reader answers.
  unfoldable pub consumer_main : Config → List Fetch → World D C S → P → Exit × Progress (S × P)
  consumer_main cfg rounds w p = consume_with rounds p (start_consumer libs waits cfg w)
