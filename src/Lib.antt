-- ===== src/Lib.antt =====
-- Event streaming and audit platform.
--
-- The ingest-api takes events over HTTP, appends each to PostgreSQL, the source of truth, and publishes
-- it to Kafka. The consumer-service reads Kafka and indexes the events in Elasticsearch, which answers
-- the queries of the ingest-api. The replay-service answers a stream from PostgreSQL over gRPC.
--
-- Files and code (paths from the repository's root):
--   Event              internal/domain/event: the entity, New, and the ports Store, Publisher, Indexer
--                      and Searcher as records of operations over a state. Event/Json is JSON as a
--                      tree, Event/Metadata and Event/Wire what encoding/json does to the metadata and
--                      to an event.
--   Auth               internal/application/auth: Identity, the value in the context, the issuer port.
--   Ingest, Replay,    internal/application/{ingest,replay,query,consume}/service.go: Ingest, Replay
--   Query, Consume     with validateContiguous, ListAll and QueryByStream, handle with routeToDLQ.
--   Postgres           internal/infrastructure/postgres/store.go: the rows of the table events, with
--                      the two unique constraints, and EventStore's operations. Postgres/Concurrent has
--                      appends that overlap as steps between reading the version and inserting,
--                      Postgres/Connect NewEventStore.
--   Elasticsearch      internal/infrastructure/elasticsearch/indexer.go over a client.
--   Kafka/*            internal/infrastructure/kafka: Consumer.Run, the topic resolvers (with what a
--                      domain is, apart from the code, in Kafka/TopicResolver/Domains), the two
--                      producers, the topic manager. Kafka/Settings has what NewProducer,
--                      NewDLQProducer and NewConsumer set.
--   Authenticator      internal/infrastructure/auth: none, simple, and jwt with the issuer.
--   Http/*             internal/infrastructure/httpserver: the DTOs and their decoding, the handlers,
--                      and the routes with the middleware.
--   Request            the http.Request as far as it is read.
--   Grpc               internal/infrastructure/grpcserver/handler.go.
--   Config             internal/config/config.go.
--   Migrate            cmd/migrate/main.go: run and applyOne, and main in Migrate/Main.
--   Services           cmd/{ingest-api,consumer-service,replay-service}/main.go: what main builds, and
--                      in Services/Startup the mains up to serving, the consumer-service to its end, whose
--                      loop Services/Rounds is about;
--                      Services/Shutdown has the ends of the other two. Services/System is the whole
--                      system at work, as a step relation over the definitions of all parts: requests,
--                      INSERTs that overlap, publications, ends of the process, messages that may come
--                      again, and a database that may be down, in any order.
--   Backoff            the waits of the two retry loops.
--   Errors             error values with their wrapping, and results; a do block stops at an error.
--   Prelude            the shared names, integers over the native numbers, lists and texts.
--   Tests              runs of the definitions, and the theorems at concrete inputs.
--
-- State and calls. A component with state takes it and returns it, in the order of the Go calls. An
-- error is a value that keeps the texts around it. The clock and fresh UUIDs are arguments. An int64 is
-- an integer; where the code adds or multiplies, the wrap-around at 2^63 is written out.
--
-- Loops. The loops over slices are structural recursion; Consumer.Run is a function of the list of the
-- rounds that the reader has answered, and waits when the list ends. The retry loops recurse on the
-- attempts that are left, 5 and 10 as in the code, so no fuel is needed.
--
-- Parameters. pgxpool, kafka-go's reader, writer and cluster, the Elasticsearch client, golang-jwt,
-- structpb, net.Listen, what jsonb and timestamptz keep of a value, and the effect of a migration's
-- SQL are arguments. What a theorem relies on is a named hypothesis: HonoursFilters (a search answers
-- documents that pass its filters), Upserts (every document replaces the one with its id), Verifies (a
-- signed token parses before it expires), KeepsMaps (jsonb keeps an object of texts), Serves (the
-- topics that are read are those that exist, and CreateTopics adds topics), Logs (a message that is
-- written is the last of its topic's log), Counts (New opens a pool and Close closes one), AsksKey
-- (golang-jwt takes the key that the key function gives for the token's method), and for the system
-- OnlyWrites (a topic holds nothing but the messages written to it), OnlyPuts (the index holds nothing
-- but the documents put into it) and OnlyFinds (a search answers documents of the index). Accepted is
-- that the server takes the document of one event.
--
-- Errors of the database. `fault` is an error that every statement meets; `reply` is one that meets the
-- answer of an INSERT after the commit, so that Append fails and its row is there. Both may change at
-- any time.
--
-- Order. In Services/System requests are steps of their own, and an INSERT that overlaps with others
-- takes its version in one step and is settled in a later one, as in Postgres/Concurrent. The
-- publication of an event comes at any later time, or not at all, since Ingest publishes after the
-- append and outside of its transaction; the answer of a request does not depend on it.
--
-- Not modelled: logging, timeouts, the inside of the http.Server and of the gRPC server, chi's
-- matching of a request to a route, the swagger route, and the generated code under gen and docs. A read
-- of the migrations that breaks off after some rows is not modelled: run does not call rows.Err() there.
pub mod Prelude
pub mod Errors
pub mod Auth
pub mod Event
pub mod Postgres
pub mod Ingest
pub mod Replay
pub mod Query
pub mod Consume
pub mod Kafka
pub mod Elasticsearch
pub mod Config
pub mod Backoff
pub mod Request
pub mod Authenticator
pub mod Grpc
pub mod Migrate
pub mod Http
pub mod Services
pub mod Tests
