-- ===== src/Tests/Services.antt =====
-- The consumer, the indexer, the routing of topics and the waits at the start.
use event_streaming_and_audi.Config.Routes.{Free, ◌+++◌}
use event_streaming_and_audi.Kafka.TopicResolver.Domains.{Routed}
use event_streaming_and_audi.Prelude.{
  ◌≢◌, if◌then◌else◌, ◌==◌, List, ℕ, ◌∷◌, ◌≡◌, none, Option, [], ◌↔◌, pos, ◌+◌, String, some, refl,
}
use event_streaming_and_audi.Tests.Fixtures.{order_event}
use event_streaming_and_audi.Event.{Event, Uuid}
use event_streaming_and_audi.Event.Wire.{Wire, of}
use event_streaming_and_audi.Errors.{ok, err, text, Error, attempts, wrapped}
use event_streaming_and_audi.Kafka.Consumer.{Message, Fetch, message, Progress, run}
use event_streaming_and_audi.Kafka.Consumer.Delivery.{IsDelivered, messages, run-IsDelivered, feed}
use event_streaming_and_audi.Kafka.TopicResolver.{resolve}
use event_streaming_and_audi.Elasticsearch.{Client, new_indexer, connect_from, ensure_index}
use event_streaming_and_audi.Elasticsearch.Redelivery.{feed-redelivered, service}
use event_streaming_and_audi.Services.Routing.{resolve-consumed_iff}
use event_streaming_and_audi.Services.{resolver_of, consumed_topic}
use event_streaming_and_audi.Config.{KafkaConfig}
use event_streaming_and_audi.Consume.{DlqPublisher, handle}
use event_streaming_and_audi.Tests.Search.{es_server}

abbrev pub one_round : List Fetch
one_round = message (record { offset = 0; value = of (order_event "u1" "acme" 1) }) none ∷ []

abbrev count : Event → ℕ → Option Error × ℕ
count e n = (none, n + 1)

abbrev at_start : Progress ℕ
at_start = record { handled = 0; committed = [] }

run-IsDelivered_example :
    IsDelivered count
      (messages one_round)
      at_start
      (run count one_round at_start).0
      (run count one_round at_start).1
run-IsDelivered_example = run-IsDelivered count one_round at_start

abbrev pub kafka : KafkaConfig
kafka = record {
  brokers = "localhost:9094" ∷ [];
  topic = "events.v1";
  dlq_topic = "";
  group_id = "consumer-service";
  topic_routes = ("order", "orders.v1") ∷ [];
  topic_partitions = pos 6;
  topic_replication = pos 1;
}

-- The order's route takes it away from the topic that is read.
resolve-consumed_iff_example :
    (resolve (resolver_of kafka) (order_event "u1" "acme" 1) ≡ consumed_topic kafka) ↔ (
      (domain rest t : String)
      → "order:1" ≡ domain +++ String.◌∷◌ ":" rest
      → Free b':' domain
      → domain ≢ ""
      → Routed domain t (("order", "orders.v1") ∷ [])
      → t ≡ "events.v1")
resolve-consumed_iff_example = resolve-consumed_iff kafka (order_event "u1" "acme" 1)

-- The index as a function from ids, and a queue that counts.
abbrev pub function_server : Client (Uuid → Option Wire)
function_server = record {
  exists = λ name s. ok (record { status = 200; body = tt });
  create = λ name mapping s. (err (text "exists"), s);
  put = λ name id w s.
      (ok (record { status = 201; body = "" }), λ j. if id == j then some w else s j);
  search = λ name body s. err (text "no search");
}

abbrev pub counting_dlq : DlqPublisher ℕ
counting_dlq = record { publish = λ m n. (none, n + 1) }

abbrev an_order : List Message
an_order = record { offset = 0; value = of (order_event "u1" "acme" 1) } ∷ []

abbrev nothing : (Uuid → Option Wire) × ℕ
nothing = (λ j. none, 0)

abbrev consume : Event → (Uuid → Option Wire) × ℕ → Option Error × ((Uuid → Option Wire) × ℕ)
consume e h =
    handle (service function_server "events" counting_dlq (pos 9) (λ s j. s j)) (pos 9) e h

feed-redelivered_example :
    (feed consume an_order (feed consume an_order nothing)).0 "u1"
    ≡ (feed consume an_order nothing).0 "u1"
feed-redelivered_example =
    feed-redelivered function_server "events" counting_dlq (pos 9) (λ s j. s j) (λ id w s j. refl)
      an_order (λ j. none) 0 "u1"

abbrev gave_up_error : Error
gave_up_error =
    attempts "ensure index" (pos 10) (wrapped "create index request" (text "connection refused"))

gave_up : (new_indexer es_server "events" (λ n s. s) none).0 ≡ err gave_up_error
unfolding new_indexer connect_from ensure_index
gave_up = refl
