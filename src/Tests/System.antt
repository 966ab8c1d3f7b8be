-- ===== src/Tests/System.antt =====
-- The running system over topics that are logs and an index that is a list of documents.
mod Documents
mod Reads
mod Consistency
use mathlib.Core.List.{Memᴰ}
use mathlib.Core.List.Memᴰ
use mathlib.Core.Path.{subst}
use event_streaming_and_audi.Tests.System.Documents.{documents, Holds, documents-OnlyPuts}
use event_streaming_and_audi.Services.System.{
  Setup, System, Step, Reach, request, hand_over, consume, lose, here, next, queue, answered,
}
use event_streaming_and_audi.Services.System.Topics.{OnlyWrites}
use event_streaming_and_audi.Services.System.State.{IsSound}
use event_streaming_and_audi.Services.System.Sound.{Reach-IsSound}
use event_streaming_and_audi.Tests.Pipeline.{served, topic_logs, one_topic, no_messages, posted}
use event_streaming_and_audi.Tests.Fixtures.{plain, holding}
use event_streaming_and_audi.Tests.Access.{simple}
use event_streaming_and_audi.Tests.Services.{counting_dlq}
use event_streaming_and_audi.Event.{Event, Uuid, Time, new}
use event_streaming_and_audi.Event.Wire.{Wire, of, marshal, unmarshal}
use event_streaming_and_audi.Event.Json.{encoded, obj, end, field, str}
use event_streaming_and_audi.Postgres.{
  Row, row_of, event_store, append, values_for, next_version, max_version, insert_row, clashes,
}
use event_streaming_and_audi.Postgres.Contents.{Extends}
use event_streaming_and_audi.Http.Router.{post_events, serve, auth}
use event_streaming_and_audi.Prelude.{
  String, List, ℕ, pos, none, some, ◌≡◌, ◌⊎◌, inl, inr, refl, ◌++◌, ◌∷◌, [], Bool-cases, ◌==◌,
  eq_iff, equal_fold, sym, if◌then◌else◌,
}
use event_streaming_and_audi.Http.Handler.{handle_ingest, write_json}
use event_streaming_and_audi.Http.Decode.{
  decode_ingest, ingest_request_of, decode_field, texts_of, merge,
}
use event_streaming_and_audi.Authenticator.{authenticate_simple}
use event_streaming_and_audi.Auth.{with_identity, identity_from_context, tenant_identity}
use event_streaming_and_audi.Ingest.{ingest, ingest_for, publish_appended}
use event_streaming_and_audi.Event.Metadata.{marshal_map, fields_of}
use event_streaming_and_audi.Services.{resolver_of, consumed_topic}
use event_streaming_and_audi.Kafka.TopicResolver.{new_topic_resolver, resolve}
use event_streaming_and_audi.Kafka.Consumer.{process, commit, Progress, Message}
use event_streaming_and_audi.Kafka.Producer.{publish}
use event_streaming_and_audi.Consume.{handle, route_to_dlq}
use event_streaming_and_audi.Elasticsearch.{indexer, index, searcher}
use event_streaming_and_audi.Request.{Request}

abbrev pub setup : Setup (String → List Wire) (List (Uuid × Wire)) ℕ
setup = record {
  format = λ t. "";
  through_any = λ j. some j;
  columns = plain;
  authenticator = simple;
  issuer = none;
  admin_key = "admin-secret";
  kafka = one_topic;
  writer = topic_logs;
  client = documents;
  index_name = "events";
  dlq = counting_dlq;
}

pub topic_logs-OnlyWrites : OnlyWrites topic_logs (λ p t. p t)
topic_logs-OnlyWrites = record {
  written = λ m p t w h. elim (Bool-cases (m.topic == t)) [
    | inr other ↦ inl (rw other at h)
    | inl same ↦ elim (Memᴰ.append_cases (p t) (rw same at h)) [
      | inl old ↦ inl old
      | inr new ↦ inr (sym ((eq_iff m.topic t).0 same), Memᴰ.eq_of_singleton new)
    ]
  ];
}

-- An event of POST /events, its row, and the states of the system on its way.
abbrev pub ordered : Event
ordered = record {
  id = "u3";
  tenant_id = "default";
  stream_id = "order:2";
  type = "order.created";
  source = "api";
  version = pos 1;
  occurred_at = pos 7;
  payload = encoded (obj end);
  metadata = some [];
}

abbrev pub St : Type 0
St = System (String → List Wire) (List (Uuid × Wire)) ℕ

abbrev pub empty_system : St
empty_system = record {
  db = holding [];
  inserting = [];
  unpublished = [];
  kafka = no_messages;
  progress = record { handled = ([], 0); committed = [] };
}

pub opened_system : Unit {0}
unfolding equal_fold serve auth handle_ingest write_json decode_ingest ingest_request_of
    decode_field texts_of merge authenticate_simple with_identity identity_from_context
    tenant_identity ingest ingest_for publish_appended new event_store append values_for
    next_version max_version insert_row clashes marshal_map fields_of publish marshal resolver_of
    new_topic_resolver resolve consumed_topic process commit unmarshal handle indexer index
    route_to_dlq searcher
opened_system = tt

abbrev pub stored_row : Row
stored_row = row_of plain ordered (pos 1) (obj end)

abbrev pub accepted : St
accepted = record empty_system { db = holding (stored_row ∷ []); unpublished = ordered ∷ [] }

abbrev pub an_order : Request
an_order = record posted {
  body = encoded (
      obj (
        field "stream_id" (str "order:2") (
          field "type" (str "order.created")
            (field "source" (str "api") (field "payload" (obj end) end)))));
}

abbrev pub published : St
published = record empty_system {
  db = holding (stored_row ∷ []);
  kafka = λ t. if "events.v1" == t then of ordered ∷ [] else [];
}

abbrev pub message_of_it : Message
message_of_it = record { offset = 0; value = of ordered }

abbrev pub found : St
found = record published {
  progress = record { handled = (("u3", of ordered) ∷ [], 0); committed = message_of_it ∷ [] };
}

created : served.0.status ≡ 201
unfolding opened_system
created = refl

pub first_step : Step setup (λ p t. p t) empty_system accepted
unfolding opened_system
first_step = request post_events "u3" (pos 7) an_order

pub second_step : Step setup (λ p t. p t) accepted published
unfolding opened_system
second_step = hand_over [] ordered [] refl

pub third_step : Step setup (λ p t. p t) published found
unfolding opened_system
third_step = consume (pos 9) message_of_it none (Memᴰ.head refl)

pub to_found : Reach setup (λ p t. p t) empty_system found
to_found = next (next (next here first_step) second_step) third_step

pub empty_system-IsSound : IsSound setup (λ p t. p t) Holds empty_system
empty_system-IsSound = record {
  rows = λ s. tt;
  keys = λ r q m. elim m [ ];
  inserting = λ e r m. elim m [ ];
  waiting = λ e m. elim m [ ];
  logged = λ t w m. elim m [ ];
  indexed = λ id w m. elim m [ ];
}

Reach-IsSound_example : IsSound setup (λ p t. p t) Holds found × Extends [] found.db.rows
Reach-IsSound_example =
    Reach-IsSound setup (λ p t. p t) Holds topic_logs-OnlyWrites documents-OnlyPuts
      empty_system-IsSound to_found
