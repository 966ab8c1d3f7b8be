-- ===== src/Tests/Storage.antt =====
-- The store, ingestion and replay.
use event_streaming_and_audi.Replay.{
  replay, replay_for, checked, validate_contiguous, validate_after,
}
use event_streaming_and_audi.Postgres.{
  event_store, get_from_version, query_events, order_by_version, insert_by_version, scan_rows,
  scan_event, append, values_for, next_version, max_version, insert_row, clashes, Database,
  of_stream, Row,
}
use event_streaming_and_audi.Auth.{Identity, tenant_identity, identity_from_context}
use event_streaming_and_audi.Tests.Fixtures.{
  plain, as_acme, holding, two_orders, order_event, two_orders-IsWellFormed, acme, failing,
  shared_orders, order, new_order, plain-KeepsMaps, shared_orders-IsWellFormed,
}
use event_streaming_and_audi.Replay.Whole.{command, from_on, replay-whole}
use event_streaming_and_audi.Prelude.{
  ◌≡◌, some, ◌∷◌, [], int64_succ, wrap64, refl, ◌↔◌, All, ◌≢◌, List, none, ◌++◌, ℕ, String, pos,
  select, arith, eq_iff, inl,
}
use event_streaming_and_audi.Postgres.Queries.{AreRead, IsReadable}
use event_streaming_and_audi.Errors.{ok, Error, err, text, wrapped, Result}
use event_streaming_and_audi.Replay.Stored.{wanted, replay-ok}
use event_streaming_and_audi.Event.Metadata.{unmarshal_map, map_of, marshal_map, fields_of}
use event_streaming_and_audi.Replay.Contiguous.{HasNoGap, validate_contiguous_iff}
use event_streaming_and_audi.Ingest.{ingest, ingest_for, publish_appended}
use event_streaming_and_audi.Event.{new, Event}
use event_streaming_and_audi.Postgres.Concurrent.{
  Concurrent, Reach, IsConsistent, next, Reach-IsConsistent, here, begin, finish,
}
use event_streaming_and_audi.Postgres.Appends.{append-succeeds}
use event_streaming_and_audi.Ingest.Stored.{ingest-replay}
use event_streaming_and_audi.Postgres.Contents.{IsKept, IsRowOf}
use event_streaming_and_audi.Event.Json.{obj, end, encoded, Fields, num}
use event_streaming_and_audi.Replay.Gaps.{replay-gap}
use event_streaming_and_audi.Grpc.{
  ReplayRequest, EventStream, handle_replay, proto_events, domain_to_proto, payload_struct,
  response,
}
use event_streaming_and_audi.Grpc.Answers.{AreConverted, handle_replay-response}
use event_streaming_and_audi.Grpc.Opaque.{internal_error, handle_replay-opaque}

-- Opens what a run of the store and the services computes with.
opened : Unit {0}
unfolding replay replay_for checked validate_contiguous validate_after event_store get_from_version
    query_events order_by_version insert_by_version scan_rows scan_event unmarshal_map map_of
    tenant_identity identity_from_context int64_succ wrap64 append values_for next_version
    max_version insert_row clashes ingest ingest_for publish_appended new marshal_map fields_of
opened = tt

replay_two :
    replay (event_store plain) as_acme (command "order:1" 2) (holding two_orders)
    ≡ ok (order_event "u2" "acme" 2 ∷ [])
unfolding opened
replay_two = refl

replay-ok_example :
    (i : Identity) × (tenant_identity as_acme ≡ some i)
    × AreRead (wanted i (command "order:1" 2) (holding two_orders)) (order_event "u2" "acme" 2 ∷ [])
    × HasNoGap (order_event "u2" "acme" 2 ∷ [])
replay-ok_example =
    replay-ok plain as_acme (command "order:1" 2) (holding two_orders) _ two_orders-IsWellFormed
      replay_two

acme_tenant : tenant_identity as_acme ≡ some acme
unfolding opened
acme_tenant = refl

two_orders-IsReadable : All IsReadable (select (of_stream "order:1") two_orders)
unfolding opened
two_orders-IsReadable = ((some [], refl), ((some [], refl), tt))

order_named : ◌≢◌ {A = String} "order:1" ""
order_named = ground (arith, eq_iff "order:1" "")

replay-whole_example :
    (es : List Event) × (replay
        (event_store plain)
        as_acme
        (command "order:1" 2)
        (holding two_orders)
      ≡ ok es)
    × AreRead (from_on 2 (select (of_stream "order:1") two_orders)) es
replay-whole_example =
    replay-whole plain as_acme acme "order:1" 2 (holding two_orders) two_orders-IsWellFormed
      acme_tenant order_named refl (refl, (refl, tt)) two_orders-IsReadable (omega arith)

-- acme's two events are both stored, and acme's replay from the first of them is refused.
replay-gap_example :
    (e : Error) × (replay (event_store plain) as_acme (command "order:1" 1) (holding shared_orders)
      ≡ err e)
replay-gap_example =
    replay-gap plain as_acme acme (command "order:1" 1) (holding shared_orders) []
      (order "u3" "acme" 3 ∷ []) [] (order "u1" "acme" 1) (order "u2" "globex" 2)
      (order "u3" "acme" 3) shared_orders-IsWellFormed acme_tenant refl refl globex_ne refl
  where
    globex_ne : ◌≢◌ {A = String} "globex" "acme"
    globex_ne = ground (arith, eq_iff "globex" "acme")

validate_contiguous_iff_example :
    (validate_contiguous (order_event "u1" "acme" 1 ∷ order_event "u3" "acme" 3 ∷ []) ≡ none)
    ↔ HasNoGap (order_event "u1" "acme" 1 ∷ order_event "u3" "acme" 3 ∷ [])
validate_contiguous_iff_example =
    validate_contiguous_iff (order_event "u1" "acme" 1 ∷ order_event "u3" "acme" 3 ∷ [])

append-succeeds_example :
    (r : Row) × (append plain (order_event "u3" "acme" 0) (holding two_orders)
      ≡ (ok (order_event "u3" "acme" 3), holding (two_orders ++ r ∷ [])))
    × IsRowOf plain (order_event "u3" "acme" 3) r
append-succeeds_example =
    append-succeeds plain (order_event "u3" "acme" 0) (holding two_orders) (obj end)
      two_orders-IsWellFormed refl refl refl refl (omega arith)

-- Two appends to one stream that overlap: both compute version 3, and the second is refused.
abbrev start : Concurrent
start = record { db = holding two_orders; pending = [] }

abbrev raced : Concurrent
raced = record { db = holding (two_orders ++ order "u3" "acme" 3 ∷ []); pending = [] }

race : Reach plain start raced
unfolding opened
race =
    next
      (next
        (next (next here (begin (order_event "u3" "acme" 0) (order "u3" "acme" 3) refl))
          (begin (order_event "u4" "acme" 0) (order "u4" "acme" 3) refl))
        (finish (order "u4" "acme" 3 ∷ []) (order "u3" "acme" 3) [] refl))
      (finish [] (order "u4" "acme" 3) [] refl)

Reach-IsConsistent_example : IsConsistent raced
Reach-IsConsistent_example =
    Reach-IsConsistent (record { rows = two_orders-IsWellFormed; pending = tt }) race

ingested :
    ingest (event_store plain) failing "u3" (pos 7) as_acme new_order (holding two_orders) 0
    ≡ (ok (order_event "u3" "acme" 3), holding (two_orders ++ order "u3" "acme" 3 ∷ []), 1)
unfolding opened
ingested = refl

abbrev down : Database
down = record { rows = two_orders; fault = some (text "timeout"); reply = none }

refused :
    ingest (event_store plain) failing "u3" (pos 7) as_acme new_order down 0
    ≡ (err (wrapped "append to store" (wrapped "insert event" (text "timeout"))), down, 0)
unfolding opened
refused = refl

ingest-replay_example :
    (stored : Event) × (replay
        (event_store plain)
        as_acme
        (command "order:1" 3)
        (holding (two_orders ++ order "u3" "acme" 3 ∷ []))
      ≡ ok (stored ∷ []))
    × IsKept plain (order_event "u3" "acme" 3) stored
    × (pos 3 ≡ pos 3)
ingest-replay_example =
    ingest-replay plain plain-KeepsMaps failing "u3" (pos 7) as_acme acme new_order
      (holding two_orders) (holding (two_orders ++ order "u3" "acme" 3 ∷ [])) 0 1
      (order_event "u3" "acme" 3) two_orders-IsWellFormed acme_tenant (refl, (refl, tt))
      two_orders-IsReadable (omega arith) ingested

abbrev asked : ReplayRequest
asked = record { stream_id = "order:1"; from_version = pos 2 }

abbrev answer : EventStream ℕ
answer = record {
  stream_id = "order:1";
  events =
      record {
        id = "u2";
        stream_id = "order:1";
        type = "order.created";
        source = "orders-svc";
        version = pos 2;
        occurred_at = pos 7;
        payload = some 0;
        metadata = some [];
      }
      ∷ [];
}

answered :
    handle_replay (λ fs. ok 0) (event_store plain) as_acme asked (holding two_orders)
    ≡ response answer
unfolding opened handle_replay proto_events domain_to_proto payload_struct
answered = refl

handle_replay-response_example :
    (◌≢◌ {A = String} "order:1" "")
    × (◌≡◌ {A = String} "order:1" "order:1")
    × ((es : List Event) × (replay
            (event_store plain)
            as_acme
            (record { stream_id = "order:1"; from_version = pos 2 })
            (holding two_orders)
          ≡ ok es)
        × AreConverted (λ fs. ok 0) es answer.events)
handle_replay-response_example =
    handle_replay-response (λ fs. ok 0) (event_store plain) as_acme asked (holding two_orders)
      answer answered

-- The payload of the only event is the number 5.
abbrev five : Row
five = record (order "u1" "acme" 1) { payload = num "5" }

abbrev five_event : Event
five_event = record (order_event "u1" "acme" 1) { payload = encoded (num "5") }

abbrev from_one : ReplayRequest
from_one = record { stream_id = "order:1"; from_version = pos 1 }

five_read :
    replay
      (event_store plain)
      as_acme
      (record { stream_id = "order:1"; from_version = pos 1 })
      (holding (five ∷ []))
    ≡ ok (five_event ∷ [])
unfolding opened
five_read = refl

abbrev any_struct : Fields → Result ℕ
any_struct fs = ok 0

handle_replay-opaque_example :
    (x : Error) × (handle_replay any_struct
        (event_store plain)
        as_acme
        from_one
        (holding (five ∷ []))
      ≡ internal_error any_struct x)
handle_replay-opaque_example =
    handle_replay-opaque any_struct (event_store plain) as_acme from_one (holding (five ∷ []))
      (five_event ∷ []) order_named five_read (inl tt)
