-- ===== src/Tests/Fixtures.antt =====
-- The data of the tests: two tenants, and a stream of orders.
use event_streaming_and_audi.Ingest
use event_streaming_and_audi.Postgres.{Database, Columns, Row}
use event_streaming_and_audi.Event.{Event, Publisher}
use event_streaming_and_audi.Ingest.Stored.{KeepsMaps}
use event_streaming_and_audi.Auth.{Identity, Context}
use event_streaming_and_audi.Prelude.{String, List, ◌∷◌, [], some, ℕ, pos, none, refl, ◌+◌}
use event_streaming_and_audi.Postgres.Versions.{IsWellFormed, insert-IsWellFormed}
use event_streaming_and_audi.Event.Json.{encoded, obj, end}
use event_streaming_and_audi.Event.Metadata.{unmarshal_map-marshal_map}
use event_streaming_and_audi.Errors.{text}

abbrev pub plain : Columns
plain = record { jsonb = λ j. j; timestamptz = λ t. t }

abbrev pub plain-KeepsMaps : KeepsMaps plain
plain-KeepsMaps m = (m, unmarshal_map-marshal_map m)

abbrev pub acme : Identity
acme = record { subject_id = "ann"; tenant_id = "acme"; roles = "writer" ∷ [] }

abbrev pub globex : Identity
globex = record { subject_id = "bob"; tenant_id = "globex"; roles = [] }

abbrev pub as_acme : Context
as_acme = record { value = some acme }

abbrev pub order : String → String → ℕ → Row
order id tenant version = record {
  id = id;
  tenant_id = tenant;
  stream_id = "order:1";
  type = "order.created";
  source = "orders-svc";
  version = pos version;
  occurred_at = pos 7;
  payload = obj end;
  metadata = obj end;
}

abbrev pub order_event : String → String → ℕ → Event
order_event id tenant version = record {
  id = id;
  tenant_id = tenant;
  stream_id = "order:1";
  type = "order.created";
  source = "orders-svc";
  version = pos version;
  occurred_at = pos 7;
  payload = encoded (obj end);
  metadata = some [];
}

abbrev pub holding : List Row → Database
holding rows = record { rows = rows; fault = none; reply = none }

abbrev pub two_orders : List Row
two_orders = order "u1" "acme" 1 ∷ order "u2" "acme" 2 ∷ []

-- The second row is another tenant's.
abbrev pub shared_orders : List Row
shared_orders = order "u1" "acme" 1 ∷ order "u2" "globex" 2 ∷ order "u3" "acme" 3 ∷ []

none-IsWellFormed : IsWellFormed []
none-IsWellFormed s = tt

pub two_orders-IsWellFormed : IsWellFormed two_orders
two_orders-IsWellFormed =
    insert-IsWellFormed (order "u2" "acme" 2) (order "u1" "acme" 1 ∷ [])
      (insert-IsWellFormed (order "u1" "acme" 1) [] none-IsWellFormed refl) refl

pub shared_orders-IsWellFormed : IsWellFormed shared_orders
shared_orders-IsWellFormed =
    insert-IsWellFormed (order "u3" "acme" 3) (order "u1" "acme" 1 ∷ order "u2" "globex" 2 ∷ [])
      (insert-IsWellFormed (order "u2" "globex" 2) (order "u1" "acme" 1 ∷ [])
        (insert-IsWellFormed (order "u1" "acme" 1) [] none-IsWellFormed refl) refl)
      refl

-- A publisher that counts what it is given, and fails each time.
abbrev pub failing : Publisher ℕ
failing = record { publish = λ e n. (some (text "broker down"), n + 1) }

abbrev pub new_order : Ingest.Command
new_order = record {
  stream_id = "order:1";
  type = "order.created";
  source = "orders-svc";
  payload = encoded (obj end);
  metadata = none;
}
