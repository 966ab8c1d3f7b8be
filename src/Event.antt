-- ===== src/Event.antt =====
-- The domain entity and the outbound ports: internal/domain/event.
pub mod Json
pub mod Metadata
pub mod Wire
use event_streaming_and_audi.Prelude.{ℤ, pos, String, Bool, Option, none, some, List, []}
use event_streaming_and_audi.Errors.{Error, Result}
use event_streaming_and_audi.Auth.{Context}
use Json.{RawMessage}

-- The canonical text of a UUID, and nanoseconds since 1970 (UTC).
abbrev pub Uuid : Type 0
Uuid = String

abbrev pub Time : Type 0
Time = ℤ

-- A map[string]string: its entries, no key twice.
abbrev pub StringMap : Type 0
StringMap = List (String × String)

-- `metadata` is `none` for a nil map.
pub record Event : Type 0 where
  pub id : Uuid
  pub tenant_id : String
  pub stream_id : String
  pub type : String
  pub source : String
  pub version : ℤ
  pub occurred_at : Time
  pub payload : RawMessage
  pub metadata : Option StringMap

-- make(map[string]string) in place of a nil map.
abbrev pub or_empty : Option StringMap → StringMap
or_empty none = []
or_empty (some m) = m

-- New; the fresh UUID and the clock's reading are arguments.
unfoldable pub new : Uuid → Time → String → String → String → RawMessage → Option StringMap → Event
new id now stream_id event_type source payload metadata = record {
  id = id;
  tenant_id = "";
  stream_id = stream_id;
  type = event_type;
  source = source;
  version = pos 0;
  occurred_at = now;
  payload = payload;
  metadata = some (or_empty metadata);
}

-- The ports. An implementation has a state `S`, which each call may change. Append returns the event
-- with the version that the store has assigned.
pub record Store (S : Type 0) : Type 0 where
  pub append : Context → Event → S → Result Event × S
  pub get_by_stream_id : Context → String → S → Result (List Event)
  pub get_by_id : Uuid → S → Result Event
  pub get_from_version : Context → String → ℤ → S → Result (List Event)

pub record Publisher (S : Type 0) : Type 0 where
  pub publish : Event → S → Option Error × S

pub record Indexer (S : Type 0) : Type 0 where
  pub index : Event → S → Option Error × S

pub record SearchQuery : Type 0 where
  pub tenant_id : String
  pub stream_id : String
  pub limit : ℤ
  pub offset : ℤ
  pub sort_by_occurred_at_desc : Bool

-- `none` is a nil slice.
pub record Searcher (S : Type 0) : Type 0 where
  pub search : SearchQuery → S → Result (Option (List Event) × ℤ)
