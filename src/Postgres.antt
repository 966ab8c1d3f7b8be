-- ===== src/Postgres.antt =====
-- internal/infrastructure/postgres/store.go. The SQL statements that the source holds are read as
-- functions on the table `events`; what PostgreSQL does by itself is a parameter or a field.
pub mod Versions
pub mod Appends
pub mod Contents
pub mod Unique
pub mod Fresh
pub mod Concurrent
pub mod Queries
pub mod Streams
pub mod Connect
use event_streaming_and_audi.Prelude.{
  ℤ, pos, succ_ℤ, leb_ℤ, int_beq, two63, String, Bool, true, false, ◌&&◌, ◌||◌, not, ◌==◌,
  if◌then◌else◌, Option, none, some, List, [], ◌∷◌, ◌++◌, select,
}
use event_streaming_and_audi.Errors.{Error, Result, ok, err, text, ◌>>=◌, ◌>>◌, wrap}
use event_streaming_and_audi.Auth.{Context, Identity, identity_from_context, tenant_identity}
use event_streaming_and_audi.Event.{Event, Uuid, Time, Store, StringMap}
use event_streaming_and_audi.Event.Json.{Json, RawMessage, empty, encoded, malformed}
use event_streaming_and_audi.Event.Metadata.{marshal_map, unmarshal_map}

-- A row of the table `events` (created_at is written by the database and never read).
pub record Row : Type 0 where
  pub id : Uuid
  pub tenant_id : String
  pub stream_id : String
  pub type : String
  pub source : String
  pub version : ℤ
  pub occurred_at : Time
  pub payload : Json
  pub metadata : Json

-- `fault` is an error that every statement meets at present: the connection is lost, the context is
-- cancelled, or a text holds a byte that PostgreSQL refuses.
-- `reply` is an error that the answer of a statement meets after the statement was committed: the
-- connection is lost, or the context cancelled, in between.
pub record Database : Type 0 where
  pub rows : List Row
  pub fault : Option Error
  pub reply : Option Error

-- What a column of type JSONB or TIMESTAMPTZ keeps of the value that is written to it.
pub record Columns : Type 0 where
  pub jsonb : Json → Json
  pub timestamptz : Time → Time

abbrev pub of_stream : String → Row → Bool
of_stream stream_id r = r.stream_id == stream_id

abbrev pub larger : ℤ → Option ℤ → ℤ
larger v none = v
larger v (some w) = if leb_ℤ w v then v else w

-- SELECT MAX(version) over the rows; `none` is NULL.
unfoldable pub max_version : List Row → Option ℤ
max_version [] = none
max_version (r ∷ rs) = some (larger r.version (max_version rs))

abbrev pub coalesce : Option ℤ → ℤ → ℤ
coalesce none d = d
coalesce (some v) d = v

-- SELECT COALESCE(MAX(version), 0) + 1 FROM events WHERE stream_id = …; a BIGINT does not wrap.
unfoldable pub next_version : String → List Row → Result ℤ
next_version stream_id rows =
    let v = succ_ℤ (coalesce (max_version (select (of_stream stream_id) rows)) (pos 0)) in
    if leb_ℤ (pos two63) v then err (text "bigint out of range") else ok v

-- The PRIMARY KEY and the UNIQUE (stream_id, version) of the table.
unfoldable pub clashes : Row → List Row → Bool
clashes r [] = false
clashes r (q ∷ qs) =
    q.id == r.id || (q.stream_id == r.stream_id && int_beq q.version r.version) || clashes r qs

unfoldable pub insert_row : Row → List Row → Result (List Row)
unfolding clashes
insert_row r rows =
    if clashes r rows
    then err (text "duplicate key value violates unique constraint")
    else ok (rows ++ r ∷ [])

-- The payload column is NOT NULL, and its text must be JSON.
abbrev pub payload_column : RawMessage → Result Json
payload_column empty = err (text "null value in column \"payload\"")
payload_column (encoded j) = ok j
payload_column (malformed b) = err (text "invalid input syntax for type json")

abbrev pub check_fault : Option Error → Result (Unit {0})
check_fault none = ok tt
check_fault (some e) = err e

abbrev pub row_of : Columns → Event → ℤ → Json → Row
row_of c e v payload = record {
  id = e.id;
  tenant_id = e.tenant_id;
  stream_id = e.stream_id;
  type = e.type;
  source = e.source;
  version = v;
  occurred_at = c.timestamptz e.occurred_at;
  payload = c.jsonb payload;
  metadata = c.jsonb (marshal_map e.metadata);
}

-- The values of the INSERT, with the version that the subquery finds in its snapshot.
unfoldable pub values_for : Columns → Event → Database → Result Row
values_for c e db = do
  check_fault db.fault
  payload ← payload_column e.payload
  v ← next_version e.stream_id db.rows
  ok (row_of c e v payload)

-- RETURNING version and Scan(&e.Version).
abbrev pub returned_version : Event → Row → Option Error → Result Event
returned_version e r none = ok (record e { version = r.version })
returned_version e r (some x) = wrap "insert event" (err x)

abbrev pub inserted : Event → Database → Row → Result (List Row) → Result Event × Database
inserted e db r (ok rows) = (returned_version e r db.reply, record db { rows = rows })
inserted e db r (err x) = (wrap "insert event" (err x), db)

-- Append, when no other transaction runs between the subquery and the insertion.
unfoldable pub append : Columns → Event → Database → Result Event × Database
append c e db = elim (values_for c e db) [
  | ok r ↦ inserted e db r (insert_row r db.rows)
  | err x ↦ (wrap "insert event" (err x), db)
]

-- ORDER BY version ASC
unfoldable pub insert_by_version : Row → List Row → List Row
insert_by_version r [] = r ∷ []
insert_by_version r (q ∷ qs) =
    if leb_ℤ r.version q.version then r ∷ q ∷ qs else q ∷ insert_by_version r qs

unfoldable pub order_by_version : List Row → List Row
order_by_version [] = []
order_by_version (r ∷ rs) = insert_by_version r (order_by_version rs)

-- scanEvent: the event of a row, with the map that its metadata column holds.
abbrev pub event_of : Row → Option StringMap → Event
event_of r metadata = record {
  id = r.id;
  tenant_id = r.tenant_id;
  stream_id = r.stream_id;
  type = r.type;
  source = r.source;
  version = r.version;
  occurred_at = r.occurred_at;
  payload = encoded r.payload;
  metadata = metadata;
}

unfoldable pub scan_event : Row → Result Event
scan_event r = do
  metadata ← wrap "unmarshal metadata" (unmarshal_map r.metadata)
  ok (event_of r metadata)

-- scanRows; rows.Err() is the fault of the connection, met by the query already.
unfoldable pub scan_rows : List Row → Result (List Event)
scan_rows [] = ok []
scan_rows (r ∷ rs) = do e ← scan_event r; es ← scan_rows rs; ok (e ∷ es)

-- SELECT … FROM events WHERE … ORDER BY version ASC, and the scan of its rows.
unfoldable pub query_events : String → (Row → Bool) → Database → Result (List Event)
query_events what condition db = do
  wrap what (check_fault db.fault)
  scan_rows (order_by_version (select condition db.rows))

-- `hasIdentity && identity.TenantID != ""`
abbrev pub of_tenant : Option Identity → Row → Bool
of_tenant none r = true
of_tenant (some identity) r = r.tenant_id == identity.tenant_id

unfoldable pub get_by_stream_id : Context → String → Database → Result (List Event)
get_by_stream_id ctx stream_id db =
    query_events "query by stream" (λ r. of_stream stream_id r && of_tenant (tenant_identity ctx) r)
      db

abbrev pub from_version_condition : Option Identity → String → ℤ → Row → Bool
from_version_condition tenant stream_id from_version r =
    of_stream stream_id r && (leb_ℤ from_version r.version && of_tenant tenant r)

unfoldable pub get_from_version : Context → String → ℤ → Database → Result (List Event)
get_from_version ctx stream_id from_version db =
    query_events "query from version"
      (from_version_condition (tenant_identity ctx) stream_id from_version) db

unfoldable pub find_row : Uuid → List Row → Result Row
find_row id [] = err (text "no rows in result set")
find_row id (r ∷ rs) = if r.id == id then ok r else find_row id rs

unfoldable pub get_by_id : Uuid → Database → Result Event
get_by_id id db =
    wrap "get by id"
      do r ← wrap "scan event" (check_fault db.fault >>= λ _. find_row id db.rows); scan_event r

-- EventStore as the port event.Store.
unfoldable pub event_store : Columns → Store Database
event_store c = record {
  append = λ _ e db. append c e db;
  get_by_stream_id = get_by_stream_id;
  get_by_id = get_by_id;
  get_from_version = get_from_version;
}
