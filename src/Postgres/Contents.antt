-- ===== src/Postgres/Contents.antt =====
-- What the row of an event holds.
use mathlib.Core.Path.{subst}
use mathlib.Core.List.{Memᴰ}
use mathlib.Core.List.Memᴰ
use event_streaming_and_audi.Postgres.{Columns, Row, Database, row_of, values_for}
use event_streaming_and_audi.Event.{Event}
use event_streaming_and_audi.Event.Json.{Json, encoded, RawMessage, empty, malformed}
use event_streaming_and_audi.Errors.{ok}
use event_streaming_and_audi.Event.Metadata.{marshal_map, unmarshal_map, unmarshal_map-marshal_map}
use event_streaming_and_audi.Postgres.Queries.{IsRead}
use event_streaming_and_audi.Prelude.{◌≡◌, ◌∙◌, ap, refl, arith, List, ◌++◌, sym}

-- The row holds the event: each column has the event's field, as the column keeps it. The payload is
-- JSON, and the text of the metadata is one that unmarshals to the metadata.
pub record IsRowOf (c : Columns) (e : Event) (r : Row) : Type 0 where
  pub id : r.id ≡ e.id
  pub tenant_id : r.tenant_id ≡ e.tenant_id
  pub stream_id : r.stream_id ≡ e.stream_id
  pub type : r.type ≡ e.type
  pub source : r.source ≡ e.source
  pub version : r.version ≡ e.version
  pub occurred_at : r.occurred_at ≡ c.timestamptz e.occurred_at
  pub payload : Json
  pub payload_text : e.payload ≡ encoded payload
  pub payload_kept : r.payload ≡ c.jsonb payload
  pub metadata : Json
  pub metadata_text : unmarshal_map metadata ≡ ok e.metadata
  pub metadata_kept : r.metadata ≡ c.jsonb metadata

-- The values of an INSERT are those of the event, but for the version.
values_for-row_of :
    (c : Columns) (e : Event) (db : Database) (r : Row)
    → values_for c e db ≡ ok r
    → (j : Json) × (e.payload ≡ encoded j) × (r ≡ row_of c e r.version j)
unfolding values_for
values_for-row_of c e db r h = filled e.payload h
  where
    filled :
        (p : RawMessage)
        → values_for c (record e { payload = p }) db ≡ ok r
        → (j : Json) × (p ≡ encoded j) × (r ≡ row_of c e r.version j)
    filled empty h = ground arith
    filled (encoded j) h = (j, ground arith, ground arith)
    filled (malformed b) h = ground arith

-- The event that Append returns is the one that the row holds.
pub values_for-IsRowOf :
    (c : Columns) (e : Event) (db : Database) (r : Row)
    → values_for c e db ≡ ok r
    → IsRowOf c (record e { version = r.version }) r
values_for-IsRowOf c e db r h =
    let (j, text, row) = values_for-row_of c e db r h in
    record {
      id = ap (λ x. x.id) row;
      tenant_id = ap (λ x. x.tenant_id) row;
      stream_id = ap (λ x. x.stream_id) row;
      type = ap (λ x. x.type) row;
      source = ap (λ x. x.source) row;
      version = refl;
      occurred_at = ap (λ x. x.occurred_at) row;
      payload = j;
      payload_text = text;
      payload_kept = ap (λ x. x.payload) row;
      metadata = marshal_map e.metadata;
      metadata_text = unmarshal_map-marshal_map e.metadata;
      metadata_kept = ap (λ x. x.metadata) row;
    }

-- The event that is read from the row of an event: the same, but for what the columns do not keep of
-- the time, the payload and the metadata.
pub record IsKept (c : Columns) (e f : Event) : Type 0 where
  pub id : f.id ≡ e.id
  pub tenant_id : f.tenant_id ≡ e.tenant_id
  pub stream_id : f.stream_id ≡ e.stream_id
  pub type : f.type ≡ e.type
  pub source : f.source ≡ e.source
  pub version : f.version ≡ e.version
  pub occurred_at : f.occurred_at ≡ c.timestamptz e.occurred_at
  pub payload : Json
  pub payload_text : e.payload ≡ encoded payload
  pub payload_kept : f.payload ≡ encoded (c.jsonb payload)
  pub metadata : Json
  pub metadata_text : unmarshal_map metadata ≡ ok e.metadata
  pub metadata_kept : unmarshal_map (c.jsonb metadata) ≡ ok f.metadata

pub IsRead-IsKept :
    (c : Columns) (e f : Event) (r : Row) → IsRowOf c e r → IsRead r f → IsKept c e f
IsRead-IsKept c e f r kept read = record {
  id = read.id ∙ kept.id;
  tenant_id = read.tenant_id ∙ kept.tenant_id;
  stream_id = read.stream_id ∙ kept.stream_id;
  type = read.type ∙ kept.type;
  source = read.source ∙ kept.source;
  version = read.version ∙ kept.version;
  occurred_at = read.occurred_at ∙ kept.occurred_at;
  payload = kept.payload;
  payload_text = kept.payload_text;
  payload_kept = read.payload ∙ ap encoded kept.payload_kept;
  metadata = kept.metadata;
  metadata_text = kept.metadata_text;
  metadata_kept = ap unmarshal_map (sym kept.metadata_kept) ∙ read.metadata;
}

-- The event is in the table.
abbrev pub IsStored : Columns → List Row → Event → Type 0
IsStored c rows e = (r : Row) × Memᴰ r rows × IsRowOf c e r

-- Rows are added at the end and never changed.
abbrev pub Extends : List Row → List Row → Type 0
Extends rows rows' = (more : List Row) × (rows' ≡ rows ++ more)

pub IsStored-Extends :
    (c : Columns) (rows rows' : List Row) (e : Event)
    → Extends rows rows'
    → IsStored c rows e
    → IsStored c rows' e
IsStored-Extends c rows rows' e (more, split) (r, m, kept) =
    (r, subst (Memᴰ r) (sym split) (Memᴰ.append_left more m), kept)
