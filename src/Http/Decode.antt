-- ===== src/Http/Decode.antt =====
-- json.NewDecoder(r.Body).Decode into the request DTOs. A key fits a field if the two are equal up to
-- folding. A value of the wrong type leaves the field as it is and is an error;
-- null leaves a text, a number or a slice of none.
use event_streaming_and_audi.Prelude.{
  Bool, String, ℤ, Option, List, true, none, [], atoi, false, ◌||◌, if◌then◌else◌, some, equal_fold,
  pos, ◌∷◌,
}
use event_streaming_and_audi.Event.Json.{
  Json, Items, Fields, RawMessage, str, num, arr, field, obj, encoded, null, cons, malformed, end,
  nil, empty,
}
use event_streaming_and_audi.Event.{StringMap, or_empty}
use event_streaming_and_audi.Errors.{Error, text, Result, err, ok}
use event_streaming_and_audi.Http.Dto.{IssueTokenRequest, IngestRequest, CreateTenantRequest}
use event_streaming_and_audi.Event.Metadata.{map_of}
use event_streaming_and_audi.Config.{assign}

-- Of a field: the value so far, and whether a value of the wrong type was met.
abbrev pub Field : Type 0 → Type 0
Field A = A × Bool

abbrev set_text : Field String → Json → Field String
set_text (a, bad) (str s) = (s, bad)
set_text (a, bad) null = (a, bad)
set_text (a, bad) _ = (a, true)

abbrev or_bad : Field ℤ → Option ℤ → Field ℤ
or_bad (a, bad) none = (a, true)
or_bad (a, bad) (some n) = (n, bad)

abbrev set_int : Field ℤ → Json → Field ℤ
set_int f (num s) = or_bad f (atoi s)
set_int f null = f
set_int (a, bad) _ = (a, true)

-- `through_any` is what json.Marshal writes for the value that Decode makes of a JSON value in an
-- interface{} (numbers pass through float64, keys are sorted); `none` is the error of a number out of
-- the range of float64. The field holds what will be written.
abbrev set_any : (Json → Option Json) → Field Json → Json → Field Json
set_any through_any (a, bad) j = elim (through_any j) [ some k ↦ (k, bad) | none ↦ (a, true) ]

unfoldable pub merge : StringMap → StringMap → StringMap
merge m [] = m
merge m ((k, v) ∷ more) = merge (assign k v m) more

abbrev set_map : Field (Option StringMap) → Json → Field (Option StringMap)
set_map (a, bad) null = (none, bad)
set_map (a, bad) (obj fs) = elim (map_of fs) [
  | err x ↦ (a, true)
  | ok m ↦ (some (merge (or_empty a) m), bad)
]
set_map (a, bad) _ = (a, true)

-- The elements of a []string.
unfoldable pub texts_of : Items → Field (List String)
texts_of nil = ([], false)
texts_of (cons j js) =
    let (s, bad) = set_text ("", false) j in
    let (rest, worse) = texts_of js in (s ∷ rest, bad || worse)

abbrev set_texts : Field (List String) → Json → Field (List String)
set_texts (a, bad) (arr js) = let (l, worse) = texts_of js in (l, bad || worse)
set_texts (a, bad) null = ([], bad)
set_texts (a, bad) _ = (a, true)

-- A field of an object: every value whose key fits is set, in order.
unfoldable pub decode_field :
    {A : Type 0} → (Field A → Json → Field A) → String → Field A → Fields → Field A
decode_field set name f end = f
decode_field set name f (field k v fs) =
    decode_field set name (if equal_fold k name then set f v else f) fs

abbrev mismatch : Error
mismatch = text "json: cannot unmarshal value into Go struct field"

abbrev pub ok_unless : {A : Type 0} → Bool → A → Result A
ok_unless true a = err mismatch
ok_unless false a = ok a

unfoldable pub ingest_request_of : (Json → Option Json) → Fields → Result IngestRequest
ingest_request_of through_any fs =
    let (stream_id, b1) = decode_field set_text "stream_id" ("", false) fs in
    let (type, b2) = decode_field set_text "type" ("", false) fs in
    let (source, b3) = decode_field set_text "source" ("", false) fs in
    let (payload, b4) = decode_field (set_any through_any) "payload" (null, false) fs in
    let (metadata, b5) = decode_field set_map "metadata" (none, false) fs in
    ok_unless (b1 || b2 || b3 || b4 || b5) (record {
      stream_id = stream_id;
      type = type;
      source = source;
      payload = payload;
      metadata = metadata;
    })

unfoldable pub create_tenant_request_of : Fields → Result CreateTenantRequest
create_tenant_request_of fs =
    let (tenant_id, b1) = decode_field set_text "tenant_id" ("", false) fs in
    let (subject_id, b2) = decode_field set_text "subject_id" ("", false) fs in
    let (roles, b3) = decode_field set_texts "roles" ([], false) fs in
    let (expires_in, b4) = decode_field set_int "expires_in" (pos 0, false) fs in
    ok_unless (b1 || b2 || b3 || b4) (record {
      tenant_id = tenant_id;
      subject_id = subject_id;
      roles = roles;
      expires_in = expires_in;
    })

-- Decode: a body with no bytes is io.EOF, null leaves the zero value, and only an object has fields.
unfoldable pub decode_ingest : (Json → Option Json) → RawMessage → Result IngestRequest
decode_ingest through_any empty = err (text "EOF")
decode_ingest through_any (malformed b) = err (text b)
decode_ingest through_any (encoded null) = ingest_request_of through_any end
decode_ingest through_any (encoded (obj fs)) = ingest_request_of through_any fs
decode_ingest through_any (encoded _) = err mismatch

unfoldable pub decode_create_tenant : RawMessage → Result CreateTenantRequest
decode_create_tenant empty = err (text "EOF")
decode_create_tenant (malformed b) = err (text b)
decode_create_tenant (encoded null) = create_tenant_request_of end
decode_create_tenant (encoded (obj fs)) = create_tenant_request_of fs
decode_create_tenant (encoded _) = err mismatch

-- The error is ignored here, so that what was set stays.
unfoldable pub decode_issue : RawMessage → IssueTokenRequest
decode_issue (encoded (obj fs)) = record {
  expires_in = (decode_field set_int "expires_in" (pos 0, false) fs).0;
}
decode_issue _ = record { expires_in = pos 0 }
