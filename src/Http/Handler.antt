-- ===== src/Http/Handler.antt =====
-- handler.go. `format` is Time.Format(time.RFC3339), and `through_any` is what becomes of a
-- JSON value that is decoded into an interface{} and written again (Http/Decode).
pub mod Lifetimes
use event_streaming_and_audi.Prelude.{
  List, ℕ, ℤ, String, pos, int64_scale, Option, ◌*◌, if◌then◌else◌, [], ◌∷◌, some, ◌++◌, leb_ℤ,
  ltb_ℤ, ◌==◌, atoi, none, ◌||◌, map,
}
use event_streaming_and_audi.Request.{Request}
use event_streaming_and_audi.Event.{Event, Time, Searcher, Store, Publisher, Uuid}
use event_streaming_and_audi.Errors.{Result, err, ok}
use event_streaming_and_audi.Authenticator.{Authenticator}
use event_streaming_and_audi.Event.Json.{Json, encoded}
use event_streaming_and_audi.Http.Dto.{
  EventResponse, Response, Body, ErrorMessage, CreateTenantRequest, error, health, literal, tenant,
  error_text, IngestRequest, token, issued, listing, results, event,
}
use event_streaming_and_audi.Auth.{Identity, IssuedToken, Issuer, identity_from_context, Context}
use event_streaming_and_audi.Query.{ListResult, QueryResult, list_all, query_by_stream}
use event_streaming_and_audi.Http.Decode.{decode_create_tenant, decode_ingest, decode_issue}
use event_streaming_and_audi.Ingest.{ingest, Command}

-- writeJSON and writeError
unfoldable pub write_json : List (String × String) → ℕ → Body → Response
write_json headers status body = record {
  status = status;
  headers = headers ++ ("Content-Type", "application/json") ∷ [];
  body = body;
}

unfoldable pub write_error : ℕ → ErrorMessage → Response
write_error status msg = write_json [] status (error msg)

abbrev pub second : ℕ
second = 1000000000

abbrev pub hours : ℕ → ℤ
hours n = pos (n * (3600 * second))

-- time.Duration(n) * time.Second with its default and its maximum.
unfoldable pub lifetime : ℤ → ℤ → ℤ → ℤ
lifetime default max n =
    let d = int64_scale n second in
    let expires_in = if leb_ℤ d (pos 0) then default else d in
    if ltb_ℤ max expires_in then max else expires_in

-- parseIntParam
abbrev pub non_negative : ℤ → Option ℤ → ℤ
non_negative fallback none = fallback
non_negative fallback (some n) = if ltb_ℤ n (pos 0) then fallback else n

unfoldable pub parse_int_param : Request → String → ℤ → ℤ
parse_int_param r key fallback =
    let v = r.query key in if v == "" then fallback else non_negative fallback (atoi v)

unfoldable pub domain_to_event_response : Event → EventResponse
domain_to_event_response e = record {
  id = e.id;
  tenant_id = e.tenant_id;
  stream_id = e.stream_id;
  type = e.type;
  source = e.source;
  version = e.version;
  occurred_at = e.occurred_at;
  payload = e.payload;
  metadata = e.metadata;
}

unfoldable pub handle_health : Response
handle_health = write_json [] 200 (health "ok")

abbrev pub token_response : Result Identity → Response
token_response (err x) = write_error 401 (literal "unauthorized")
token_response (ok i) =
    write_json [] 200
      (token (record { subject_id = i.subject_id; tenant_id = i.tenant_id; roles = i.roles }))

-- authToken
unfoldable pub auth_token : Authenticator → Time → Request → Response
auth_token a now r = token_response (a.authenticate now r)

module _ (format : Time → String) where
  abbrev pub issued_response : Identity → Result IssuedToken → Response
  issued_response i (err x) = write_error 500 (literal "failed to issue token")
  issued_response i (ok t) = write_json [] 200 (
      issued (record {
        token = t.token;
        expires_at = format t.expires_at;
        subject_id = i.subject_id;
        tenant_id = i.tenant_id;
      }))

  abbrev pub issue_for : Issuer → Option Identity → Time → Request → Response
  issue_for issuer none now r = write_error 401 (literal "unauthorized")
  issue_for issuer (some i) now r = issued_response i (
      issuer.issue now (record {
        identity = i;
        expires_in = lifetime (hours 1) (hours 24) (decode_issue r.body).expires_in;
      }))

  -- authIssue
  unfoldable pub auth_issue : Option Issuer → Time → Request → Response
  auth_issue none now r =
      write_error 501
        (literal "token issuance is not configured — set AUTH_JWT_SECRET on the server")
  auth_issue (some issuer) now r = issue_for issuer (identity_from_context r.context) now r

  -- `if len(req.Roles) == 0`
  abbrev pub or_default_roles : List String → List String
  or_default_roles [] = "writer" ∷ "reader" ∷ []
  or_default_roles (r ∷ rs) = r ∷ rs

  abbrev pub tenant_response : CreateTenantRequest → Result IssuedToken → Response
  tenant_response req (err x) = write_error 500 (literal "failed to issue token")
  tenant_response req (ok t) = write_json [] 201 (
      tenant (record {
        tenant_id = req.tenant_id;
        subject_id = req.subject_id;
        mode = "jwt";
        token = t.token;
        expires_at = format t.expires_at;
        note = "";
      }))

  -- The credentials for a request that names a tenant and a subject.
  unfoldable pub provision : Option Issuer → Time → CreateTenantRequest → Response
  provision none now req = write_json [] 201 (
      tenant (record {
        tenant_id = "default";
        subject_id = req.subject_id;
        mode = "simple";
        token = "";
        expires_at = "";
        note = "simple mode is single-tenant — use X-API-Key: <AUTH_API_KEY> for all requests";
      }))
  provision (some issuer) now req = tenant_response req (
      issuer.issue now (record {
        identity = record {
          subject_id = req.subject_id;
          tenant_id = req.tenant_id;
          roles = or_default_roles req.roles;
        };
        expires_in = lifetime (hours 24) (hours 720) req.expires_in;
      }))

  abbrev pub provision_decoded : Option Issuer → Time → Result CreateTenantRequest → Response
  provision_decoded issuer now (err x) = write_error 400 (literal "invalid request body")
  provision_decoded issuer now (ok req) =
      if req.tenant_id == "" || req.subject_id == ""
      then write_error 400 (literal "tenant_id and subject_id are required")
      else provision issuer now req

  -- createTenant
  unfoldable pub create_tenant : String → Option Issuer → Time → Request → Response
  create_tenant admin_key issuer now r =
      if r.header "X-Admin-Key" == admin_key
      then provision_decoded issuer now (decode_create_tenant r.body)
      else write_error 401 (literal "invalid or missing X-Admin-Key")

abbrev pub read_model_headers : List (String × String)
read_model_headers = ("X-Read-Model", "elasticsearch") ∷ ("X-Data-Consistency", "eventual") ∷ []

module _ {Q : Type 0} (searcher : Searcher Q) where
  abbrev pub listing_response : Result ListResult → Response
  listing_response (err x) = write_error 500 (literal "query failed")
  listing_response (ok l) = write_json read_model_headers 200 (
      listing (record {
        events = map domain_to_event_response l.events;
        total = l.total;
        limit = l.limit;
        offset = l.offset;
        read_model = l.read_model;
      }))

  -- listEvents
  unfoldable pub list_events : Request → Q → Response
  list_events r q = listing_response (
      list_all searcher r.context
        (record {
          limit = parse_int_param r "limit" (pos 20);
          offset = parse_int_param r "offset" (pos 0);
        })
        q)

  abbrev pub results_response : Result QueryResult → Response
  results_response (err x) = write_error 500 (literal "query failed")
  results_response (ok l) = write_json read_model_headers 200 (
      results (record {
        stream_id = l.stream_id;
        events = map domain_to_event_response l.events;
        total = l.total;
        limit = l.limit;
        offset = l.offset;
        read_model = l.read_model;
      }))

  -- getByStream
  unfoldable pub get_by_stream : Request → Q → Response
  get_by_stream r q =
      if r.stream_id == ""
      then write_error 400 (literal "stream_id is required")
      else results_response (
          query_by_stream searcher r.context
            (record {
              stream_id = r.stream_id;
              limit = parse_int_param r "limit" (pos 20);
              offset = parse_int_param r "offset" (pos 0);
            })
            q)

module _ {S P : Type 0} (through_any : Json → Option Json) (store : Store S)
    (publisher : Publisher P) where
  abbrev pub ingest_response : Result Event × S × P → Response × S × P
  ingest_response (err x, s, p) = (write_error 422 (error_text x), s, p)
  ingest_response (ok e, s, p) = (write_json [] 201 (event e), s, p)

  abbrev pub command_of : IngestRequest → Command
  command_of req = record {
    stream_id = req.stream_id;
    type = req.type;
    source = req.source;
    payload = encoded req.payload;
    metadata = req.metadata;
  }

  abbrev pub ingest_decoded :
      Uuid → Time → Context → Result IngestRequest → S → P → Response × S × P
  ingest_decoded id now ctx (err x) s p = (write_error 400 (literal "invalid request body"), s, p)
  ingest_decoded id now ctx (ok req) s p =
      ingest_response (ingest store publisher id now ctx (command_of req) s p)

  -- ingest
  unfoldable pub handle_ingest : Uuid → Time → Request → S → P → Response × S × P
  handle_ingest id now r s p =
      ingest_decoded id now r.context (decode_ingest through_any r.body) s p
