-- ===== src/Http/Statuses.antt =====
-- The statuses that the comments of the handlers promise (@Success and @Failure of each @Router), and
-- those of every handler.
use event_streaming_and_audi.Http.Router.{
  Route, post_auth_token, list_events_route, get_stream_route, post_events, admit, post_auth_issue,
  post_tenants, get_health,
}
use event_streaming_and_audi.Prelude.{
  ℕ, List, ◌≡◌, String, ◌∷◌, Bool, true, Option, [], false, Bool-cases, nat_beq, ◌==◌, some, ◌||◌,
  inl, none, refl, inr, pos,
}
use event_streaming_and_audi.Http.Handler.{
  write_json, write_error, get_by_stream, auth_issue, provision, create_tenant, token_response,
  listing_response, results_response, handle_ingest, issued_response, issue_for, tenant_response,
  provision_decoded, ingest_response, ingest_decoded, or_default_roles, lifetime, parse_int_param,
  command_of, hours,
}
use event_streaming_and_audi.Errors.{Result, ok, err}
use event_streaming_and_audi.Event.{Time, Searcher, Store, Publisher, Event, Uuid}
use event_streaming_and_audi.Event.Json.{Json}
use event_streaming_and_audi.Http.Dto.{Response, CreateTenantRequest, IngestRequest}
use event_streaming_and_audi.Auth.{
  Identity, IssuedToken, Issuer, Context, IssueCommand, identity_from_context, with_identity,
}
use event_streaming_and_audi.Query.{ListResult, QueryResult, Query, query_by_stream}
use event_streaming_and_audi.Request.{Request}
use event_streaming_and_audi.Http.Decode.{decode_create_tenant, decode_ingest, decode_issue}
use event_streaming_and_audi.Ingest.{ingest}

abbrev pub documented : Route → List ℕ
documented get_health = 200 ∷ []
documented post_auth_token = 200 ∷ 401 ∷ []
documented post_auth_issue = 200 ∷ 401 ∷ 501 ∷ 500 ∷ []
documented post_tenants = 201 ∷ 400 ∷ 401 ∷ 500 ∷ []
documented post_events = 201 ∷ 400 ∷ 401 ∷ 422 ∷ []
documented list_events_route = 200 ∷ 401 ∷ 500 ∷ []
documented get_stream_route = 200 ∷ 400 ∷ 401 ∷ 500 ∷ []

abbrev one_of : ℕ → List ℕ → Bool
one_of n [] = false
one_of n (m ∷ ms) = nat_beq n m || one_of n ms

abbrev pub IsDocumented : Route → Response → Type 0
IsDocumented route w = one_of w.status (documented route) ≡ true

-- Only POST /events may change the store or publish.
abbrev pub IsKept : Route → {S P : Type 0} → S × P → S × P → Type 0
IsKept post_events before after = Unit
IsKept get_health before after = after ≡ before
IsKept post_auth_token before after = after ≡ before
IsKept post_auth_issue before after = after ≡ before
IsKept post_tenants before after = after ≡ before
IsKept list_events_route before after = after ≡ before
IsKept get_stream_route before after = after ≡ before

opened_writers : Unit {0}
unfolding write_json write_error
opened_writers = tt

pub token_response-IsDocumented :
    (o : Result Identity) → IsDocumented post_auth_token (token_response o)
unfolding opened_writers
token_response-IsDocumented (ok i) = refl
token_response-IsDocumented (err x) = refl

-- A middleware that refuses with a documented 401.
pub admit-IsDocumented :
    (route : Route) (o : Result Identity) (next : Request → Response) (r : Request)
    → one_of 401 (documented route) ≡ true
    → ((r' : Request) → IsDocumented route (next r'))
    → IsDocumented route (admit o (λ w. w) next r)
unfolding opened_writers
admit-IsDocumented route (ok i) next r refused later = later _
admit-IsDocumented route (err x) next r refused later = refused

module _ (format : Time → String) where
  issued_response-IsDocumented :
      (i : Identity) (o : Result IssuedToken)
      → IsDocumented post_auth_issue (issued_response format i o)
  unfolding opened_writers
  issued_response-IsDocumented i (ok t) = refl
  issued_response-IsDocumented i (err x) = refl

  issue_for-IsDocumented :
      (issuer : Issuer) (o : Option Identity) (now : Time) (r : Request)
      → IsDocumented post_auth_issue (issue_for format issuer o now r)
  unfolding opened_writers
  issue_for-IsDocumented issuer none now r = refl
  issue_for-IsDocumented issuer (some i) now r =
      let cmd : IssueCommand = record {
        identity = i;
        expires_in = lifetime (hours 1) (hours 24) (decode_issue r.body).expires_in;
      } in
      issued_response-IsDocumented i (issuer.issue now cmd)

  pub auth_issue-IsDocumented :
      (issuer : Option Issuer) (now : Time) (r : Request)
      → IsDocumented post_auth_issue (auth_issue format issuer now r)
  unfolding opened_writers auth_issue
  auth_issue-IsDocumented none now r = refl
  auth_issue-IsDocumented (some issuer) now r =
      issue_for-IsDocumented issuer (identity_from_context r.context) now r

  tenant_response-IsDocumented :
      (req : CreateTenantRequest) (o : Result IssuedToken)
      → IsDocumented post_tenants (tenant_response format req o)
  unfolding opened_writers
  tenant_response-IsDocumented req (ok t) = refl
  tenant_response-IsDocumented req (err x) = refl

  provision-IsDocumented :
      (issuer : Option Issuer) (now : Time) (req : CreateTenantRequest)
      → IsDocumented post_tenants (provision format issuer now req)
  unfolding opened_writers provision
  provision-IsDocumented none now req = refl
  provision-IsDocumented (some issuer) now req =
      let i : Identity = record {
        subject_id = req.subject_id;
        tenant_id = req.tenant_id;
        roles = or_default_roles format req.roles;
      } in
      let cmd : IssueCommand = record {
        identity = i;
        expires_in = lifetime (hours 24) (hours 720) req.expires_in;
      } in
      tenant_response-IsDocumented req (issuer.issue now cmd)

  provision_decoded-IsDocumented :
      (issuer : Option Issuer) (now : Time) (o : Result CreateTenantRequest)
      → IsDocumented post_tenants (provision_decoded format issuer now o)
  unfolding opened_writers
  provision_decoded-IsDocumented issuer now (err x) = refl
  provision_decoded-IsDocumented issuer now (ok req) =
      elim (Bool-cases (req.tenant_id == "" || req.subject_id == "")) [
        | inl missing ↦ rw missing refl
        | inr given ↦ rw given (provision-IsDocumented issuer now req)
      ]

  pub create_tenant-IsDocumented :
      (admin_key : String) (issuer : Option Issuer) (now : Time) (r : Request)
      → IsDocumented post_tenants (create_tenant format admin_key issuer now r)
  unfolding opened_writers create_tenant
  create_tenant-IsDocumented admin_key issuer now r =
      elim (Bool-cases (r.header "X-Admin-Key" == admin_key)) [
        | inl admin ↦
            rw admin (provision_decoded-IsDocumented issuer now (decode_create_tenant r.body))
        | inr other ↦ rw other refl
      ]

module _ {Q : Type 0} (searcher : Searcher Q) where
  pub listing_response-IsDocumented :
      (o : Result ListResult) → IsDocumented list_events_route (listing_response searcher o)
  unfolding opened_writers
  listing_response-IsDocumented (ok l) = refl
  listing_response-IsDocumented (err x) = refl

  results_response-IsDocumented :
      (o : Result QueryResult) → IsDocumented get_stream_route (results_response searcher o)
  unfolding opened_writers
  results_response-IsDocumented (ok l) = refl
  results_response-IsDocumented (err x) = refl

  abbrev asked : Request → Query
  asked r = record {
    stream_id = r.stream_id;
    limit = parse_int_param r "limit" (pos 20);
    offset = parse_int_param r "offset" (pos 0);
  }

  pub get_by_stream-IsDocumented :
      (r : Request) (q : Q) → IsDocumented get_stream_route (get_by_stream searcher r q)
  unfolding opened_writers get_by_stream
  get_by_stream-IsDocumented r q = elim (Bool-cases (r.stream_id == "")) [
    | inl missing ↦ rw missing refl
    | inr given ↦
        rw given (results_response-IsDocumented (query_by_stream searcher r.context (asked r) q))
  ]

module _ {S P : Type 0} (through_any : Json → Option Json) (store : Store S)
    (publisher : Publisher P) where
  ingest_response-IsDocumented :
      (o : Result Event × S × P)
      → IsDocumented post_events (ingest_response through_any store publisher o).0
  unfolding opened_writers
  ingest_response-IsDocumented (ok e, s, p) = refl
  ingest_response-IsDocumented (err x, s, p) = refl

  ingest_decoded-IsDocumented :
      (id : Uuid) (now : Time) (ctx : Context) (o : Result IngestRequest) (s : S) (p : P)
      → IsDocumented post_events (ingest_decoded through_any store publisher id now ctx o s p).0
  unfolding opened_writers
  ingest_decoded-IsDocumented id now ctx (err x) s p = refl
  ingest_decoded-IsDocumented id now ctx (ok req) s p =
      ingest_response-IsDocumented
        (ingest store publisher id now ctx (command_of through_any store publisher req) s p)

  pub admitted-IsDocumented :
      (o : Result Identity) (id : Uuid) (now : Time) (r : Request) (s : S) (p : P)
      → IsDocumented post_events
          (admit o
            (λ w. (w, s, p))
            (λ r'. handle_ingest through_any store publisher id now r' s p)
            r).0
  unfolding opened_writers handle_ingest
  admitted-IsDocumented (err x) id now r s p = refl
  admitted-IsDocumented (ok i) id now r s p =
      ingest_decoded-IsDocumented id now (with_identity r.context i)
        (decode_ingest through_any r.body) s p
