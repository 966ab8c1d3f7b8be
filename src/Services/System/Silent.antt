-- ===== src/Services/System/Silent.antt =====
-- The events in the body of an answer, and the handlers whose answers show none.
use event_streaming_and_audi.Prelude.{
  String, List, Option, none, some, Bool-cases, inl, inr, ◌≡◌, ◌==◌, ◌||◌, refl, [], ◌∷◌,
}
use event_streaming_and_audi.Authenticator.{Authenticator}
use event_streaming_and_audi.Auth.{Identity, IssuedToken, Issuer, identity_from_context}
use event_streaming_and_audi.Errors.{Result, ok, err}
use event_streaming_and_audi.Event.{Time}
use event_streaming_and_audi.Http.Decode.{decode_create_tenant}
use event_streaming_and_audi.Http.Dto.{
  Body, EventResponse, Response, CreateTenantRequest, health, error, token, issued, tenant, listing,
  results, event,
}
use event_streaming_and_audi.Http.Handler.{
  auth_token, token_response, auth_issue, issue_for, issued_response, create_tenant, provision,
  provision_decoded, tenant_response, write_error, write_json, domain_to_event_response,
}
use event_streaming_and_audi.Http.Router.{admit}
use event_streaming_and_audi.Request.{Request}

abbrev pub events_of : Body → List EventResponse
events_of (health s) = []
events_of (error m) = []
events_of (token t) = []
events_of (issued t) = []
events_of (tenant t) = []
events_of (listing l) = l.events
events_of (results l) = l.events
events_of (event e) = domain_to_event_response e ∷ []

abbrev pub ShowsNone : Response → Type 0
ShowsNone w = events_of w.body ≡ []

opened_writers : Unit {0}
unfolding write_json write_error
opened_writers = tt

token_response-ShowsNone : (o : Result Identity) → ShowsNone (token_response o)
unfolding opened_writers
token_response-ShowsNone (ok i) = refl
token_response-ShowsNone (err x) = refl

pub auth_token-ShowsNone :
    (a : Authenticator) (now : Time) (r : Request) → ShowsNone (auth_token a now r)
unfolding auth_token
auth_token-ShowsNone a now r = token_response-ShowsNone (a.authenticate now r)

pub admit-ShowsNone :
    (o : Result Identity) (next : Request → Response) (r : Request)
    → ((r' : Request) → ShowsNone (next r'))
    → ShowsNone (admit o (λ w. w) next r)
unfolding opened_writers
admit-ShowsNone (ok i) next r later = later _
admit-ShowsNone (err x) next r later = refl

module _ (format : Time → String) where
  issued_response-ShowsNone :
      (i : Identity) (o : Result IssuedToken) → ShowsNone (issued_response format i o)
  unfolding opened_writers
  issued_response-ShowsNone i (ok t) = refl
  issued_response-ShowsNone i (err x) = refl

  issue_for-ShowsNone :
      (issuer : Issuer) (o : Option Identity) (now : Time) (r : Request)
      → ShowsNone (issue_for format issuer o now r)
  unfolding opened_writers
  issue_for-ShowsNone issuer none now r = refl
  issue_for-ShowsNone issuer (some i) now r = issued_response-ShowsNone i _

  pub auth_issue-ShowsNone :
      (issuer : Option Issuer) (now : Time) (r : Request)
      → ShowsNone (auth_issue format issuer now r)
  unfolding auth_issue opened_writers
  auth_issue-ShowsNone none now r = refl
  auth_issue-ShowsNone (some issuer) now r =
      issue_for-ShowsNone issuer (identity_from_context r.context) now r

  tenant_response-ShowsNone :
      (req : CreateTenantRequest) (o : Result IssuedToken)
      → ShowsNone (tenant_response format req o)
  unfolding opened_writers
  tenant_response-ShowsNone req (ok t) = refl
  tenant_response-ShowsNone req (err x) = refl

  provision-ShowsNone :
      (issuer : Option Issuer) (now : Time) (req : CreateTenantRequest)
      → ShowsNone (provision format issuer now req)
  unfolding provision opened_writers
  provision-ShowsNone none now req = refl
  provision-ShowsNone (some issuer) now req = tenant_response-ShowsNone req _

  provision_decoded-ShowsNone :
      (issuer : Option Issuer) (now : Time) (o : Result CreateTenantRequest)
      → ShowsNone (provision_decoded format issuer now o)
  unfolding opened_writers
  provision_decoded-ShowsNone issuer now (err x) = refl
  provision_decoded-ShowsNone issuer now (ok req) =
      elim (Bool-cases (req.tenant_id == "" || req.subject_id == "")) [
        | inl missing ↦ rw missing refl
        | inr given ↦ rw given (provision-ShowsNone issuer now req)
      ]

  pub create_tenant-ShowsNone :
      (admin_key : String) (issuer : Option Issuer) (now : Time) (r : Request)
      → ShowsNone (create_tenant format admin_key issuer now r)
  unfolding create_tenant opened_writers
  create_tenant-ShowsNone admin_key issuer now r =
      elim (Bool-cases (r.header "X-Admin-Key" == admin_key)) [
        | inl known ↦
            rw known (provision_decoded-ShowsNone issuer now (decode_create_tenant r.body))
        | inr unknown ↦ rw unknown refl
      ]
