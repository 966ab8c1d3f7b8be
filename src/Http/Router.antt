-- ===== src/Http/Router.antt =====
-- The routes of NewRouter and the middleware of middleware/auth.go. chi's matching of a request to a
-- route, and its own middleware, are not modelled.
use event_streaming_and_audi.Authenticator.{Authenticator}
use event_streaming_and_audi.Event.{Time, Store, Publisher, Searcher, Uuid}
use event_streaming_and_audi.Http.Dto.{Response, literal}
use event_streaming_and_audi.Prelude.{String, Option}
use event_streaming_and_audi.Request.{Request}
use event_streaming_and_audi.Event.Json.{Json}
use event_streaming_and_audi.Auth.{Issuer, with_identity, Identity}
use event_streaming_and_audi.Http.Handler.{
  handle_health, auth_token, auth_issue, create_tenant, handle_ingest, list_events, get_by_stream,
  write_error,
}
use event_streaming_and_audi.Errors.{err, ok, Result}

-- Auth: the handler runs with the identity in the context, or the answer is 401.
abbrev pub admit : {R : Type 0} → Result Identity → (Response → R) → (Request → R) → Request → R
admit (err x) refuse next r = refuse (write_error 401 (literal "unauthorized"))
admit (ok i) refuse next r = next (record r { context = with_identity r.context i })

unfoldable pub auth :
    {R : Type 0} → Authenticator → Time → (Response → R) → (Request → R) → Request → R
auth a now refuse next r = admit (a.authenticate now r) refuse next r

pub data Route : Type 0 where
  get_health post_auth_token post_auth_issue post_tenants : Route
  post_events list_events_route get_stream_route : Route

module _ {S P Q : Type 0} (format : Time → String) (through_any : Json → Option Json)
    (store : Store S) (publisher : Publisher P) (searcher : Searcher Q) (a : Authenticator)
    (issuer : Option Issuer) (admin_key : String) where
  -- A request on a route; the search index is only read.
  unfoldable pub serve : Route → Uuid → Time → Request → Q → S → P → Response × S × P
  serve get_health id now r q s p = (handle_health, s, p)
  serve post_auth_token id now r q s p = (auth_token a now r, s, p)
  serve post_auth_issue id now r q s p =
      (auth a now (λ w. w) (λ r'. auth_issue format issuer now r') r, s, p)
  serve post_tenants id now r q s p = (create_tenant format admin_key issuer now r, s, p)
  serve post_events id now r q s p =
      auth a now (λ w. (w, s, p)) (λ r'. handle_ingest through_any store publisher id now r' s p) r
  serve list_events_route id now r q s p =
      (auth a now (λ w. w) (λ r'. list_events searcher r' q) r, s, p)
  serve get_stream_route id now r q s p =
      (auth a now (λ w. w) (λ r'. get_by_stream searcher r' q) r, s, p)
