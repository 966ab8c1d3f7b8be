-- ===== src/Http/Guarded.antt =====
-- A request without the credentials of its route.
use event_streaming_and_audi.Http.Router.{
  Route, serve, auth, admit, get_health, post_auth_token, post_auth_issue, post_tenants,
  post_events, list_events_route, get_stream_route,
}
use event_streaming_and_audi.Http.Handler.{
  write_error, write_json, auth_token, token_response, create_tenant,
}
use event_streaming_and_audi.Http.Dto.{Response, literal}
use event_streaming_and_audi.Request.{Request}
use event_streaming_and_audi.Authenticator.{Authenticator}
use event_streaming_and_audi.Auth.{Issuer, Identity}
use event_streaming_and_audi.Errors.{Error, err, ok, Result}
use event_streaming_and_audi.Event.{Time, Uuid, Store, Publisher, Searcher}
use event_streaming_and_audi.Event.Json.{Json}
use event_streaming_and_audi.Prelude.{◌≡◌, String, ◌≢◌, Option, refl, ap, arith, eq_iff}

abbrev pub Refuses : Authenticator → Time → Request → Type 0
Refuses a now r = (x : Error) × (a.authenticate now r ≡ err x)

-- The health check wants no credentials, /tenants the admin key, and the others those of AUTH_MODE.
abbrev pub IsDenied : Authenticator → String → Time → Request → Route → Type 0
IsDenied a admin_key now r get_health = ⊥
IsDenied a admin_key now r post_auth_token = Refuses a now r
IsDenied a admin_key now r post_auth_issue = Refuses a now r
IsDenied a admin_key now r post_tenants = r.header "X-Admin-Key" ≢ admin_key
IsDenied a admin_key now r post_events = Refuses a now r
IsDenied a admin_key now r list_events_route = Refuses a now r
IsDenied a admin_key now r get_stream_route = Refuses a now r

admit-refused :
    {R : Type 0} (o : Result Identity) (refuse : Response → R) (next : Request → R) (r : Request)
    → ((x : Error) × (o ≡ err x))
    → admit o refuse next r ≡ refuse (write_error 401 (literal "unauthorized"))
admit-refused (ok i) refuse next r (x, h) = cc
admit-refused (err y) refuse next r h = refl

token_response-refused :
    (o : Result Identity)
    → ((x : Error) × (o ≡ err x))
    → token_response o ≡ write_error 401 (literal "unauthorized")
token_response-refused (ok i) (x, h) = cc
token_response-refused (err y) h = refl

module _ {S P Q : Type 0} (format : Time → String) (through_any : Json → Option Json)
    (store : Store S) (publisher : Publisher P) (searcher : Searcher Q) (a : Authenticator)
    (issuer : Option Issuer) (admin_key : String) where
  -- A request without the credentials of its route is answered by 401, and the store and the
  -- publisher are not touched.
  pub serve-denied :
      (route : Route) (id : Uuid) (now : Time) (r : Request) (q : Q) (s : S) (p : P)
      → IsDenied a admin_key now r route
      → ((serve format through_any store publisher searcher a issuer admin_key route id now r q s
            p).0.status
          ≡ 401)
        × ((serve format through_any store publisher searcher a issuer admin_key route id now r q s
              p).1
            ≡ s)
        × ((serve format through_any store publisher searcher a issuer admin_key route id now r q s
              p).2
            ≡ p)
  unfolding serve auth auth_token create_tenant write_error write_json
  serve-denied get_health id now r q s p h = absurd h
  serve-denied post_auth_token id now r q s p h =
      (ap (λ w. w.status) (token_response-refused _ h), refl, refl)
  serve-denied post_auth_issue id now r q s p h =
      (ap (λ w. w.status) (admit-refused _ (λ w. w) _ r h), refl, refl)
  serve-denied post_tenants id now r q s p h =
      (ground (arith, eq_iff (r.header "X-Admin-Key") admin_key), refl, refl)
  serve-denied post_events id now r q s p h = (
    ap (λ (w : Response × S × P). w.0.status) (admit-refused _ (λ w. (w, s, p)) _ r h),
    ap (λ (w : Response × S × P). w.1) (admit-refused _ (λ w. (w, s, p)) _ r h),
    ap (λ (w : Response × S × P). w.2) (admit-refused _ (λ w. (w, s, p)) _ r h),
  )
  serve-denied list_events_route id now r q s p h =
      (ap (λ w. w.status) (admit-refused _ (λ w. w) _ r h), refl, refl)
  serve-denied get_stream_route id now r q s p h =
      (ap (λ w. w.status) (admit-refused _ (λ w. w) _ r h), refl, refl)
