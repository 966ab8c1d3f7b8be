-- ===== src/Http/Documented.antt =====
-- The answers of all routes, as the comments of the handlers promise them.
use event_streaming_and_audi.Event.{Time, Store, Publisher, Searcher, Uuid}
use event_streaming_and_audi.Prelude.{String, Option, pos, refl}
use event_streaming_and_audi.Event.Json.{Json}
use event_streaming_and_audi.Authenticator.{Authenticator}
use event_streaming_and_audi.Auth.{Issuer}
use event_streaming_and_audi.Http.Router.{
  Route, serve, auth, get_health, post_auth_token, post_auth_issue, post_tenants, post_events,
  list_events_route, get_stream_route,
}
use event_streaming_and_audi.Request.{Request}
use event_streaming_and_audi.Http.Handler.{
  auth_token, list_events, handle_health, write_json, write_error, parse_int_param,
}
use event_streaming_and_audi.Http.Dto.{Response}
use event_streaming_and_audi.Http.Statuses.{
  IsDocumented, IsKept, token_response-IsDocumented, admit-IsDocumented, auth_issue-IsDocumented,
  create_tenant-IsDocumented, admitted-IsDocumented, listing_response-IsDocumented,
  get_by_stream-IsDocumented,
}
use event_streaming_and_audi.Query.{list_all}

module _ {S P Q : Type 0} (format : Time → String) (through_any : Json → Option Json)
    (store : Store S) (publisher : Publisher P) (searcher : Searcher Q) (a : Authenticator)
    (issuer : Option Issuer) (admin_key : String) where
  abbrev pub answered : Route → Uuid → Time → Request → Q → S → P → Response × S × P
  answered = serve format through_any store publisher searcher a issuer admin_key

  -- Whatever the authenticator, the issuer, the store, the publisher and the index answer: every
  -- route answers with a status that its comment documents, and only POST /events touches the store
  -- or the publisher.
  pub serve-IsDocumented :
      (route : Route) (id : Uuid) (now : Time) (r : Request) (q : Q) (s : S) (p : P)
      → IsDocumented route (answered route id now r q s p).0
        × IsKept route (s, p) ((answered route id now r q s p).1, (answered route id now r q s p).2)
  unfolding serve auth auth_token list_events handle_health write_json write_error
  serve-IsDocumented get_health id now r q s p = (refl, refl)
  serve-IsDocumented post_auth_token id now r q s p =
      (token_response-IsDocumented (a.authenticate now r), refl)
  serve-IsDocumented post_auth_issue id now r q s p = (
    admit-IsDocumented post_auth_issue (a.authenticate now r) _ r refl
        (λ r'. auth_issue-IsDocumented format issuer now r'),
    refl,
  )
  serve-IsDocumented post_tenants id now r q s p =
      (create_tenant-IsDocumented format admin_key issuer now r, refl)
  serve-IsDocumented post_events id now r q s p =
      (admitted-IsDocumented through_any store publisher (a.authenticate now r) id now r s p, tt)
  serve-IsDocumented list_events_route id now r q s p = (
    admit-IsDocumented list_events_route (a.authenticate now r) _ r refl (λ r'.
        listing_response-IsDocumented searcher (
          list_all searcher r'.context
            (record {
              limit = parse_int_param r' "limit" (pos 20);
              offset = parse_int_param r' "offset" (pos 0);
            })
            q)),
    refl,
  )
  serve-IsDocumented get_stream_route id now r q s p = (
    admit-IsDocumented get_stream_route (a.authenticate now r) _ r refl
        (λ r'. get_by_stream-IsDocumented searcher r' q),
    refl,
  )
