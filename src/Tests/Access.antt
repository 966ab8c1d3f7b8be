-- ===== src/Tests/Access.antt =====
-- The authenticators, the routes and the replay-service.
use event_streaming_and_audi.Tests.Fixtures.{acme, plain, two_orders, holding, failing}
use event_streaming_and_audi.Errors.{Result, ok, err, text}
use event_streaming_and_audi.Request.{Request}
use event_streaming_and_audi.Authenticator.{Authenticator, authenticate_simple}
use event_streaming_and_audi.Authenticator.Jwt.{
  Library, Claims, hmac, claims_of, issue, bearer_token, authenticate_jwt, expiry_of,
}
use event_streaming_and_audi.Authenticator.Jwt.Tokens.{Verifies, authenticate_jwt-issue}
use event_streaming_and_audi.Auth.{background, IssueCommand, IssuedToken}
use event_streaming_and_audi.Event.{Searcher}
use event_streaming_and_audi.Event.Json.{empty, Fields}
use event_streaming_and_audi.Http.Router.{serve, post_events}
use event_streaming_and_audi.Http.Guarded.{serve-denied}
use event_streaming_and_audi.Postgres.{event_store, Database}
use event_streaming_and_audi.Services.{call_context}
use event_streaming_and_audi.Services.ReplayService.{handle_replay-refused}
use event_streaming_and_audi.Grpc.{handle_replay, failure, status, data_loss, invalid_argument}
use event_streaming_and_audi.Prelude.{
  if◌then◌else◌, ◌==◌, pos, ◌≡◌, String, ltb_ℤ, ℕ, none, ◌∷◌, Bool, ◌+ℤ◌, ◌≢◌, refl, [], true,
  arith, some, eq_iff, cut, equal_fold, int64_scale, wrap64,
}
use event_streaming_and_audi.Http.Dto.{Response}
use event_streaming_and_audi.Http.Handler.{lifetime}
use event_streaming_and_audi.Http.Handler.Lifetimes.{IsLifetime, lifetime-IsLifetime}

abbrev pub bare : Request
bare = record {
  header = λ name. if name == "Authorization" then "Bearer abc" else "";
  query = λ name. "";
  stream_id = "";
  body = empty;
  context = background;
}

abbrev pub simple : Authenticator
simple = record { authenticate = authenticate_simple "dev-api-key" }

abbrev pub no_index : Searcher (Unit {0})
no_index = record { search = λ q s. err (text "no index") }

keyless : simple.authenticate (pos 7) bare ≡ err (text "missing X-API-Key header")
unfolding authenticate_simple
keyless = refl

abbrev denied : Response × Database × ℕ
denied =
    serve (λ t. "") (λ j. some j) (event_store plain) failing no_index simple none "admin-secret"
      post_events "u3" (pos 7) bare tt (holding two_orders) 0

serve-denied_example : (denied.0.status ≡ 401) × (denied.1 ≡ holding two_orders) × (denied.2 ≡ 0)
serve-denied_example =
    serve-denied (λ t. "") (λ j. some j) (event_store plain) failing no_index simple none
      "admin-secret" post_events "u3" (pos 7) bare tt (holding two_orders) 0
      (text "missing X-API-Key header", keyless)

-- A library of one token, which stands for acme's claims.
abbrev for_acme : IssueCommand
for_acme = record { identity = acme; expires_in = pos 0 }

abbrev acme_claims : Claims
acme_claims = record {
  subject = "ann";
  expires_at = pos 3600000000007;
  issued_at = pos 7;
  tenant_id = "acme";
  roles = "writer" ∷ [];
}

abbrev parsed_with : Result String → Result (Claims × Bool)
parsed_with (ok key) = ok (acme_claims, true)
parsed_with (err x) = err x

abbrev pub one_token : Library
one_token = record {
  parse_with_claims = λ key token now. parsed_with (key (hmac "HS256"));
  signed_string = λ m c secret. ok "abc";
  numeric_date = λ t. t;
}

one_token-Verifies : Verifies one_token "s3cret" (claims_of one_token "s3cret" (pos 7) for_acme)
unfolding expiry_of
one_token-Verifies = record { verified = λ token key now signed given fresh. rw given refl }

abbrev acme_token : IssuedToken
acme_token = record { token = "abc"; expires_at = pos 3600000000007 }

opened_jwt : Unit {0}
unfolding expiry_of issue bearer_token cut equal_fold
opened_jwt = tt

acme_issued : issue one_token "s3cret" (pos 7) for_acme ≡ ok acme_token
unfolding opened_jwt
acme_issued = refl

acme_sent : bearer_token (bare.header "Authorization") ≡ ok "abc"
unfolding opened_jwt
acme_sent = refl

acme_fresh : ltb_ℤ (pos 9) (one_token.numeric_date (pos 7 +ℤ expiry_of (pos 0))) ≡ true
unfolding opened_jwt
acme_fresh = refl

authenticate_jwt-issue_example : authenticate_jwt one_token "s3cret" (pos 9) bare ≡ ok acme
authenticate_jwt-issue_example =
    authenticate_jwt-issue one_token "s3cret" (pos 7) (pos 9) for_acme acme_token bare
      one_token-Verifies acme_issued acme_sent acme_fresh named_ann named_acme
  where
    named_ann : ◌≢◌ {A = String} "ann" ""
    named_ann = ground (arith, eq_iff "ann" "")

    named_acme : ◌≢◌ {A = String} "acme" ""
    named_acme = ground (arith, eq_iff "acme" "")

abbrev any_struct : Fields → Result ℕ
any_struct fs = ok 0

handle_replay-refused_example :
    handle_replay any_struct
      (event_store plain)
      call_context
      (record { stream_id = "order:1"; from_version = pos 1 })
      (holding two_orders)
    ≡ failure (
        if "order:1" == ""
        then status invalid_argument "stream_id is required" none
        else status data_loss "replay failed"
            (some (text "unauthenticated: identity with tenant_id is required")))
handle_replay-refused_example =
    handle_replay-refused any_struct (event_store plain)
      (record { stream_id = "order:1"; from_version = pos 1 }) (holding two_orders)

-- 9223372037 seconds, some 292 years, wrap around to a negative number: the token lives for an hour.
wrapped_lifetime :
    lifetime (pos 3600000000000) (pos 86400000000000) (pos 9223372037) ≡ pos 3600000000000
unfolding lifetime int64_scale wrap64
wrapped_lifetime = refl

lifetime-IsLifetime_example :
    IsLifetime 86400000000000 (lifetime (pos 3600000000000) (pos 86400000000000) (pos 9223372037))
lifetime-IsLifetime_example =
    lifetime-IsLifetime 3600000000000 86400000000000 (pos 9223372037) (omega arith) (omega arith)
