-- ===== src/Authenticator/Jwt/Tokens.antt =====
-- A token that the issuer signs, and the authenticator that is built with the same secret.
use event_streaming_and_audi.Authenticator.Jwt.{
  Library, Claims, Method, hmac, key_for, bearer_token, identity_of, authenticate_jwt, issue,
  claims_of, expiry_of,
}
use event_streaming_and_audi.Auth.{IssueCommand, IssuedToken}
use event_streaming_and_audi.Request.{Request}
use event_streaming_and_audi.Errors.{Result, ok}
use event_streaming_and_audi.Prelude.{String, ◌≢◌, ℤ, ◌≡◌, ltb_ℤ, arith, true, eq_iff, ◌+ℤ◌, refl}

-- golang-jwt: a signed token parses, before it expires, with a key function that gives the secret.
pub record Verifies (lib : Library) (secret : String) (c : Claims) : Type 0 where
  pub verified :
      (token : String) (key : Method → Result String) (now : ℤ)
      → lib.signed_string (hmac "HS256") c secret ≡ ok token
      → key (hmac "HS256") ≡ ok secret
      → ltb_ℤ now c.expires_at ≡ true
      → lib.parse_with_claims key token now ≡ ok (c, true)

identity_of-named :
    (c : Claims)
    → c.subject ≢ ""
    → c.tenant_id ≢ ""
    → identity_of c
      ≡ ok (record { subject_id = c.subject; tenant_id = c.tenant_id; roles = c.roles })
unfolding identity_of
identity_of-named c s t = ground (arith, eq_iff c.subject "", eq_iff c.tenant_id "")

signed-ok :
    (lib : Library) (secret : String) (now : ℤ) (cmd : IssueCommand) (t : IssuedToken)
    → issue lib secret now cmd ≡ ok t
    → lib.signed_string (hmac "HS256") (claims_of lib secret now cmd) secret ≡ ok t.token
unfolding issue
signed-ok lib secret now cmd t h = ground arith

-- With a library that verifies the token that it has signed: a caller who sends a token that was
-- issued for an identity with a subject and a tenant, before the second in which it expires, is
-- authenticated as this identity.
pub authenticate_jwt-issue :
    (lib : Library) (secret : String) (now later : ℤ) (cmd : IssueCommand) (t : IssuedToken)
    (r : Request)
    → Verifies lib secret (claims_of lib secret now cmd)
    → issue lib secret now cmd ≡ ok t
    → bearer_token (r.header "Authorization") ≡ ok t.token
    → ltb_ℤ later (lib.numeric_date (now +ℤ expiry_of cmd.expires_in)) ≡ true
    → cmd.identity.subject_id ≢ ""
    → cmd.identity.tenant_id ≢ ""
    → authenticate_jwt lib secret later r ≡ ok cmd.identity
unfolding authenticate_jwt key_for
authenticate_jwt-issue lib secret now later cmd t r lawful issued sent fresh subject tenant =
    let c : Claims = claims_of lib secret now cmd in
    let parsed : lib.parse_with_claims (key_for secret) t.token later ≡ ok (c, true) =
      lawful.verified t.token (key_for secret) later (signed-ok lib secret now cmd t issued) refl
        fresh in
    rw (sent, parsed) (identity_of-named c subject tenant)
