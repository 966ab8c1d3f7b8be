-- ===== src/Authenticator/Jwt/Verified.antt =====
-- Whom authenticate_jwt admits.
-- golang-jwt asks the key function for the key of the method that the token's header names, and
-- refuses the token if there is none.
use event_streaming_and_audi.Authenticator.Jwt.{
  Library, key_for, Claims, Method, hmac, bearer_token,
}
use event_streaming_and_audi.Prelude.{String, Bool, ◌≡◌, ℤ, ◌≢◌, true}
use event_streaming_and_audi.Auth.{Identity}
use event_streaming_and_audi.Errors.{Result, ok}
use event_streaming_and_audi.Request.{Request}

pub record AsksKey (lib : Library) (method : String → Method) : Type 0 where
  pub asks :
      (key : Method → Result String) (token : String) (now : ℤ) (parsed : Claims × Bool)
      → lib.parse_with_claims key token now ≡ ok parsed
      → (secret : String) × (key (method token) ≡ ok secret)

-- A request with a bearer token that the library has verified, and the identity of its claims.
pub record IsVerified (lib : Library) (method : String → Method) (secret : String) (now : ℤ)
    (r : Request) (i : Identity) : Type 0 where
  pub token : String
  pub sent : bearer_token (r.header "Authorization") ≡ ok token
  pub alg : String
  pub by_hmac : method token ≡ hmac alg
  pub claims : Claims
  pub verified : lib.parse_with_claims (key_for secret) token now ≡ ok (claims, true)
  pub same :
      i ≡ record { subject_id = claims.subject; tenant_id = claims.tenant_id; roles = claims.roles }
  pub subject_named : i.subject_id ≢ ""
  pub tenant_named : i.tenant_id ≢ ""
