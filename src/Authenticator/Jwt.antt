-- ===== src/Authenticator/Jwt.antt =====
-- jwt/authenticator.go and jwt/issuer.go
pub mod Tokens
pub mod Verified
use event_streaming_and_audi.Prelude.{
  String, Bool, ℕ, ℤ, List, if◌then◌else◌, ◌==◌, leb_ℤ, ◌+ℤ◌, pos, cut, true, false, none, some,
  equal_fold, Option,
}
use event_streaming_and_audi.Errors.{Result, ok, err, ◌>>=◌, text, wrap}
use event_streaming_and_audi.Auth.{Identity, IssueCommand, IssuedToken}
use event_streaming_and_audi.Request.{Request}

-- The claims of a token; times are whole seconds, as golang-jwt's NumericDate keeps them.
pub record Claims : Type 0 where
  pub subject : String
  pub expires_at : ℤ
  pub issued_at : ℤ
  pub tenant_id : String
  pub roles : List String

-- The method that a token's header names.
pub data Method : Type 0 where
  hmac : String → Method
  other : String → Method

-- golang-jwt. `parse_with_claims` is given the key function and the time; its result is the claims
-- and `token.Valid`. `numeric_date` is NewNumericDate.
pub record Library : Type 0 where
  pub parse_with_claims : (Method → Result String) → String → ℤ → Result (Claims × Bool)
  pub signed_string : Method → Claims → String → Result String
  pub numeric_date : ℤ → ℤ

-- The key function of Authenticate.
unfoldable pub key_for : String → Method → Result String
key_for secret (hmac alg) = ok secret
key_for secret (other alg) = err (text "unexpected signing method")

-- The header's two parts: the scheme is Bearer in any case of letters.
abbrev pub bearer_of : Option (String × String) → Result String
bearer_of none = err (text "authorization header must be: Bearer <token>")
bearer_of (some (scheme, token)) =
    if equal_fold scheme "Bearer"
    then ok token
    else err (text "authorization header must be: Bearer <token>")

unfoldable pub bearer_token : String → Result String
bearer_token header =
    if header == "" then err (text "missing Authorization header") else bearer_of (cut b' ' header)

-- What Authenticate asks of the claims of a valid token.
unfoldable pub identity_of : Claims → Result Identity
identity_of c =
    if c.subject == ""
    then err (text "token missing sub claim")
    else if c.tenant_id == ""
    then err (text "token missing tenant_id claim")
    else ok (record { subject_id = c.subject; tenant_id = c.tenant_id; roles = c.roles })

abbrev pub valid_claims : Claims × Bool → Result Claims
valid_claims (c, true) = ok c
valid_claims (c, false) = err (text "invalid token")

abbrev pub hour : ℕ
hour = 3600000000000

-- `if expiry <= 0 { expiry = defaultExpiry }`
unfoldable pub expiry_of : ℤ → ℤ
expiry_of expires_in = if leb_ℤ expires_in (pos 0) then pos hour else expires_in

module _ (lib : Library) (secret : String) where
  -- jwt.Authenticator.Authenticate
  unfoldable pub authenticate_jwt : ℤ → Request → Result Identity
  authenticate_jwt now r = do
    token ← bearer_token (r.header "Authorization")
    parsed ← wrap "invalid token" (lib.parse_with_claims (key_for secret) token now)
    c ← valid_claims parsed
    identity_of c

  abbrev pub claims_of : ℤ → IssueCommand → Claims
  claims_of now cmd = record {
    subject = cmd.identity.subject_id;
    expires_at = lib.numeric_date (now +ℤ expiry_of cmd.expires_in);
    issued_at = lib.numeric_date now;
    tenant_id = cmd.identity.tenant_id;
    roles = cmd.identity.roles;
  }

  -- Issue
  unfoldable pub issue : ℤ → IssueCommand → Result IssuedToken
  issue now cmd = do
    token ← wrap "sign token" (lib.signed_string (hmac "HS256") (claims_of now cmd) secret)
    ok (record { token = token; expires_at = now +ℤ expiry_of cmd.expires_in })
