-- ===== src/Authenticator.antt =====
-- internal/infrastructure/auth: the three authenticators, and the JWT issuer. golang-jwt is a
-- parameter.
pub mod Jwt
use event_streaming_and_audi.Event.{Time}
use event_streaming_and_audi.Prelude.{String, if◌then◌else◌, ◌∷◌, ◌==◌, []}
use event_streaming_and_audi.Request.{Request}
use event_streaming_and_audi.Errors.{Result, ok, err, text}
use event_streaming_and_audi.Auth.{Identity}

-- The port; the first argument is the clock's reading.
pub record Authenticator : Type 0 where
  pub authenticate : Time → Request → Result Identity

-- none.Authenticator
unfoldable pub authenticate_none : Time → Request → Result Identity
authenticate_none now r =
    ok
      (record { subject_id = "anonymous"; tenant_id = "default"; roles = "writer" ∷ "reader" ∷ [] })

-- simple.Authenticator
unfoldable pub authenticate_simple : String → Time → Request → Result Identity
authenticate_simple api_key now r =
    let key = r.header "X-API-Key" in
    if key == ""
    then err (text "missing X-API-Key header")
    else if key == api_key
    then ok
        (record { subject_id = "api-key"; tenant_id = "default"; roles = "writer" ∷ "reader" ∷ [] })
    else err (text "invalid API key")
