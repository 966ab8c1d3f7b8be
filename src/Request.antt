-- ===== src/Request.antt =====
-- The HTTP request that the authenticators and the handlers read.
use event_streaming_and_audi.Prelude.{String}
use event_streaming_and_audi.Event.Json.{RawMessage}
use event_streaming_and_audi.Auth.{Context}

-- An http.Request as far as the program reads it: Header.Get, URL.Query().Get (both "" for what is
-- absent), the path parameter of the route, the body, and the context.
pub record Request : Type 0 where
  pub header : String → String
  pub query : String → String
  pub stream_id : String
  pub body : RawMessage
  pub context : Context
