-- ===== src/Http/Dto.antt =====
-- dto.go
use event_streaming_and_audi.Prelude.{String, ℤ, List, ℕ, Option}
use event_streaming_and_audi.Event.Json.{Json, RawMessage}
use event_streaming_and_audi.Event.{Time, Event, StringMap}
use event_streaming_and_audi.Errors.{Error}

pub record IngestRequest : Type 0 where
  pub stream_id : String
  pub type : String
  pub source : String
  pub payload : Json
  pub metadata : Option StringMap

pub record EventResponse : Type 0 where
  pub id : String
  pub tenant_id : String
  pub stream_id : String
  pub type : String
  pub source : String
  pub version : ℤ
  pub occurred_at : Time
  pub payload : RawMessage
  pub metadata : Option StringMap

pub record CreateTenantRequest : Type 0 where
  pub tenant_id : String
  pub subject_id : String
  pub roles : List String
  pub expires_in : ℤ

pub record TenantCredentialsResponse : Type 0 where
  pub tenant_id : String
  pub subject_id : String
  pub mode : String
  pub token : String
  pub expires_at : String
  pub note : String

pub record IssueTokenRequest : Type 0 where
  pub expires_in : ℤ

pub record IssuedTokenResponse : Type 0 where
  pub token : String
  pub expires_at : String
  pub subject_id : String
  pub tenant_id : String

pub record TokenResponse : Type 0 where
  pub subject_id : String
  pub tenant_id : String
  pub roles : List String

pub record QueryResultResponse : Type 0 where
  pub stream_id : String
  pub events : List EventResponse
  pub total : ℤ
  pub limit : ℤ
  pub offset : ℤ
  pub read_model : String

pub record ListEventsResponse : Type 0 where
  pub events : List EventResponse
  pub total : ℤ
  pub limit : ℤ
  pub offset : ℤ
  pub read_model : String

-- The message of an ErrorResponse: a text of the handler, or err.Error().
pub data ErrorMessage : Type 0 where
  literal : String → ErrorMessage
  error_text : Error → ErrorMessage

-- The bodies that the handlers write: HealthResponse, ErrorResponse, and the others.
pub data Body : Type 0 where
  health : (status : String) → Body
  error : ErrorMessage → Body
  token : TokenResponse → Body
  issued : IssuedTokenResponse → Body
  tenant : TenantCredentialsResponse → Body
  listing : ListEventsResponse → Body
  results : QueryResultResponse → Body
  event : Event → Body

-- What is written to an http.ResponseWriter.
pub record Response : Type 0 where
  pub status : ℕ
  pub headers : List (String × String)
  pub body : Body
