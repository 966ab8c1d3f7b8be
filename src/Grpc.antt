-- ===== src/Grpc.antt =====
-- internal/infrastructure/grpcserver/handler.go. structpb.NewStruct is a parameter.
pub mod Answers
pub mod Opaque
use event_streaming_and_audi.Prelude.{
  String, List, Option, ℤ, ◌∷◌, some, none, if◌then◌else◌, ◌==◌, [],
}
use event_streaming_and_audi.Event.Json.{Fields, RawMessage, malformed, encoded, obj, empty, null}
use event_streaming_and_audi.Errors.{Result, Error, ◌>>=◌, wrap, ok, err, wrapped, text}
use event_streaming_and_audi.Event.{Time, Event, Store, StringMap}
use event_streaming_and_audi.Auth.{Context}
use event_streaming_and_audi.Replay.{replay}

pub data Code : Type 0 where
  invalid_argument data_loss internal : Code

-- A gRPC status: the code, the message before the error that it names, and that error.
pub data Status : Type 0 where
  status : Code → String → Option Error → Status

pub data Reply (A : Type 0) : Type 0 where
  response : A → Reply A
  failure : Status → Reply A

pub record ReplayRequest : Type 0 where
  pub stream_id : String
  pub from_version : ℤ

-- eventsv1.Event; `St` is structpb.Struct, and a payload may be nil.
pub record ProtoEvent (St : Type 0) : Type 0 where
  pub id : String
  pub stream_id : String
  pub type : String
  pub source : String
  pub version : ℤ
  pub occurred_at : Time
  pub payload : Option St
  pub metadata : Option StringMap

pub record EventStream (St : Type 0) : Type 0 where
  pub stream_id : String
  pub events : List (ProtoEvent St)

abbrev pub prepend : {A : Type 0} → A → Reply (List A) → Reply (List A)
prepend a (failure s) = failure s
prepend a (response rest) = response (a ∷ rest)

module _ {St : Type 0} (new_struct : Fields → Result St) where
  abbrev pub some_struct : Result St → Result (Option St)
  some_struct r = do s ← wrap "convert payload to structpb" r; ok (some s)

  -- The payload of domainToProto: a JSON object becomes a Struct; null, or no bytes, is nil.
  unfoldable pub payload_struct : RawMessage → Result (Option St)
  payload_struct empty = ok none
  payload_struct (malformed b) = err (wrapped "unmarshal payload" (text b))
  payload_struct (encoded null) = ok none
  payload_struct (encoded (obj fs)) = some_struct (new_struct fs)
  payload_struct (encoded _) = err (
      wrapped "unmarshal payload"
        (text "json: cannot unmarshal value into Go value of type map[string]interface {}"))

  unfoldable pub domain_to_proto : Event → Result (ProtoEvent St)
  domain_to_proto e = do
    payload ← payload_struct e.payload
    ok (record {
      id = e.id;
      stream_id = e.stream_id;
      type = e.type;
      source = e.source;
      version = e.version;
      occurred_at = e.occurred_at;
      payload = payload;
      metadata = e.metadata;
    })

  abbrev pub add_event :
      Result (ProtoEvent St) → Reply (List (ProtoEvent St)) → Reply (List (ProtoEvent St))
  add_event (err x) rest = failure (status internal "marshal event" (some x))
  add_event (ok pe) rest = prepend pe rest

  -- The loop over the events; an error stops it.
  unfoldable pub proto_events : List Event → Reply (List (ProtoEvent St))
  proto_events [] = response []
  proto_events (e ∷ es) = add_event (domain_to_proto e) (proto_events es)

  module _ {S : Type 0} (store : Store S) where
    abbrev pub stream_of : String → Reply (List (ProtoEvent St)) → Reply (EventStream St)
    stream_of id (failure s) = failure s
    stream_of id (response pes) = response (record { stream_id = id; events = pes })

    abbrev pub after_replay : String → Result (List Event) → Reply (EventStream St)
    after_replay id (err x) = failure (status data_loss "replay failed" (some x))
    after_replay id (ok es) = stream_of id (proto_events es)

    -- Handler.Replay
    unfoldable pub handle_replay : Context → ReplayRequest → S → Reply (EventStream St)
    handle_replay ctx req s =
        if req.stream_id == ""
        then failure (status invalid_argument "stream_id is required" none)
        else after_replay req.stream_id (
            replay store ctx (record { stream_id = req.stream_id; from_version = req.from_version })
              s)
