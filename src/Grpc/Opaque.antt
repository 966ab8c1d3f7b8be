-- ===== src/Grpc/Opaque.antt =====
-- Payloads that are JSON and no objects: Ingest takes them, and Replay over gRPC does not.
-- A JSON value other than an object and null.
use event_streaming_and_audi.Event.Json.{
  RawMessage, Fields, malformed, encoded, obj, bool, num, str, arr, empty, null,
}
use event_streaming_and_audi.Prelude.{
  List, ◌∷◌, ◌⊎◌, ◌≡◌, inl, [], ap, refl, ◌≢◌, inr, some, ◌==◌, false, arith, eq_iff,
}
use event_streaming_and_audi.Event.{Event, Store}
use event_streaming_and_audi.Errors.{Result, Error, err, ok}
use event_streaming_and_audi.Grpc.{
  payload_struct, domain_to_proto, ProtoEvent, proto_events, handle_replay, Reply, failure,
  add_event, status, ReplayRequest, internal, prepend,
}
use event_streaming_and_audi.Auth.{Context}
use event_streaming_and_audi.Replay.{replay}

abbrev pub IsOpaque : RawMessage → Type 0
IsOpaque empty = ⊥
IsOpaque (malformed b) = ⊥
IsOpaque (encoded null) = ⊥
IsOpaque (encoded (obj fs)) = ⊥
IsOpaque (encoded (bool b)) = Unit
IsOpaque (encoded (num s)) = Unit
IsOpaque (encoded (str s)) = Unit
IsOpaque (encoded (arr js)) = Unit

-- Some event has such a payload.
abbrev pub HasOpaque : List Event → Type 0
HasOpaque [] = ⊥
HasOpaque (e ∷ es) = IsOpaque e.payload ⊎ HasOpaque es

module _ {St : Type 0} (new_struct : Fields → Result St) where
  payload_struct-opaque :
      (p : RawMessage) → IsOpaque p → (x : Error) × (payload_struct new_struct p ≡ err x)
  unfolding payload_struct
  payload_struct-opaque empty h = absurd h
  payload_struct-opaque (malformed b) h = absurd h
  payload_struct-opaque (encoded null) h = absurd h
  payload_struct-opaque (encoded (obj fs)) h = absurd h
  payload_struct-opaque (encoded (bool b)) h = (_, refl)
  payload_struct-opaque (encoded (num s)) h = (_, refl)
  payload_struct-opaque (encoded (str s)) h = (_, refl)
  payload_struct-opaque (encoded (arr js)) h = (_, refl)

  domain_to_proto-opaque :
      (e : Event) → IsOpaque e.payload → (x : Error) × (domain_to_proto new_struct e ≡ err x)
  unfolding domain_to_proto
  domain_to_proto-opaque e h =
      let (x, failed) = payload_struct-opaque e.payload h in (x, rw failed refl)

  -- The failure of a call whose events cannot all be converted.
  abbrev pub internal_error : {A : Type 0} → Error → Reply A
  internal_error x = failure (status internal "marshal event" (some x))

  add_event-fails :
      (r : Result (ProtoEvent St)) (rest : Reply (List (ProtoEvent St))) (x : Error)
      → rest ≡ internal_error x
      → (y : Error) × (add_event new_struct r rest ≡ internal_error y)
  add_event-fails (err y) rest x h = (y, refl)
  add_event-fails (ok pe) rest x h = (x, ap (prepend pe) h)

  proto_events-opaque :
      (es : List Event)
      → HasOpaque es
      → (x : Error) × (proto_events new_struct es ≡ internal_error x)
  unfolding proto_events
  proto_events-opaque [] h = absurd h
  proto_events-opaque (e ∷ es) (inl here) =
      let (x, failed) = domain_to_proto-opaque e here in
      (x, ap (λ r. add_event new_struct r (proto_events new_struct es)) failed)
  proto_events-opaque (e ∷ es) (inr later) =
      let (x, failed) = proto_events-opaque es later in
      add_event-fails (domain_to_proto new_struct e) (proto_events new_struct es) x failed

  -- One event whose payload is a number, a text, a truth value or an array makes the whole call fail
  -- with Internal, though the replay itself succeeds.
  pub handle_replay-opaque :
      {S : Type 0} (store : Store S) (ctx : Context) (req : ReplayRequest) (s : S) (es : List Event)
      → req.stream_id ≢ ""
      → replay store ctx (record { stream_id = req.stream_id; from_version = req.from_version }) s
        ≡ ok es
      → HasOpaque es
      → (x : Error) × (handle_replay new_struct store ctx req s ≡ internal_error x)
  unfolding handle_replay
  handle_replay-opaque store ctx req s es named read opaque =
      let (x, failed) = proto_events-opaque es opaque in
      let given : (req.stream_id == "") ≡ false = ground (arith, named, eq_iff req.stream_id "") in
      (x, rw (given, read, failed) refl)
