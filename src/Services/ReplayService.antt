-- ===== src/Services/ReplayService.antt =====
-- The replay-service: no call carries an identity, and Replay wants one.
use event_streaming_and_audi.Replay.{replay, replay_for}
use event_streaming_and_audi.Grpc.{
  handle_replay, ReplayRequest, failure, status, invalid_argument, data_loss,
}
use event_streaming_and_audi.Auth.{tenant_identity, identity_from_context}
use event_streaming_and_audi.Event.Json.{Fields}
use event_streaming_and_audi.Errors.{Result, text}
use event_streaming_and_audi.Event.{Store}
use event_streaming_and_audi.Services.{call_context}
use event_streaming_and_audi.Prelude.{◌≡◌, if◌then◌else◌, ◌==◌, none, some, arith}

-- Whatever the store holds, a call of the replay-service gets an error: InvalidArgument without a
-- stream, and DataLoss with the error that the call is unauthenticated otherwise.
pub handle_replay-refused :
    {St S : Type 0} (new_struct : Fields → Result St) (store : Store S) (req : ReplayRequest)
    (s : S)
    → handle_replay new_struct store call_context req s
      ≡ failure (
          if req.stream_id == ""
          then status invalid_argument "stream_id is required" none
          else status data_loss "replay failed"
              (some (text "unauthenticated: identity with tenant_id is required")))
unfolding handle_replay replay replay_for tenant_identity identity_from_context
handle_replay-refused new_struct store req s = ground arith
