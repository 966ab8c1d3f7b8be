-- ===== src/Replay.antt =====
-- internal/application/replay/service.go
pub mod Contiguous
pub mod Guards
pub mod Stored
pub mod Gaps
pub mod Whole
use event_streaming_and_audi.Prelude.{
  ℤ, pos, String, Option, none, some, List, [], ◌∷◌, ◌==◌, if◌then◌else◌, int_beq, ltb_ℤ,
  int64_succ,
}
use event_streaming_and_audi.Errors.{Error, Result, ok, err, text, version_gap, ◌>>=◌, wrap}
use event_streaming_and_audi.Auth.{Context, Identity, identity_from_context, tenant_identity}
use event_streaming_and_audi.Event.{Event, Store}

pub record Command : Type 0 where
  pub stream_id : String
  pub from_version : ℤ

-- The loop of validateContiguous, with the event before the rest of the slice.
unfoldable pub validate_after : Event → List Event → Option Error
validate_after prev [] = none
validate_after prev (curr ∷ rest) =
    if int_beq curr.version (int64_succ prev.version)
    then validate_after curr rest
    else some (version_gap curr.stream_id (int64_succ prev.version) curr.version prev.version)

unfoldable pub validate_contiguous : List Event → Option Error
validate_contiguous [] = none
validate_contiguous (e ∷ es) = validate_after e es

-- Partial data is never returned.
unfoldable pub checked : List Event → Result (List Event)
checked events = elim (validate_contiguous events) [ none ↦ ok events | some e ↦ err e ]

module _ {S : Type 0} (store : Store S) where
  unfoldable pub replay_for : Option Identity → Context → Command → S → Result (List Event)
  replay_for none ctx cmd s = err (text "unauthenticated: identity with tenant_id is required")
  replay_for (some identity) ctx cmd s =
      if cmd.stream_id == ""
      then err (text "stream_id is required")
      else if ltb_ℤ cmd.from_version (pos 0)
      then err (text "from_version must be >= 0")
      else do
        events ←
            wrap "read events from store"
              (store.get_from_version ctx cmd.stream_id cmd.from_version s)
        checked events

  -- Replay
  unfoldable pub replay : Context → Command → S → Result (List Event)
  replay ctx cmd s = replay_for (tenant_identity ctx) ctx cmd s
