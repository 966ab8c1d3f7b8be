-- ===== src/Kafka/Consumer.antt =====
-- consumer.go: the loop of Consumer.Run.
pub mod Delivery
pub mod Shutdown
use event_streaming_and_audi.Prelude.{
  ℕ, Option, List, Bool, String, none, some, ◌∷◌, [], true, false,
}
use event_streaming_and_audi.Event.{Event}
use event_streaming_and_audi.Event.Wire.{Wire, unmarshal}
use event_streaming_and_audi.Errors.{Error, wrapped, err, ok, Result}

-- A fetched message: its offset in the partition and its value.
pub record Message : Type 0 where
  pub offset : ℕ
  pub value : Wire

-- What kafka-go answers in one round: FetchMessage gives a message, and a commit of it would have
-- the result `commit`; or FetchMessage fails, and `cancelled` says whether ctx.Err() is set.
pub data Fetch : Type 0 where
  message : Message → (commit : Option Error) → Fetch
  failed : Error → (cancelled : Bool) → Fetch

-- How Run stands after the rounds: it waits for the next message, or it has returned.
pub data Outcome : Type 0 where
  waiting : Outcome
  returned : Option Error → Outcome

-- The handler's state, and the messages whose offsets are committed, the last one first.
pub record Progress (H : Type 0) : Type 0 where
  pub handled : H
  pub committed : List Message

module _ {H : Type 0} (handle : Event → H → Option Error × H) where
  -- One message is decoded, handled and committed, in this order. `none` lets the loop go on.
  unfoldable pub commit : String → Option Error → Message → Progress H → Option Error × Progress H
  commit what none m p = (none, record p { committed = m ∷ p.committed })
  commit what (some x) m p = (some (wrapped what x), p)

  abbrev pub after_handle :
      Option Error → Message → Progress H → Option Error × H → Option Error × Progress H
  after_handle c m p (none, h) = commit "commit message" c m (record p { handled = h })
  after_handle c m p (some x, h) = (some (wrapped "handle event" x), record p { handled = h })

  abbrev pub process_as :
      Result Event → Message → Option Error → Progress H → Option Error × Progress H
  process_as (err x) m c p = commit "commit after skip" c m p
  process_as (ok e) m c p = after_handle c m p (handle e p.handled)

  unfoldable pub process : Message → Option Error → Progress H → Option Error × Progress H
  process m c p = process_as (unmarshal m.value) m c p

  -- After a message the loop goes on, or Run returns the error.
  abbrev pub go_on : Option Error × Progress H → Outcome × Progress H → Outcome × Progress H
  go_on (none, p) rest = rest
  go_on (some x, p) rest = (returned (some x), p)

  -- Run over the rounds that kafka-go answers.
  unfoldable pub run : List Fetch → Progress H → Outcome × Progress H
  run [] p = (waiting, p)
  run (failed x true ∷ rounds) p = (returned none, p)
  run (failed x false ∷ rounds) p = (returned (some (wrapped "fetch message" x)), p)
  run (message m c ∷ rounds) p = let next = process m c p in go_on next (run rounds next.1)
