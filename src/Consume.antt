-- ===== src/Consume.antt =====
-- internal/application/consume/service.go
pub mod DeadLetters
use event_streaming_and_audi.Event.{Event, Indexer, Time}
use event_streaming_and_audi.Prelude.{Option, some, none}
use event_streaming_and_audi.Errors.{Error}

-- The event that failed, the text of the error, and the time.
pub record DlqMessage : Type 0 where
  pub event : Event
  pub reason : Error
  pub failed_at : Time

pub record DlqPublisher (D : Type 0) : Type 0 where
  pub publish : DlqMessage → D → Option Error × D

-- Service: its indexer and its dead-letter queue.
pub record Service (I D : Type 0) : Type 0 where
  pub indexer : Indexer I
  pub dlq : DlqPublisher D

module _ {I D : Type 0} (s : Service I D) where
  -- routeToDLQ; a failure of the queue is only logged.
  unfoldable pub route_to_dlq : Time → Event → Error → D → D
  route_to_dlq now e index_error d =
      (s.dlq.publish (record { event = e; reason = index_error; failed_at = now }) d).1

  abbrev pub after_index : Time → Event → D → Option Error × I → Option Error × (I × D)
  after_index now e d (none, i) = (none, (i, d))
  after_index now e d (some x, i) = (none, (i, route_to_dlq now e x d))

  -- handle: the first part of its result is the error, always nil.
  unfoldable pub handle : Time → Event → I × D → Option Error × (I × D)
  unfolding route_to_dlq
  handle now e (i, d) = after_index now e d (s.indexer.index e i)
