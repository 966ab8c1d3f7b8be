-- ===== src/Consume/DeadLetters.antt =====
-- An event that cannot be indexed, and the dead-letter topic.
use event_streaming_and_audi.Consume.{Service, DlqMessage, handle, after_index, route_to_dlq}
use event_streaming_and_audi.Kafka.Producer.{
  Writer, DlqWire, KafkaMessage, dlq_producer, dlq_publish, dlq_message_of, dlq_publish_text,
}
use event_streaming_and_audi.Event.{Event, Indexer, Time}
use event_streaming_and_audi.Event.Wire.{Wire, marshal}
use event_streaming_and_audi.Errors.{Result, Error, ok, err}
use event_streaming_and_audi.Prelude.{[], Option, ◌≡◌, none, refl, ◌⊎◌, some, inl, inr, ap}

module _ {I W : Type 0} (indexer : Indexer I) (writer : Writer DlqWire W) (now : Time) where
  abbrev pub over_kafka : Service I W
  over_kafka = record { indexer = indexer; dlq = dlq_producer writer }

  -- What the writer is given for an event that failed with the error.
  abbrev pub letter_of : Event → Wire → Error → KafkaMessage DlqWire
  letter_of e w x = record {
    topic = "";
    key = e.id;
    value = record { event = w; reason = x; failed_at = now };
    time = now;
    headers = [];
  }

  dlq_publish_text-state :
      (msg : DlqMessage) (r : Result Wire) (w : Wire) (d : W)
      → r ≡ ok w
      → (dlq_publish_text writer msg r d).1 ≡ (writer.write_messages (dlq_message_of msg w) d).1
  dlq_publish_text-state msg (err x) w d h = cc
  dlq_publish_text-state msg (ok v) w d h =
      let same : v ≡ w = cc in ap (λ u. (writer.write_messages (dlq_message_of msg u) d).1) same

  after_index-cases :
      (e : Event) (w : Wire) (d : W) (r : Option Error × I)
      → marshal e ≡ ok w
      → ((r ≡ (none, r.1)) × (after_index over_kafka now e d r ≡ (none, (r.1, d))))
        ⊎ ((x : Error) × (r ≡ (some x, r.1))
            × (after_index over_kafka now e d r
                ≡ (none, (r.1, (writer.write_messages (letter_of e w x) d).1))))
  unfolding route_to_dlq dlq_producer dlq_publish
  after_index-cases e w d (none, i) h = inl (refl, refl)
  after_index-cases e w d (some x, i) h =
      let msg : DlqMessage = record { event = e; reason = x; failed_at = now } in
      inr (x, refl, ap (λ t. (none, (i, t))) (dlq_publish_text-state msg (marshal e) w d h))

  -- An event that can be written as JSON is not dropped in silence: it is indexed and the writer of
  -- the dead-letter topic is left alone, or its indexing failed and one message with the event, the
  -- error and the time, keyed by the event's id, is given to this writer, whatever the writer answers.
  -- The handler answers no error in both cases.
  pub handle-cases :
      (e : Event) (w : Wire) (i : I) (d : W)
      → marshal e ≡ ok w
      → ((i' : I) × (indexer.index e i ≡ (none, i'))
          × (handle over_kafka now e (i, d) ≡ (none, (i', d))))
        ⊎ ((x : Error) × (i' : I) × (indexer.index e i ≡ (some x, i'))
            × (handle over_kafka now e (i, d)
                ≡ (none, (i', (writer.write_messages (letter_of e w x) d).1))))
  unfolding handle
  handle-cases e w i d h = elim (after_index-cases e w d (indexer.index e i) h) [
    | inl (done, kept) ↦ inl (_, done, kept)
    | inr (x, failed, written) ↦ inr (x, _, failed, written)
  ]
