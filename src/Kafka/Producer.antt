-- ===== src/Kafka/Producer.antt =====
-- producer.go and dlq_producer.go
use event_streaming_and_audi.Prelude.{String, Option, List, [], ◌∷◌, some}
use event_streaming_and_audi.Kafka.TopicResolver.{TopicResolver, resolve}
use event_streaming_and_audi.Event.Wire.{Wire, marshal}
use event_streaming_and_audi.Event.{Time, Event, Publisher}
use event_streaming_and_audi.Errors.{Error, wrap_error, err, wrapped, ok, Result}
use event_streaming_and_audi.Consume.{DlqMessage, DlqPublisher}

-- A kafka-go message with a value of type V.
pub record KafkaMessage (V : Type 0) : Type 0 where
  pub topic : String
  pub key : String
  pub value : V
  pub time : Time
  pub headers : List (String × String)

-- kafka-go's Writer, with a state W.
pub record Writer (V W : Type 0) : Type 0 where
  pub write_messages : KafkaMessage V → W → Option Error × W

abbrev pub message_of : TopicResolver → Event → Wire → KafkaMessage Wire
message_of resolver e payload = record {
  topic = resolve resolver e;
  key = e.stream_id;
  value = payload;
  time = e.occurred_at;
  headers = ("event_id", e.id) ∷ ("event_type", e.type) ∷ ("source", e.source) ∷ [];
}

abbrev pub wrapped_write {ℓ} : {W : Type ℓ} → String → Option Error × W → Option Error × W
wrapped_write what (r, w) = (wrap_error what r, w)

module _ {W : Type 0} (resolver : TopicResolver) (writer : Writer Wire W) where
  abbrev pub publish_text : Event → Result Wire → W → Option Error × W
  publish_text e (err x) w = (some (wrapped "marshal event" x), w)
  publish_text e (ok payload) w =
      wrapped_write "write to kafka" (writer.write_messages (message_of resolver e payload) w)

  -- Producer.Publish
  unfoldable pub publish : Event → W → Option Error × W
  publish e w = publish_text e (marshal e) w

  unfoldable pub producer : Publisher W
  producer = record { publish = publish }

-- The value of a dead letter: the event's text, the reason and the time.
pub record DlqWire : Type 0 where
  pub event : Wire
  pub reason : Error
  pub failed_at : Time

-- The message names no topic: the writer has its own, cfg.DLQTopicName().
abbrev pub dlq_message_of : DlqMessage → Wire → KafkaMessage DlqWire
dlq_message_of msg event = record {
  topic = "";
  key = msg.event.id;
  value = record { event = event; reason = msg.reason; failed_at = msg.failed_at };
  time = msg.failed_at;
  headers = [];
}

module _ {W : Type 0} (writer : Writer DlqWire W) where
  abbrev pub dlq_publish_text : DlqMessage → Result Wire → W → Option Error × W
  dlq_publish_text msg (err x) w = (some (wrapped "marshal dlq message" x), w)
  dlq_publish_text msg (ok event) w =
      wrapped_write "write to dlq topic" (writer.write_messages (dlq_message_of msg event) w)

  -- DLQProducer.Publish
  unfoldable pub dlq_publish : DlqMessage → W → Option Error × W
  dlq_publish msg w = dlq_publish_text msg (marshal msg.event) w

  unfoldable pub dlq_producer : DlqPublisher W
  dlq_producer = record { publish = dlq_publish }
