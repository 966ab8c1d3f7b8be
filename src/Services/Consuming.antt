-- ===== src/Services/Consuming.antt =====
-- The consumer-service, from its start to its end.
use event_streaming_and_audi.Services.Startup.{Libraries, Waits, start_consumer, World, consumer_of}
use event_streaming_and_audi.Prelude.{String, Bool, ◌≡◌, true, List, [], ◌⊎◌}
use event_streaming_and_audi.Kafka.TopicManager.Provision.{Serves}
use event_streaming_and_audi.Config.{KafkaConfig, Config, dlq_topic_name}
use event_streaming_and_audi.Kafka.Producer.{Writer, DlqWire}
use event_streaming_and_audi.Event.{Time}
use event_streaming_and_audi.Errors.{ok, err, Exit, exited, Error}
use event_streaming_and_audi.Kafka.Consumer.{Fetch, Progress}
use event_streaming_and_audi.Services.Rounds.{ended_by, committed_by}

module _ {D C S : Type 0} (libs : Libraries D C S) (waits : Waits C S) (exists : C → String → Bool)
    (serves : Serves libs.cluster exists) where
  -- The two topics of the consumer-service.
  pub record HasTopics (cfg : KafkaConfig) (c : C) : Type 0 where
    pub reads : exists c cfg.topic ≡ true
    pub dead_letters : exists c (dlq_topic_name cfg) ≡ true

  -- The consumer-service has started, on a cluster that has its two topics, with the indexer and the
  -- dead-letter producer of its configuration; how it stands and what it has committed follow from
  -- what kafka-go answers.
  pub record IsRunning {P : Type 0} (cfg : Config) (rounds : List Fetch) (w : World D C S)
      (r : Exit × Progress (S × P)) : Type 0 where
    pub world : World D C S
    pub started : start_consumer libs waits cfg w ≡ (ok (consumer_of libs waits cfg), world)
    pub topics : HasTopics cfg.kafka world.kafka
    pub ended : r.0 ≡ ended_by rounds
    pub committed : r.1.committed ≡ committed_by rounds []

  module _ {P : Type 0} (writer : Writer DlqWire P) (now : Time) (cfg : Config)
      (rounds : List Fetch) (p : P) where
    abbrev pub Ending : World D C S → Exit × Progress (S × P) → Type 0
    Ending w r =
        ((x : Error) × (v : World D C S) × (start_consumer libs waits cfg w ≡ (err x, v))
          × (r ≡ (exited 1, record { handled = (v.elasticsearch, p); committed = [] })))
        ⊎ IsRunning cfg rounds w r
