-- ===== src/Kafka/Settings.antt =====
-- NewProducer, NewDLQProducer and NewConsumer: how the writers and the reader are configured.
use event_streaming_and_audi.Prelude.{List, String, false, ℕ, Bool}
use event_streaming_and_audi.Config.{KafkaConfig, dlq_topic_name}

pub data RequiredAcks : Type 0 where
  require_one : RequiredAcks

pub data Balancer : Type 0 where
  hash by_default : Balancer

-- The fields of kafka-go's Writer that are set; durations are in nanoseconds.
pub record WriterConfig : Type 0 where
  pub addr : List String
  pub topic : String
  pub balancer : Balancer
  pub required_acks : RequiredAcks
  pub write_timeout : ℕ
  pub async : Bool

-- NewProducer
unfoldable pub new_producer : KafkaConfig → WriterConfig
new_producer cfg = record {
  addr = cfg.brokers;
  topic = "";
  balancer = hash;
  required_acks = require_one;
  write_timeout = 10000000000;
  async = false;
}

-- NewDLQProducer
unfoldable pub new_dlq_producer : KafkaConfig → WriterConfig
new_dlq_producer cfg = record {
  addr = cfg.brokers;
  topic = dlq_topic_name cfg;
  balancer = by_default;
  required_acks = require_one;
  write_timeout = 5000000000;
  async = false;
}

pub data StartOffset : Type 0 where
  first_offset : StartOffset

pub record ReaderConfig : Type 0 where
  pub brokers : List String
  pub topic : String
  pub group_id : String
  pub min_bytes : ℕ
  pub max_bytes : ℕ
  pub max_wait : ℕ
  pub start_offset : StartOffset

-- NewConsumer
unfoldable pub new_consumer : KafkaConfig → ReaderConfig
new_consumer cfg = record {
  brokers = cfg.brokers;
  topic = cfg.topic;
  group_id = cfg.group_id;
  min_bytes = 1;
  max_bytes = 10485760;
  max_wait = 500000000;
  start_offset = first_offset;
}
