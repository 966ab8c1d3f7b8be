-- ===== src/Kafka.antt =====
-- internal/infrastructure/kafka. kafka-go and the broker are parameters.
pub mod Consumer
pub mod TopicResolver
pub mod Producer
pub mod Settings
pub mod TopicManager
