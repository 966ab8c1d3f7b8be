-- ===== src/Services.antt =====
-- cmd/ingest-api, cmd/consumer-service and cmd/replay-service: what main builds from the
-- configuration.
pub mod ReplayService
pub mod Routing
pub mod Pipeline
pub mod Startup
pub mod Named
pub mod Started
pub mod Rounds
pub mod Consuming
pub mod Shutdown
pub mod System
use event_streaming_and_audi.Config.{KafkaConfig, AuthConfig, dlq_topic_name}
use event_streaming_and_audi.Authenticator.Jwt.{Library, issue, authenticate_jwt}
use event_streaming_and_audi.Auth.{Context, background, Issuer}
use event_streaming_and_audi.Prelude.{
  String, List, map, ◌∷◌, Option, pos, [], ◌++◌, if◌then◌else◌, ◌==◌, none, some,
}
use event_streaming_and_audi.Kafka.TopicManager.{TopicSpec}
use event_streaming_and_audi.Kafka.TopicResolver.{TopicResolver, new_topic_resolver, topics_of}
use event_streaming_and_audi.Authenticator.{Authenticator, authenticate_none, authenticate_simple}

-- buildTopicSpecs
abbrev pub spec_of : KafkaConfig → String → TopicSpec
spec_of cfg topic = record {
  name = topic;
  partitions = cfg.topic_partitions;
  replication = cfg.topic_replication;
}

abbrev pub dlq_spec : KafkaConfig → TopicSpec
dlq_spec cfg = record {
  name = dlq_topic_name cfg;
  partitions = pos 1;
  replication = cfg.topic_replication;
}

unfoldable pub build_topic_specs : KafkaConfig → TopicResolver → List TopicSpec
build_topic_specs cfg resolver = map (spec_of cfg) (topics_of resolver) ++ dlq_spec cfg ∷ []

-- The topics that the consumer-service makes sure of, and the one that its reader reads.
unfoldable pub consumer_specs : KafkaConfig → List TopicSpec
consumer_specs cfg = spec_of cfg cfg.topic ∷ dlq_spec cfg ∷ []

unfoldable pub consumed_topic : KafkaConfig → String
consumed_topic cfg = cfg.topic

-- The resolver of the ingest-api.
unfoldable pub resolver_of : KafkaConfig → TopicResolver
resolver_of cfg = new_topic_resolver cfg.topic cfg.topic_routes

-- buildIssuer
unfoldable pub build_issuer : Library → AuthConfig → Option Issuer
build_issuer lib cfg =
    if cfg.jwt_secret == "" then none else some (record { issue = issue lib cfg.jwt_secret })

-- buildAuthenticator; `none` is os.Exit(1).
unfoldable pub build_authenticator : Library → AuthConfig → Option Authenticator
build_authenticator lib cfg =
    if cfg.mode == "none"
    then some (record { authenticate = authenticate_none })
    else if cfg.mode == "jwt"
    then if cfg.jwt_secret == ""
      then none
      else some (record { authenticate = authenticate_jwt lib cfg.jwt_secret })
    else if cfg.mode == "simple"
    then some (record { authenticate = authenticate_simple cfg.api_key })
    else some (record { authenticate = authenticate_none })

-- The replay-service registers the handler on grpc.NewServer() with no interceptor: the context of a
-- call carries no identity.
abbrev pub call_context : Context
call_context = background
