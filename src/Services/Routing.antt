-- ===== src/Services/Routing.antt =====
-- Where the producer sends, what is provisioned, and what the consumer-service reads.
use event_streaming_and_audi.Kafka.TopicResolver.{
  contains, lookup, resolve, new_topic_resolver, domain_of, route,
}
use event_streaming_and_audi.Prelude.{
  List, String, map, ◌≡◌, true, ◌↔◌, ◌∷◌, ap, ◌++◌, [], some, arith, refl, eq_iff, Option, none,
}
use event_streaming_and_audi.Config.{KafkaConfig, dlq_topic_name}
use event_streaming_and_audi.Services.{build_topic_specs, resolver_of, consumed_topic, spec_of}
use event_streaming_and_audi.Kafka.TopicManager.{TopicSpec}
use event_streaming_and_audi.Event.{Event, StringMap}
use event_streaming_and_audi.Kafka.TopicResolver.Domains.{
  Routed, domain_of-front, domain_of-some, Routed-lookup, lookup-Routed,
}
use event_streaming_and_audi.Config.Routes.{Free, ◌+++◌}
use event_streaming_and_audi.Prelude.{◌∙◌, ◌≢◌}
use event_streaming_and_audi.Kafka.TopicResolver.Provisioned.{contains-resolve}

abbrev pub names : List TopicSpec → List String
names specs = map (λ s. s.name) specs

names-specs : (cfg : KafkaConfig) (ts : List String) → names (map (spec_of cfg) ts) ≡ ts
names-specs cfg [] = refl
names-specs cfg (t ∷ ts) = ap (λ us. t ∷ us) (names-specs cfg ts)

contains-names :
    (t : String) (cfg : KafkaConfig) (ts : List String) (s : TopicSpec)
    → contains t ts ≡ true
    → contains t (names (map (spec_of cfg) ts ++ s ∷ [])) ≡ true
unfolding contains
contains-names t cfg [] s h = cc
contains-names t cfg (u ∷ ts) s h = ground (arith, contains-names t cfg ts s)

dlq-contained :
    (t : String) (cfg : KafkaConfig) (ts : List String) (s : TopicSpec)
    → s.name ≡ t
    → contains t (names (map (spec_of cfg) ts ++ s ∷ [])) ≡ true
unfolding contains
dlq-contained t cfg [] s h = ground (arith, eq_iff s.name t)
dlq-contained t cfg (u ∷ ts) s h = ground (arith, dlq-contained t cfg ts s)

pub build_topic_specs-dlq :
    (cfg : KafkaConfig)
    → contains (dlq_topic_name cfg) (names (build_topic_specs cfg (resolver_of cfg))) ≡ true
unfolding build_topic_specs
build_topic_specs-dlq cfg = dlq-contained _ cfg _ _ refl

-- Every topic that the ingest-api publishes to is among those that it provisions at startup, and so is
-- the dead-letter topic.
pub build_topic_specs-provisions :
    (cfg : KafkaConfig) (e : Event)
    → (contains (resolve (resolver_of cfg) e) (names (build_topic_specs cfg (resolver_of cfg)))
        ≡ true)
      × (contains (dlq_topic_name cfg) (names (build_topic_specs cfg (resolver_of cfg))) ≡ true)
unfolding build_topic_specs
build_topic_specs-provisions cfg e =
    (contains-names _ cfg _ _ (contains-resolve (resolver_of cfg) e), build_topic_specs-dlq cfg)

or_fallback-given :
    (routes : StringMap) (fallback d : String) (l : Option String)
    → lookup d routes ≡ l
    → ((t : String) → l ≡ some t → t ≡ fallback)
    → route routes fallback (some d) ≡ fallback
or_fallback-given routes fallback d none found h = ground arith
or_fallback-given routes fallback d (some t) found h = ground (arith, h t refl)

route_iff :
    (routes : StringMap) (fallback : String) (o : Option String)
    → (route routes fallback o ≡ fallback)
      ↔ ((domain t : String) → o ≡ some domain → lookup domain routes ≡ some t → t ≡ fallback)
route_iff routes fallback none = (λ h domain t p q. cc, λ h. refl)
route_iff routes fallback (some d) = (
  λ h domain t p q. ground arith,
  λ h. or_fallback-given routes fallback d (lookup d routes) refl (λ t q. h d t refl q),
)

resolve_iff :
    (topic : String) (routes : StringMap) (e : Event)
    → (resolve (new_topic_resolver topic routes) e ≡ topic) ↔ (
        (domain t : String)
        → domain_of e.stream_id ≡ some domain
        → lookup domain routes ≡ some t
        → t ≡ topic)
unfolding resolve new_topic_resolver lookup
resolve_iff topic [] e = (λ h domain t p q. cc, λ h. refl)
resolve_iff topic (r ∷ routes) e = route_iff (r ∷ routes) topic (domain_of e.stream_id)

-- The ingest-api publishes an event to the topic that the consumer-service reads exactly when no
-- route takes it to another topic: when each route is to that topic, whose prefix is the text before
-- the first colon of the event's stream, unless that text is empty.
pub resolve-consumed_iff :
    (cfg : KafkaConfig) (e : Event)
    → (resolve (resolver_of cfg) e ≡ consumed_topic cfg) ↔ (
        (domain rest t : String)
        → e.stream_id ≡ domain +++ String.◌∷◌ ":" rest
        → Free b':' domain
        → domain ≢ ""
        → Routed domain t cfg.topic_routes
        → t ≡ cfg.topic)
unfolding resolver_of consumed_topic
resolve-consumed_iff cfg e =
    let same = resolve_iff cfg.topic cfg.topic_routes e in
    (
      λ h domain rest t stream free named routed.
          same.0 h domain t (ap domain_of stream ∙ domain_of-front domain rest free named)
            (Routed-lookup domain t cfg.topic_routes routed),
      λ h. same.1 (λ domain t found route.
          let (rest, stream, free, named) = domain_of-some e.stream_id domain found in
          h domain rest t stream free named (lookup-Routed domain t cfg.topic_routes route)),
    )
