-- ===== src/Services/Named.antt =====
-- The topics' names, whatever the environment is. A message of kafka-go has its own topic when the
-- writer has none, and else the writer's.
use Prim.Native.String
use Prim.Native.String.append
use mathlib.Core.Path.{subst}
use event_streaming_and_audi.Prelude.{
  String, Option, ◌≢◌, Bool-cases, All, List, ◌==◌, ◌≡◌, ◌∷◌, cut, some, ◌⊎◌, inl, arith, ◌||◌,
  trim_space, Option-cases, inr, [], eq_iff, split, none, refl,
}
use event_streaming_and_audi.Config.{
  get_env, dlq_topic_name, assign, add_routes, parse_topic_routes, load, KafkaConfig, add_route,
}
use event_streaming_and_audi.Kafka.TopicResolver.{
  lookup, resolve, new_topic_resolver, route, domain_of,
}
use event_streaming_and_audi.Event.{StringMap, Event}
use event_streaming_and_audi.Kafka.Settings.{
  WriterConfig, new_producer, new_dlq_producer, new_consumer,
}
use event_streaming_and_audi.Kafka.Producer.{KafkaMessage, message_of}
use event_streaming_and_audi.Event.Wire.{Wire}
use event_streaming_and_audi.Services.{resolver_of}

-- The text has a character.
abbrev pub IsNamed : String → Type 0
IsNamed t = t ≢ ""

concat-IsNamed : (a b : String) → IsNamed b → IsNamed (String.◌++◌ a b)
concat-IsNamed String.[] b h = rw (append.nil b) h
concat-IsNamed (String.◌∷◌ c a) b h = rw (append.cons c a b) (λ same. cc)

get_env-IsNamed :
    (env : String → String) (name fallback : String)
    → IsNamed fallback
    → IsNamed (get_env env name fallback)
unfolding get_env
get_env-IsNamed env name fallback h = elim (Bool-cases (env name == "")) [
  | inl missing ↦ rw missing h
  | inr given ↦ rw given (ground (arith, eq_iff (env name) ""))
]

dlq_topic_name-IsNamed : (cfg : KafkaConfig) → IsNamed (dlq_topic_name cfg)
unfolding dlq_topic_name
dlq_topic_name-IsNamed cfg = elim (Bool-cases (cfg.dlq_topic == "")) [
  | inl missing ↦ rw missing (concat-IsNamed cfg.topic ".dlq" (ground (arith, eq_iff ".dlq" "")))
  | inr given ↦ rw given (ground (arith, eq_iff cfg.dlq_topic ""))
]

assign-IsNamed :
    (k v : String) (m : StringMap)
    → IsNamed v
    → All (λ r. IsNamed r.1) m
    → All (λ r. IsNamed r.1) (assign k v m)
unfolding assign
assign-IsNamed k v [] h all = (h, tt)
assign-IsNamed k v ((j, w) ∷ m) h (first, rest) = elim (Bool-cases (j == k)) [
  | inl same ↦ rw same (h, rest)
  | inr other ↦ rw other (first, assign-IsNamed k v m h rest)
]

add_route-IsNamed :
    (o : Option (String × String)) (m : StringMap)
    → All (λ r. IsNamed r.1) m
    → All (λ r. IsNamed r.1) (add_route o m)
add_route-IsNamed none m all = all
add_route-IsNamed (some (k, v)) m all = elim (Bool-cases (k == "" || v == "")) [
  | inl bad ↦ rw bad all
  | inr good ↦ rw good (assign-IsNamed k v m (ground (arith, eq_iff v "")) all)
]

add_routes-IsNamed :
    (pairs : List String) (m : StringMap)
    → All (λ r. IsNamed r.1) m
    → All (λ r. IsNamed r.1) (add_routes pairs m)
unfolding add_routes
add_routes-IsNamed [] m all = all
add_routes-IsNamed (p ∷ pairs) m all =
    add_routes-IsNamed pairs _ (add_route-IsNamed (cut b':' (trim_space p)) m all)

parse_topic_routes-IsNamed : (raw : String) → All (λ r. IsNamed r.1) (parse_topic_routes raw)
unfolding parse_topic_routes
parse_topic_routes-IsNamed raw = elim (Bool-cases (raw == "")) [
  | inl missing ↦ rw missing tt
  | inr given ↦ rw given (add_routes-IsNamed (split b',' raw) [] tt)
]

lookup-IsNamed :
    (key t : String) (m : StringMap) → All (λ r. IsNamed r.1) m → lookup key m ≡ some t → IsNamed t
unfolding lookup
lookup-IsNamed key t [] all h = cc
lookup-IsNamed key t ((k, v) ∷ m) (first, rest) h = elim (Bool-cases (k == key)) [
  | inl here ↦ let same : v ≡ t = cc (rw here at h) in subst IsNamed same first
  | inr later ↦ lookup-IsNamed key t m rest (rw later at h)
]

route-IsNamed :
    (m : StringMap) (fallback : String) (o : Option String)
    → All (λ r. IsNamed r.1) m
    → IsNamed fallback
    → IsNamed (route m fallback o)
route-IsNamed m fallback none all h = h
route-IsNamed m fallback (some domain) all h = elim (Option-cases (lookup domain m)) [
  | inl missing ↦ rw missing h
  | inr (t, found) ↦ rw found (lookup-IsNamed domain t m all found)
]

resolve-IsNamed :
    (topic : String) (m : StringMap) (e : Event)
    → All (λ r. IsNamed r.1) m
    → IsNamed topic
    → IsNamed (resolve (new_topic_resolver topic m) e)
unfolding resolve new_topic_resolver
resolve-IsNamed topic [] e all h = h
resolve-IsNamed topic (r ∷ m) e all h = route-IsNamed (r ∷ m) topic (domain_of e.stream_id) all h

-- What kafka-go demands of a writer and the topic of a message.
abbrev pub Fits : WriterConfig → KafkaMessage Wire → Type 0
Fits w m = ((w.topic ≡ "") × IsNamed m.topic) ⊎ (IsNamed w.topic × (m.topic ≡ ""))

-- Whatever the environment holds, each message of the producer names a topic while its writer names
-- none, as kafka-go demands; and the dead-letter writer and the consumer's reader name theirs.
pub load-Fits :
    (env : String → String) (e : Event) (w : Wire)
    → Fits (new_producer (load env).kafka) (message_of (resolver_of (load env).kafka) e w)
      × IsNamed (new_dlq_producer (load env).kafka).topic
      × IsNamed (new_consumer (load env).kafka).topic
unfolding load new_producer new_dlq_producer new_consumer resolver_of
load-Fits env e w =
    let topic =
      get_env-IsNamed env "KAFKA_TOPIC" "events.v1" (ground (arith, eq_iff "events.v1" "")) in
    (
      inl (refl, resolve-IsNamed _ _ e (parse_topic_routes-IsNamed _) topic),
      dlq_topic_name-IsNamed (load env).kafka,
      topic,
    )
