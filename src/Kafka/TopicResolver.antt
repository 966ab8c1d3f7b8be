-- ===== src/Kafka/TopicResolver.antt =====
-- topic_resolver.go
pub mod Provisioned
pub mod Order
pub mod Domains
use event_streaming_and_audi.Prelude.{
  String, List, Option, Bool, ◌∷◌, none, cut, false, if◌then◌else◌, [], some, ◌==◌, ◌++◌, ◌||◌,
}
use event_streaming_and_audi.Event.{Event, StringMap}

-- The two resolvers; `routes` holds the entries of the map, no prefix twice, in the order in which an
-- iteration meets them.
pub data TopicResolver : Type 0 where
  single : (topic : String) → TopicResolver
  prefix : (routes : StringMap) → (fallback : String) → TopicResolver

unfoldable pub lookup : String → StringMap → Option String
lookup key [] = none
lookup key ((k, v) ∷ m) = if k == key then some v else lookup key m

-- NewTopicResolver, given cfg.Topic and cfg.TopicRoutes.
unfoldable pub new_topic_resolver : String → StringMap → TopicResolver
new_topic_resolver topic [] = single topic
new_topic_resolver topic (r ∷ routes) = prefix (r ∷ routes) topic

abbrev or_fallback : String → Option String → String
or_fallback fallback none = fallback
or_fallback fallback (some topic) = topic

-- strings.Index(e.StreamID, ":") > 0, and the text before the colon.
abbrev pub non_empty : Option (String × String) → Option String
non_empty none = none
non_empty (some (domain, _)) = if domain == "" then none else some domain

unfoldable pub domain_of : String → Option String
domain_of stream_id = non_empty (cut b':' stream_id)

abbrev pub route : StringMap → String → Option String → String
route routes fallback none = fallback
route routes fallback (some domain) = or_fallback fallback (lookup domain routes)

-- Resolve
unfoldable pub resolve : TopicResolver → Event → String
resolve (single topic) e = topic
resolve (prefix routes fallback) e = route routes fallback (domain_of e.stream_id)

unfoldable pub contains : String → List String → Bool
contains a [] = false
contains a (x ∷ xs) = x == a || contains a xs

-- The loop of Topics; what is seen is what `topics` holds.
unfoldable pub collect : StringMap → List String → List String
collect [] topics = topics
collect ((k, t) ∷ routes) topics =
    collect routes (if contains t topics then topics else topics ++ t ∷ [])

unfoldable pub topics_of : TopicResolver → List String
topics_of (single topic) = topic ∷ []
topics_of (prefix routes fallback) = collect routes (fallback ∷ [])
