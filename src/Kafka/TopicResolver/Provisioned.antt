-- ===== src/Kafka/TopicResolver/Provisioned.antt =====
-- Topics names every topic that Resolve may give.
use event_streaming_and_audi.Prelude.{
  String, List, ◌≡◌, ◌++◌, true, ◌∷◌, some, [], arith, Bool-cases, ◌||◌, ◌==◌, eq_refl, inl, inr,
  Option-cases,
}
use event_streaming_and_audi.Kafka.TopicResolver.{
  collect, resolve, contains, lookup, topics_of, TopicResolver, single, prefix, domain_of,
}
use event_streaming_and_audi.Event.{StringMap, Event}

-- The text is one of the list.
abbrev pub Holds : String → List String → Type 0
Holds t ts = contains t ts ≡ true

pub contains-append :
    (t u : String) (ts : List String) → contains t (ts ++ u ∷ []) ≡ (contains t ts || u == t)
unfolding contains
contains-append t u [] = ground arith
contains-append t u (x ∷ xs) = ground (arith, contains-append t u xs)

collect-keeps :
    (t : String) (routes : StringMap) (ts : List String) → Holds t ts → Holds t (collect routes ts)
unfolding collect
collect-keeps t [] ts h = h
collect-keeps t ((k, u) ∷ routes) ts h =
    collect-keeps t routes _ (ground (arith, contains-append t u ts))

collect-lookup :
    (key t : String) (routes : StringMap) (ts : List String)
    → lookup key routes ≡ some t
    → Holds t (collect routes ts)
unfolding collect lookup
collect-lookup key t [] ts h = cc
collect-lookup key t ((k, u) ∷ routes) ts h = elim (Bool-cases (k == key)) [
  | inl here ↦ collect-keeps t routes _ (ground (arith, contains-append t u ts, eq_refl t))
  | inr later ↦ collect-lookup key t routes _ (ground arith)
]

-- Every topic to which the resolver sends an event is among its topics.
pub contains-resolve : (r : TopicResolver) (e : Event) → contains (resolve r e) (topics_of r) ≡ true
unfolding resolve topics_of contains
contains-resolve (single topic) e = ground (arith, eq_refl topic)
contains-resolve (prefix routes fallback) e = elim (Option-cases (domain_of e.stream_id)) [
  | inl none_named ↦
      rw none_named (collect-keeps fallback routes _ (ground (arith, eq_refl fallback)))
  | inr (domain, named) ↦ elim (Option-cases (lookup domain routes)) [
    | inl missing ↦
        rw (named, missing) (collect-keeps fallback routes _ (ground (arith, eq_refl fallback)))
    | inr (t, found) ↦ rw (named, found) (collect-lookup domain t routes _ found)
  ]
]
