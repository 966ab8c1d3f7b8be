-- ===== src/Kafka/TopicManager.antt =====
-- topic_manager.go
pub mod Waiting
pub mod Provision
use event_streaming_and_audi.Prelude.{
  String, Option, List, ℤ, select, ℕ, not, none, some, ◌∷◌, pos, [], suc, ◌+◌, ◌*◌, zero,
}
use event_streaming_and_audi.Errors.{
  Result, Error, ◌>>◌, ok, wrap, wrap_error, text, err, attempts, ◌>>=◌,
}
use event_streaming_and_audi.Kafka.TopicResolver.{contains}

pub record TopicSpec : Type 0 where
  pub name : String
  pub partitions : ℤ
  pub replication : ℤ

-- What one attempt sees of the cluster: DialContext, ReadPartitions (the topic of each partition),
-- Controller with the dial of the controller, and CreateTopics.
pub record Cluster (C : Type 0) : Type 0 where
  pub dial : C → Option Error
  pub read_partitions : C → Result (List String)
  pub controller : C → Option Error
  pub dial_controller : C → Option Error
  pub create_topics : List TopicSpec → C → Option Error × C

abbrev pub and_then : Option Error → Result (Unit {0})
and_then none = ok tt
and_then (some x) = err x

-- The specs of the topics that do not exist.
unfoldable pub to_create : List String → List TopicSpec → List TopicSpec
to_create existing specs = select (λ s. not (contains s.name existing)) specs

module _ {C : Type 0} (cluster : Cluster C) where
  -- The steps of tryEnsureTopics before CreateTopics; no spec is left if all topics exist.
  unfoldable pub plan : List TopicSpec → C → Result (List TopicSpec)
  plan specs c = do
    wrap "dial kafka" (and_then (cluster.dial c))
    existing ← wrap "read partitions" (cluster.read_partitions c)
    ok (to_create existing specs)

  unfoldable pub reach_controller : C → Result (Unit {0})
  reach_controller c = do
    wrap "get controller" (and_then (cluster.controller c))
    wrap "dial controller" (and_then (cluster.dial_controller c))

  abbrev pub create : List TopicSpec → C → Option Error × C
  create specs c = let (r, c') = cluster.create_topics specs c in (wrap_error "create topics" r, c')

  abbrev pub create_at : Result (Unit {0}) → List TopicSpec → C → Option Error × C
  create_at (err x) specs c = (some x, c)
  create_at (ok _) specs c = create specs c

  abbrev pub execute : Result (List TopicSpec) → C → Option Error × C
  execute (err x) c = (some x, c)
  execute (ok []) c = (none, c)
  execute (ok (s ∷ specs)) c = create_at (reach_controller c) (s ∷ specs) c

  -- tryEnsureTopics
  unfoldable pub try_ensure_topics : List TopicSpec → C → Option Error × C
  try_ensure_topics specs c = execute (plan specs c) c

  -- The end of a round: success, a context that is done during the wait, or the next round.
  abbrev pub retry :
      Option Error × C → Option Error → ℕ → (Error → Option Error × C × ℕ) → Option Error × C × ℕ
  retry (none, c) cancelled waited next = (none, c, waited)
  retry (some x, c) (some done) waited next = (some done, c, waited)
  retry (some x, c) none waited next = next x

  -- The loop of EnsureTopics. After attempt n it waits 2n seconds, or returns ctx.Err() if the context
  -- is done meanwhile (`cancelled n`). The last part of the result counts the seconds waited.
  unfoldable pub ensure_from :
      List TopicSpec
      → (between : ℕ → C → C) → (cancelled : ℕ → Option Error) → ℕ
      → ℕ
      → Error
      → C
      → ℕ
      → Option Error × C × ℕ
  ensure_from specs between cancelled zero attempt last c waited =
      (some (attempts "ensure topics" (pos 5) last), c, waited)
  ensure_from specs between cancelled (suc left) attempt last c waited =
      let c' = (try_ensure_topics specs c).1 in
      retry (try_ensure_topics specs c) (cancelled attempt) waited (λ x.
        ensure_from specs between cancelled left (attempt + 1) x (between attempt c')
          (waited + attempt * 2))

  -- EnsureTopics
  unfoldable pub ensure_topics :
      List TopicSpec
      → (between : ℕ → C → C) → (cancelled : ℕ → Option Error) → C
      → Option Error × C × ℕ
  ensure_topics specs between cancelled c = ensure_from specs between cancelled 5 1 (text "") c 0
