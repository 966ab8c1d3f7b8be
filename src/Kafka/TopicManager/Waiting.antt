-- ===== src/Kafka/TopicManager/Waiting.antt =====
-- How long EnsureTopics may hold up a service that starts.
use event_streaming_and_audi.Kafka.TopicManager.{
  retry, ensure_topics, ensure_from, Cluster, TopicSpec, try_ensure_topics,
}
use event_streaming_and_audi.Backoff.{backoff}
use event_streaming_and_audi.Errors.{Error, text}
use event_streaming_and_audi.Prelude.{Option, List, ℕ, ◌≤◌, ◌+◌, some, arith, suc, none, zero, ◌*◌}

retry-le :
    {C : Type 0} (cluster : Cluster C) (r : Option Error × C) (cancelled : Option Error)
    (waited bound : ℕ) (next : Error → Option Error × C × ℕ)
    → waited ≤ bound
    → ((x : Error) → (next x).2 ≤ bound)
    → (retry cluster r cancelled waited next).2 ≤ bound
retry-le cluster (none, c) cancelled waited bound next h k = h
retry-le cluster (some x, c) (some done) waited bound next h k = h
retry-le cluster (some x, c) none waited bound next h k = k x

module _ {C : Type 0} (cluster : Cluster C) (specs : List TopicSpec) (between : ℕ → C → C)
    (cancelled : ℕ → Option Error) where
  ensure_from-le :
      (left attempt : ℕ) (last : Error) (c : C) (waited : ℕ)
      → (ensure_from cluster specs between cancelled left attempt last c waited).2
        ≤ waited + backoff left attempt
  unfolding ensure_from
  ensure_from-le zero attempt last c waited = omega arith
  ensure_from-le (suc left) attempt last c waited =
      let c' : C = between attempt (try_ensure_topics cluster specs c).1 in
      retry-le cluster (try_ensure_topics cluster specs c) (cancelled attempt) waited _ _
        (omega arith)
        (λ x. omega (arith, ensure_from-le left (attempt + 1) x c' (waited + attempt * 2)))

  -- EnsureTopics waits at most 30 seconds between its attempts, however Kafka answers.
  pub ensure_topics-waits : (c : C) → (ensure_topics cluster specs between cancelled c).2 ≤ 30
  unfolding ensure_topics
  ensure_topics-waits c = ensure_from-le 5 1 (text "") c 0
