-- ===== src/Services/Rounds.antt =====
-- The consumer-service's loop (cmd/consumer-service/main.go, internal/infrastructure/kafka/consumer.go)
-- with its handler, which never reports an error.
use event_streaming_and_audi.Consume.{Service, handle, after_index}
use event_streaming_and_audi.Errors.{Error, Result, ok, err, wrapped}
use event_streaming_and_audi.Event.{Event, Time}
use event_streaming_and_audi.Event.Wire.{unmarshal}
use event_streaming_and_audi.Kafka.Consumer.{
  Outcome, Progress, Fetch, Message, message, failed, run, process, process_as, after_handle,
  commit, go_on,
}
use event_streaming_and_audi.Prelude.{
  ◌∷◌, Option, String, List, ◌≡◌, some, none, [], refl, true, false,
}
use event_streaming_and_audi.Errors.{Exit, running, exited}
use event_streaming_and_audi.Services.Startup.{exit_of}
use event_streaming_and_audi.Prelude.{◌∙◌, ap}

-- How the consumer-service stands after the rounds that kafka-go answers, and the messages whose
-- offsets it has committed, the last one first: it runs on until a fetch or a commit fails, and a
-- fetch that fails because the context is done ends it with 0.
unfoldable pub ended_by : List Fetch → Exit
ended_by [] = running
ended_by (failed x true ∷ rounds) = exited 0
ended_by (failed x false ∷ rounds) = exited 1
ended_by (message m (some x) ∷ rounds) = exited 1
ended_by (message m none ∷ rounds) = ended_by rounds

unfoldable pub committed_by : List Fetch → List Message → List Message
committed_by [] done = done
committed_by (failed x cancelled ∷ rounds) done = done
committed_by (message m (some x) ∷ rounds) done = done
committed_by (message m none ∷ rounds) done = committed_by rounds (m ∷ done)

module _ {I D : Type 0} (s : Service I D) (now : Time) where
  -- The consumer-service's handler never reports an error.
  after_index-none : (e : Event) (d : D) (r : Option Error × I) → (after_index s now e d r).0 ≡ none
  after_index-none e d (none, i) = refl
  after_index-none e d (some x, i) = refl

  -- The consumer-service commits a message, or stops at the failing commit, whatever its service does.
  abbrev Commits :
      Option Error → Message → Progress (I × D) → Option Error × Progress (I × D) → Type 0
  Commits none m p r = (r.0 ≡ none) × (r.1.committed ≡ m ∷ p.committed)
  Commits (some x) m p r = (y : Error) × (r.0 ≡ some y) × (r.1.committed ≡ p.committed)

  commit-Commits :
      (what : String) (c : Option Error) (m : Message) (p : Progress (I × D))
      → Commits c m p (commit (handle s now) what c m p)
  unfolding commit
  commit-Commits what none m p = (refl, refl)
  commit-Commits what (some x) m p = (wrapped what x, refl, refl)

  after_handle-Commits :
      (c : Option Error) (m : Message) (p : Progress (I × D)) (r : Option Error × (I × D))
      → r.0 ≡ none
      → Commits c m p (after_handle (handle s now) c m p r)
  after_handle-Commits none m p (none, h) nil = commit-Commits "commit message" none m _
  after_handle-Commits (some x) m p (none, h) nil = commit-Commits "commit message" (some x) m _
  after_handle-Commits c m p (some x, h) nil = cc

  process_as-Commits :
      (r : Result Event) (c : Option Error) (m : Message) (p : Progress (I × D))
      → Commits c m p (process_as (handle s now) r m c p)
  unfolding handle
  process_as-Commits (err x) c m p = commit-Commits "commit after skip" c m p
  process_as-Commits (ok e) c m p =
      after_handle-Commits c m p (handle s now e p.handled)
        (after_index-none e p.handled.1 (s.indexer.index e p.handled.0))

  -- What the loop leaves, when it comes to this exit and these commits.
  abbrev Leaves : Outcome × Progress (I × D) → Exit → List Message → Type 0
  Leaves r exit done = (exit_of r.0 ≡ exit) × (r.1.committed ≡ done)

  go_on-none :
      (rounds : List Fetch) (m : Message) (p : Progress (I × D))
      (next : Option Error × Progress (I × D)) (rest : Outcome × Progress (I × D))
      → Commits none m p next
      → Leaves rest (ended_by rounds) (committed_by rounds next.1.committed)
      → Leaves
          (go_on (handle s now) next rest)
          (ended_by rounds)
          (committed_by rounds (m ∷ p.committed))
  go_on-none rounds m p (none, q) rest (go, done) (exit, all) =
      (exit, all ∙ ap (committed_by rounds) done)
  go_on-none rounds m p (some y, q) rest (go, done) later = cc

  go_on-some :
      (x : Error) (m : Message) (p : Progress (I × D)) (next : Option Error × Progress (I × D))
      (rest : Outcome × Progress (I × D))
      → Commits (some x) m p next
      → Leaves (go_on (handle s now) next rest) (exited 1) p.committed
  go_on-some x m p (none, q) rest (y, stop, done) = cc
  go_on-some x m p (some z, q) rest (y, stop, done) = (refl, done)

  -- The loop of the consumer-service goes by what kafka-go answers.
  pub run-ended_by :
      (rounds : List Fetch) (p : Progress (I × D))
      → Leaves (run (handle s now) rounds p) (ended_by rounds) (committed_by rounds p.committed)
  unfolding run process ended_by committed_by
  run-ended_by [] p = (refl, refl)
  run-ended_by (failed x true ∷ rounds) p = (refl, refl)
  run-ended_by (failed x false ∷ rounds) p = (refl, refl)
  run-ended_by (message m none ∷ rounds) p =
      let next = process (handle s now) m none p in
      go_on-none rounds m p next _ (process_as-Commits (unmarshal m.value) none m p)
        (run-ended_by rounds next.1)
  run-ended_by (message m (some x) ∷ rounds) p =
      go_on-some x m p (process (handle s now) m (some x) p) _
        (process_as-Commits (unmarshal m.value) (some x) m p)
