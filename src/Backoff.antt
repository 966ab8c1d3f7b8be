-- ===== src/Backoff.antt =====
-- The waits of the retry loops of kafka/topic_manager.go and elasticsearch/indexer.go.
use event_streaming_and_audi.Prelude.{ℕ, suc, ◌*◌, ◌+◌, zero}

-- The seconds waited after the attempts from the given one on: twice the number of each.
abbrev pub backoff : (left attempt : ℕ) → ℕ
backoff zero attempt = 0
backoff (suc left) attempt = attempt * 2 + backoff left (attempt + 1)
