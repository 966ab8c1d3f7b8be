-- ===== src/Elasticsearch/Startup.antt =====
-- How long NewIndexer tries to reach Elasticsearch.
use event_streaming_and_audi.Elasticsearch.{retry, connect_from, new_indexer, Client, ensure_index}
use event_streaming_and_audi.Backoff.{backoff}
use event_streaming_and_audi.Errors.{Error, text, Result, err, ok}
use event_streaming_and_audi.Prelude.{
  String, Option, ℕ, ◌≡◌, ◌+◌, some, arith, suc, none, zero, ◌*◌, ◌≤◌, ◌<◌, refl,
}

retry-fails :
    {S : Type 0} (client : Client S) (name : String) (r : Option Error × S) (slept bound : ℕ)
    (y : Error) (next : Error → Result (Unit {0}) × S × ℕ)
    → ((x : Error) → (next x).0 ≡ err y → (next x).2 ≡ bound)
    → (retry client name r slept next).0 ≡ err y
    → (retry client name r slept next).2 ≡ bound
retry-fails client name (none, s) slept bound y next k h = cc
retry-fails client name (some x, s) slept bound y next k h = k x h

module _ {S : Type 0} (client : Client S) (name : String) (between : ℕ → S → S) where
  connect_from-slept :
      (left attempt : ℕ) (last : Error) (s : S) (slept : ℕ) (y : Error)
      → (connect_from client name between left attempt last s slept).0 ≡ err y
      → (connect_from client name between left attempt last s slept).2
        ≡ slept + backoff left attempt
  unfolding connect_from
  connect_from-slept zero attempt last s slept y h = omega arith
  connect_from-slept (suc left) attempt last s slept y h =
      let s' : S = between attempt (ensure_index client name s).1 in
      retry-fails client name (ensure_index client name s) slept _ y
        (λ x. connect_from client name between left (attempt + 1) x s' (slept + attempt * 2))
        (λ x g. omega (arith, connect_from-slept left (attempt + 1) x s' (slept + attempt * 2) y g))
        h

  -- When NewIndexer gives up, it has slept 110 seconds, the time of the attempts not counted.
  pub new_indexer-slept :
      (s : S) (y : Error)
      → (new_indexer client name between s).0 ≡ err y
      → (new_indexer client name between s).2 ≡ 110
  unfolding new_indexer
  new_indexer-slept s y h = connect_from-slept 10 1 (text "") s 0 y h

  -- The server before attempt number `attempt + k`, if all attempts before it were made.
  abbrev pub server_at : (k attempt : ℕ) → S → S
  server_at zero attempt s = s
  server_at (suc k) attempt s =
      server_at k (attempt + 1) (between attempt (ensure_index client name s).1)

  retry-ready :
      (r : Option Error × S) (slept bound : ℕ) (next : Error → Result (Unit {0}) × S × ℕ)
      → slept ≤ bound
      → ((x : Error) → r.0 ≡ some x → ((next x).0 ≡ ok tt) × ((next x).2 ≤ bound))
      → ((retry client name r slept next).0 ≡ ok tt) × ((retry client name r slept next).2 ≤ bound)
  retry-ready (none, s) slept bound next low later = (refl, low)
  retry-ready (some x, s) slept bound next low later = later x refl

  connect_from-ready :
      (k left attempt : ℕ) (last : Error) (s : S) (slept : ℕ)
      → k < left
      → (ensure_index client name (server_at k attempt s)).0 ≡ none
      → ((connect_from client name between left attempt last s slept).0 ≡ ok tt)
        × ((connect_from client name between left attempt last s slept).2
            ≤ slept + backoff k attempt)
  unfolding connect_from
  connect_from-ready k zero attempt last s slept below up = absurd (omega arith)
  connect_from-ready zero (suc left) attempt last s slept below up =
      retry-ready (ensure_index client name s) slept _
        (λ x.
          connect_from client name between left (attempt + 1) x
            (between attempt (ensure_index client name s).1) (slept + attempt * 2))
        (omega arith) (λ x failed. cc (up, failed))
  connect_from-ready (suc k) (suc left) attempt last s slept below up =
      let s' : S = between attempt (ensure_index client name s).1 in
      retry-ready (ensure_index client name s) slept _
        (λ x. connect_from client name between left (attempt + 1) x s' (slept + attempt * 2))
        (omega arith)
        (λ x failed.
          let (done, short) =
            connect_from-ready k left (attempt + 1) x s' (slept + attempt * 2) (omega arith) up in
          (done, omega (arith, short)))

  -- If Elasticsearch answers one of the ten attempts, NewIndexer succeeds, and has then slept at most
  -- the waits of the attempts before that one.
  pub new_indexer-ready :
      (k : ℕ) (s : S)
      → k < 10
      → (ensure_index client name (server_at k 1 s)).0 ≡ none
      → ((new_indexer client name between s).0 ≡ ok tt)
        × ((new_indexer client name between s).2 ≤ backoff k 1)
  unfolding new_indexer
  new_indexer-ready k s below up =
      let (done, short) = connect_from-ready k 10 1 (text "") s 0 below up in
      (done, omega (arith, short))
