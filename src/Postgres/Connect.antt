-- ===== src/Postgres/Connect.antt =====
-- NewEventStore: the pool, the ping and the schema.
-- pgxpool, with the pools that are open as a part of its state: New with the DSN, Ping, Exec of the
-- DDL, and Close.
use event_streaming_and_audi.Prelude.{String, Option, ℕ, ◌≡◌, none, ◌+◌, ◌∙◌, some, refl}
use event_streaming_and_audi.Config.{PostgresConfig}
use event_streaming_and_audi.Errors.{Error, wrapped}

pub record PoolLibrary (D : Type 0) : Type 0 where
  pub new : String → D → Option Error × D
  pub ping : D → Option Error × D
  pub exec_ddl : D → Option Error × D
  pub close : D → D

module _ {D : Type 0} (lib : PoolLibrary D) where
  -- An error after the pool is made closes it.
  abbrev pub applied : Option Error × D → Option Error × D
  applied (none, d) = (none, d)
  applied (some x, d) = (some (wrapped "apply schema" x), lib.close d)

  abbrev pub pinged : Option Error × D → Option Error × D
  pinged (none, d) = applied (lib.exec_ddl d)
  pinged (some x, d) = (some (wrapped "ping postgres" x), lib.close d)

  abbrev pub connected : Option Error × D → Option Error × D
  connected (none, d) = pinged (lib.ping d)
  connected (some x, d) = (some (wrapped "connect postgres" x), d)

  -- NewEventStore
  unfoldable pub new_event_store : PostgresConfig → D → Option Error × D
  new_event_store cfg d = connected (lib.new cfg.dsn d)

-- The library, with the number of the pools that are open.
pub record Counts {D : Type 0} (lib : PoolLibrary D) (open_pools : D → ℕ) : Type 0 where
  pub made :
      (dsn : String) (d d' : D) → lib.new dsn d ≡ (none, d') → open_pools d' ≡ open_pools d + 1
  pub refused :
      (dsn : String) (d d' : D) (x : Error)
      → lib.new dsn d ≡ (some x, d')
      → open_pools d' ≡ open_pools d
  pub pings : (d : D) → open_pools (lib.ping d).1 ≡ open_pools d
  pub execs : (d : D) → open_pools (lib.exec_ddl d).1 ≡ open_pools d
  pub closes : (d : D) (n : ℕ) → open_pools d ≡ n + 1 → open_pools (lib.close d) ≡ n

-- How many pools are open after a call that began with n.
abbrev pub IsClosed : Option Error → ℕ → ℕ → Type 0
IsClosed none before now = now ≡ before + 1
IsClosed (some x) before now = now ≡ before

module _ {D : Type 0} (lib : PoolLibrary D) (open_pools : D → ℕ)
    (counts : Counts lib open_pools) where
  applied-IsClosed :
      (r : Option Error × D) (n : ℕ)
      → open_pools r.1 ≡ n + 1
      → IsClosed (applied lib r).0 n (open_pools (applied lib r).1)
  applied-IsClosed (none, d) n h = h
  applied-IsClosed (some x, d) n h = counts.closes d n h

  pinged-IsClosed :
      (r : Option Error × D) (n : ℕ)
      → open_pools r.1 ≡ n + 1
      → IsClosed (pinged lib r).0 n (open_pools (pinged lib r).1)
  pinged-IsClosed (none, d) n h = applied-IsClosed (lib.exec_ddl d) n (counts.execs d ∙ h)
  pinged-IsClosed (some x, d) n h = counts.closes d n h

  connected-IsClosed :
      (dsn : String) (d : D) (r : Option Error × D)
      → lib.new dsn d ≡ r
      → IsClosed (connected lib r).0 (open_pools d) (open_pools (connected lib r).1)
  connected-IsClosed dsn d (none, d') h =
      pinged-IsClosed (lib.ping d') (open_pools d) (counts.pings d' ∙ counts.made dsn d d' h)
  connected-IsClosed dsn d (some x, d') h = counts.refused dsn d d' x h

  -- With a library whose New opens a pool and whose Close closes it, NewEventStore leaves one more pool open when it succeeds, and none when it fails, at whichever
  -- step that is.
  pub new_event_store-IsClosed :
      (cfg : PostgresConfig) (d : D)
      → IsClosed
          (new_event_store lib cfg d).0
          (open_pools d)
          (open_pools (new_event_store lib cfg d).1)
  unfolding new_event_store
  new_event_store-IsClosed cfg d = connected-IsClosed cfg.dsn d (lib.new cfg.dsn d) refl
