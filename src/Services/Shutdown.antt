-- ===== src/Services/Shutdown.antt =====
-- The ingest-api and the replay-service from their start to their end.
-- What happens while a server serves: its serving call returns an error, which is
-- http.ErrServerClosed or another one, or a signal ends the context; then the server is shut down,
-- and the error of the shutdown is only logged.
use event_streaming_and_audi.Prelude.{Bool, List, String, Option, ◌≡◌, ◌⊎◌, [], ◌∷◌, true, false}
use event_streaming_and_audi.Postgres.Connect.{PoolLibrary}
use event_streaming_and_audi.Services.Startup.{
  Libraries, Waits, IngestApi, start_replay, World, start_ingest_api,
}
use event_streaming_and_audi.Errors.{Error, Exit, Result, running, err, exited, ok}
use event_streaming_and_audi.Config.{Config}
use event_streaming_and_audi.Kafka.TopicManager.Provision.{Serves}
use event_streaming_and_audi.Services.Started.{IsStarted}

pub data Happening : Type 0 where
  served : (closed : Bool) → Error → Happening
  signal : (shutdown : Option Error) → Happening

-- The goroutine that serves, and main, which waits for the signal.
unfoldable pub serve_until : List Happening → Exit
serve_until [] = running
serve_until (served true x ∷ later) = serve_until later
serve_until (served false x ∷ later) = exited 1
serve_until (signal o ∷ later) = exited 0

-- Whether a signal comes before the server fails, and the other way round.
abbrev pub IsSignalled : List Happening → Type 0
IsSignalled [] = ⊥
IsSignalled (served true x ∷ later) = IsSignalled later
IsSignalled (served false x ∷ later) = ⊥
IsSignalled (signal o ∷ later) = Unit

abbrev pub IsFailed : List Happening → Type 0
IsFailed [] = ⊥
IsFailed (served true x ∷ later) = IsFailed later
IsFailed (served false x ∷ later) = Unit
IsFailed (signal o ∷ later) = ⊥

-- Whether nothing has happened yet that ends the process.
abbrev pub IsQuiet : List Happening → Type 0
IsQuiet [] = Unit
IsQuiet (served true x ∷ later) = IsQuiet later
IsQuiet (served false x ∷ later) = ⊥
IsQuiet (signal o ∷ later) = ⊥

-- main of the replay-service
abbrev pub serve_replay : {D : Type 0} → List Happening → Result String × D → Exit
serve_replay happenings (err x, d) = exited 1
serve_replay happenings (ok addr, d) = serve_until happenings

module _ {D : Type 0} (pool : PoolLibrary D) (listen : String → Option Error) where
  unfoldable pub replay_main : Config → List Happening → D → Exit
  replay_main cfg happenings d = serve_replay happenings (start_replay pool listen cfg d)

-- How a server that has started stands.
abbrev pub Served : List Happening → Exit → Type 0
Served happenings exit =
    ((exit ≡ running) × IsQuiet happenings)
    ⊎ (((exit ≡ exited 0) × IsSignalled happenings) ⊎ ((exit ≡ exited 1) × IsFailed happenings))

module _ {D C S : Type 0} (libs : Libraries D C S) (waits : Waits C S) where
  abbrev pub serve_api : List Happening → Result IngestApi × World D C S → Exit
  serve_api happenings (err x, w) = exited 1
  serve_api happenings (ok api, w) = serve_until happenings

  -- main of the ingest-api
  unfoldable pub ingest_api_main : Config → List Happening → World D C S → Exit
  ingest_api_main cfg happenings w = serve_api happenings (start_ingest_api libs waits cfg w)

  module _ (exists : C → String → Bool) (serves : Serves libs.cluster exists) (cfg : Config)
      (happenings : List Happening) where
    abbrev pub Ending : World D C S → Exit → Type 0
    Ending w exit =
        ((x : Error) × (w' : World D C S) × (start_ingest_api libs waits cfg w ≡ (err x, w'))
          × (exit ≡ exited 1))
        ⊎ ((api : IngestApi) × (w' : World D C S) × IsStarted libs waits exists serves cfg api
              w'.kafka
            × Served happenings exit)
