-- ===== src/Services/System/Versions.antt =====
-- The index beside the versions of the table.
use mathlib.Core.Path.{subst}
use mathlib.Core.List.{Memᴰ}
use event_streaming_and_audi.Services.System.{Setup, System, Reach}
use event_streaming_and_audi.Services.System.Consumption.{OnlyPuts}
use event_streaming_and_audi.Services.System.Topics.{OnlyWrites}
use event_streaming_and_audi.Services.System.State.{IsSound}
use event_streaming_and_audi.Services.System.Sound.{Reach-IsSound}
use event_streaming_and_audi.Event.{Event, Uuid}
use event_streaming_and_audi.Event.Wire.{Wire, of}
use event_streaming_and_audi.Postgres.{Row}
use event_streaming_and_audi.Postgres.Contents.{IsRowOf, IsStored}
use event_streaming_and_audi.Postgres.Unique.{IsStored-one}
use event_streaming_and_audi.Prelude.{String, List, ◌≡◌, sym, ap, ◌∙◌}

module _ {P I D : Type 0} (setup : Setup P I D) (log : P → String → List Wire)
    (Holds : I → Uuid → Wire → Type 0) (writes : OnlyWrites setup.writer log)
    (puts : OnlyPuts setup.client Holds) where
  -- Where Kafka and Elasticsearch hold nothing but what is written to them: two documents of a state
  -- that is reached from a sound one, for events of one stream with one version, are under one id,
  -- which is that of one row of the table, and this row holds both events, column by column: they
  -- differ at most in what a column does not keep of a time, a payload or the metadata.
  pub Reach-one :
      {s t : System P I D} (id id' : Uuid) (e f : Event)
      → IsSound setup log Holds s
      → Reach setup log s t
      → Holds t.progress.handled.0 id (of e)
      → Holds t.progress.handled.0 id' (of f)
      → e.stream_id ≡ f.stream_id
      → e.version ≡ f.version
      → (id ≡ id')
        × ((r : Row) × Memᴰ r t.db.rows
            × (r.id ≡ id)
            × IsRowOf setup.columns e r
            × IsRowOf setup.columns f r)
  Reach-one {t = t} id id' e f sound reached held held' stream version =
      let (late, _) = Reach-IsSound setup log Holds writes puts sound reached in
      let (e₀, text, key, stored) = late.indexed id (of e) held in
      let (f₀, text', key', stored') = late.indexed id' (of f) held' in
      let same : e ≡ e₀ = cc in
      let same' : f ≡ f₀ = cc in
      let (r, m, kept, kept') =
        IsStored-one setup.columns t.db.rows e f late.rows
          (subst (IsStored setup.columns t.db.rows) (sym same) stored)
          (subst (IsStored setup.columns t.db.rows) (sym same') stored') stream version in
      let of_row : r.id ≡ id = kept.id ∙ ap (λ (g : Event). g.id) same ∙ sym key in
      (
        sym of_row ∙ kept'.id ∙ ap (λ (g : Event). g.id) same' ∙ sym key',
        (r, m, of_row, kept, kept'),
      )
