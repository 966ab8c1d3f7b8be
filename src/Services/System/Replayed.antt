-- ===== src/Services/System/Replayed.antt =====
-- The read model beside the replay: what the index holds, a replay from PostgreSQL answers.
use mathlib.Core.Path.{subst}
use mathlib.Core.List.{Memᴰ}
use event_streaming_and_audi.Services.System.{Setup, System, Reach}
use event_streaming_and_audi.Services.System.Consumption.{OnlyPuts}
use event_streaming_and_audi.Services.System.Topics.{OnlyWrites}
use event_streaming_and_audi.Services.System.State.{IsSound}
use event_streaming_and_audi.Services.System.Sound.{Reach-IsSound}
use event_streaming_and_audi.Auth.{Context, Identity, tenant_identity}
use event_streaming_and_audi.Errors.{ok}
use event_streaming_and_audi.Event.{Event, Uuid}
use event_streaming_and_audi.Event.Wire.{Wire, of}
use event_streaming_and_audi.Postgres.{Columns, Row, of_stream, event_store}
use event_streaming_and_audi.Postgres.Contents.{IsStored, IsRowOf, IsKept, IsRead-IsKept}
use event_streaming_and_audi.Postgres.Queries.{IsRead, AreRead, IsReadable}
use event_streaming_and_audi.Postgres.Unique.{Memᴰ-select}
use event_streaming_and_audi.Postgres.Versions.{stream_length}
use event_streaming_and_audi.Replay.{replay}
use event_streaming_and_audi.Replay.Whole.{BelongTo, command, from_on, replay-whole}
use event_streaming_and_audi.Prelude.{
  ℕ, ◌+◌, ◌<◌, two63, pos, leb_ℤ, true, String, List, none, some, ◌≡◌, ◌≢◌, ◌∙◌, sym, ap, select,
  All, eq_iff, [], ◌∷◌, refl,
}

-- The event that a row of the list is read as.
AreRead-one :
    (r : Row) (rs : List Row) (es : List Event)
    → AreRead rs es
    → Memᴰ r rs
    → (f : Event) × Memᴰ f es × IsRead r f
AreRead-one r [] es h m = elim m [ ]
AreRead-one r (q ∷ rs) [] h m = absurd h
AreRead-one r (q ∷ rs) (e ∷ es) (first, h) (Memᴰ.head same) =
    (e, Memᴰ.head refl, subst (λ x. IsRead x e) (sym same) first)
AreRead-one r (q ∷ rs) (e ∷ es) (first, h) (Memᴰ.tail m) =
    let (f, late, read) = AreRead-one r rs es h m in (f, Memᴰ.tail late, read)

-- The row of a stored event is among those that a replay of its stream from its version or before
-- reads.
replayed_row :
    (c : Columns) (rows : List Row) (e : Event) (k : ℕ)
    → IsStored c rows e
    → leb_ℤ (pos k) e.version ≡ true
    → (r : Row) × IsRowOf c e r × Memᴰ r (from_on k (select (of_stream e.stream_id) rows))
replayed_row c rows e k (r, m, kept) from =
    let stream : r.stream_id ≡ e.stream_id = kept.stream_id in
    let version : r.version ≡ e.version = kept.version in
    (
      r,
      kept,
      Memᴰ-select (λ x. leb_ℤ (pos k) x.version) (select (of_stream e.stream_id) rows)
          (Memᴰ-select (of_stream e.stream_id) rows m ((eq_iff r.stream_id e.stream_id).1 stream))
          (ap (λ v. leb_ℤ (pos k) v) version ∙ from),
    )

module _ {P I D : Type 0} (setup : Setup P I D) (log : P → String → List Wire)
    (Holds : I → Uuid → Wire → Type 0) (writes : OnlyWrites setup.writer log)
    (puts : OnlyPuts setup.client Holds) where
  -- Where Kafka and Elasticsearch hold nothing but what is written to them: in a state that is reached
  -- from a sound one, an event that the index holds is in the answer to a replay of its stream from
  -- its version or before, with all its fields, the time, the payload and the metadata as the columns
  -- keep them. The connection is up, the caller
  -- has a tenant that owns every row of the stream, the stream has a name and fewer than 2^63 - 1
  -- rows, and their metadata columns are readable.
  pub Reach-replayed :
      {s t : System P I D} (id : Uuid) (e : Event) (ctx : Context) (i : Identity) (k : ℕ)
      → IsSound setup log Holds s
      → Reach setup log s t
      → Holds t.progress.handled.0 id (of e)
      → tenant_identity ctx ≡ some i
      → e.stream_id ≢ ""
      → t.db.fault ≡ none
      → BelongTo i (select (of_stream e.stream_id) t.db.rows)
      → All IsReadable (select (of_stream e.stream_id) t.db.rows)
      → stream_length e.stream_id t.db.rows + 1 < two63
      → leb_ℤ (pos k) e.version ≡ true
      → (es : List Event) × (replay (event_store setup.columns) ctx (command e.stream_id k) t.db
          ≡ ok es)
        × ((f : Event) × Memᴰ f es × IsKept setup.columns e f)
  Reach-replayed {t = t} id e ctx i k sound reached held known stream up own readable small from =
      let (late, _) = Reach-IsSound setup log Holds writes puts sound reached in
      let (g, text, _, stored) = late.indexed id (of e) held in
      let same : e ≡ g = cc in
      let (r, kept, wanted) =
        replayed_row setup.columns t.db.rows e k
          (subst (IsStored setup.columns t.db.rows) (sym same) stored) from in
      let (es, answer, read) =
        replay-whole setup.columns ctx i e.stream_id k t.db late.rows known stream up own readable
          small in
      let (f, among, as_read) = AreRead-one r _ es read wanted in
      (es, answer, (f, among, IsRead-IsKept setup.columns e f r kept as_read))
