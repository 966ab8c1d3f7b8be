-- ===== src/Ingest/Stored.antt =====
-- Ingest over the PostgreSQL store, followed by a replay.
use mathlib.Core.Path.{subst}
use mathlib.Core.Option.{some-injective}
use event_streaming_and_audi.Prelude.{
  ℕ, ◌+◌, List, Option, length, ◌≡◌, ◌≤◌, pos, none, ◌++◌, [], ◌∷◌, arith, leb_ℤ, false, true, suc,
  select-append, inl, inr, refl, String, select, eq_iff, some, All, ◌<◌, two63, ◌≢◌, sym, ◌∙◌, ap,
  All-append, length-append,
}
use event_streaming_and_audi.Replay.{replay}
use event_streaming_and_audi.Ingest.{ingest, Command}
use event_streaming_and_audi.Postgres.{
  Columns, values_for, Row, Database, append, of_stream, event_store,
}
use event_streaming_and_audi.Event.{Event, StringMap, Publisher, Uuid, Time}
use event_streaming_and_audi.Postgres.Versions.{
  Ascends, IsWellFormed, stream_length, values_for-ok, insert-IsWellFormed,
}
use event_streaming_and_audi.Event.Metadata.{unmarshal_map, marshal_map}
use event_streaming_and_audi.Errors.{ok}
use event_streaming_and_audi.Replay.Whole.{from_on, BelongTo, command, replay-whole}
use event_streaming_and_audi.Postgres.Appends.{append-cases}
use event_streaming_and_audi.Postgres.Contents.{IsRowOf, IsKept, IsRead-IsKept, values_for-IsRowOf}
use event_streaming_and_audi.Postgres.Queries.{AreRead, IsRead, IsReadable}
use event_streaming_and_audi.Auth.{Context, Identity, tenant_identity}
use event_streaming_and_audi.Ingest.Outcomes.{ingest_iff, draft}

-- A JSONB column keeps the metadata of an event a map of texts.
abbrev pub KeepsMaps : Columns → Type 0
KeepsMaps c =
    (m : Option StringMap)
    → (m' : Option StringMap) × (unmarshal_map (c.jsonb (marshal_map m)) ≡ ok m')

from_on-past : (k n : ℕ) (rs : List Row) → Ascends n rs → n + length rs ≤ k → from_on k rs ≡ []
from_on-past k n [] a le = refl
from_on-past k n (r ∷ rs) (v, a) le =
    let test : leb_ℤ (pos k) r.version ≡ false = ground arith in
    rw test (from_on-past k (suc n) rs a (omega arith))

-- The last row of a stream is what a replay from its version finds.
from_on-last :
    (rs : List Row) (r : Row)
    → Ascends 1 rs
    → r.version ≡ pos (length rs + 1)
    → from_on (length rs + 1) (rs ++ r ∷ []) ≡ r ∷ []
from_on-last rs r a v =
    let test : leb_ℤ (pos (length rs + 1)) r.version ≡ true = ground arith in
    rw (select-append (λ (q : Row). leb_ℤ (pos (length rs + 1)) q.version) rs (r ∷ []))
      (rw (test, from_on-past (length rs + 1) 1 rs a (omega arith)))

values_for-up :
    (c : Columns) (e : Event) (db : Database) (r : Row) → values_for c e db ≡ ok r → db.fault ≡ none
unfolding values_for
values_for-up c e db r h = ground arith

-- What an append that succeeds has written.
pub append-ok :
    (c : Columns) (e e' : Event) (db db' : Database)
    → IsWellFormed db.rows
    → append c e db ≡ (ok e', db')
    → (r : Row) × (values_for c e db ≡ ok r)
      × (e' ≡ record e { version = r.version })
      × (db' ≡ record db { rows = db.rows ++ r ∷ [] })
      × (r.version ≡ pos (stream_length r.stream_id db.rows + 1))
append-ok c e e' db db' wf h = elim (append-cases c e db wf) [
  | inl (x, failed) ↦ cc (failed, h)
  | inr (r, made, free, v, inl (_, done)) ↦ (r, made, ground arith, ground arith, v)
  | inr (r, made, free, v, inr (x, _, lost)) ↦ cc (lost, h)
]

one-IsRead :
    (r : Row) (es : List Event) → AreRead (r ∷ []) es → (e : Event) × (es ≡ e ∷ []) × IsRead r e
one-IsRead r [] h = absurd h
one-IsRead r (e ∷ []) h = (e, refl, h.0)
one-IsRead r (e ∷ f ∷ es) h = absurd h.1

select-last :
    (s : String) (rows : List Row) (r : Row)
    → r.stream_id ≡ s
    → select (of_stream s) (rows ++ r ∷ []) ≡ select (of_stream s) rows ++ r ∷ []
select-last s rows r e =
    let test : of_stream s r ≡ true = (eq_iff r.stream_id s).1 e in rw select-append (rw test)

-- A replay from the version of a row that has just been inserted answers with its event.
replay-last :
    (c : Columns) (ctx : Context) (i : Identity) (s : String) (db : Database) (r : Row)
    → IsWellFormed db.rows
    → tenant_identity ctx ≡ some i
    → s ≢ ""
    → db.fault ≡ none
    → BelongTo i (select (of_stream s) db.rows)
    → All IsReadable (select (of_stream s) db.rows)
    → stream_length s db.rows + 2 < two63
    → r.stream_id ≡ s
    → r.tenant_id ≡ i.tenant_id
    → IsReadable r
    → r.version ≡ pos (stream_length s db.rows + 1)
    → (stored : Event) × (replay
          (event_store c)
          ctx
          (command s (stream_length s db.rows + 1))
          (record db { rows = db.rows ++ r ∷ [] })
        ≡ ok (stored ∷ []))
      × IsRead r stored
replay-last c ctx i s db r wf known name up own readable small stream tenant legible v =
    let before = select (of_stream s) db.rows in
    let split = sym (select-last s db.rows r stream) in
    let after : Database = record db { rows = db.rows ++ r ∷ [] } in
    let wf' =
      insert-IsWellFormed r db.rows wf
        (v ∙ ap (λ t. pos (stream_length t db.rows + 1)) (sym stream)) in
    let own' : BelongTo i (before ++ r ∷ []) =
      All-append (λ q. q.tenant_id ≡ i.tenant_id) before (r ∷ []) own (tenant, tt) in
    let readable' : All IsReadable (before ++ r ∷ []) =
      All-append IsReadable before (r ∷ []) readable (legible, tt) in
    let grown : length (before ++ r ∷ []) + 1 < two63 = rw length-append (omega arith) in
    let (es, answer, read) =
      replay-whole c ctx i s (length before + 1) after wf' known name up
        (subst (BelongTo i) split own') (subst (All IsReadable) split readable')
        (subst (λ qs. length qs + 1 < two63) split grown) in
    let (stored, single, echo) = one-IsRead r es (
      subst (λ qs. AreRead qs es)
        (ap (from_on (length before + 1)) (sym split) ∙ from_on-last before r (wf s) v) read) in
    (stored, answer ∙ ap ok single, echo)

module _ {P : Type 0} (c : Columns) (keeps : KeepsMaps c) (publisher : Publisher P) (id : Uuid)
    (now : Time) (ctx : Context) (i : Identity) (cmd : Command) (db db' : Database) (p p' : P)
    (e : Event) where
  -- After an ingestion into a stream that holds only events of the caller's tenant, a replay from the
  -- version that the caller was told answers with this one event, with all its fields, the time, the payload and the metadata as the
  -- columns keep them, whatever became of its publication. The version is one more than the number
  -- of the stream's events before.
  pub ingest-replay :
      IsWellFormed db.rows
      → tenant_identity ctx ≡ some i
      → BelongTo i (select (of_stream cmd.stream_id) db.rows)
      → All IsReadable (select (of_stream cmd.stream_id) db.rows)
      → stream_length cmd.stream_id db.rows + 2 < two63
      → ingest (event_store c) publisher id now ctx cmd db p ≡ (ok e, db', p')
      → (stored : Event) × (replay
            (event_store c)
            ctx
            (command cmd.stream_id (stream_length cmd.stream_id db.rows + 1))
            db'
          ≡ ok (stored ∷ []))
        × IsKept c e stored
        × (e.version ≡ pos (stream_length cmd.stream_id db.rows + 1))
  unfolding event_store
  ingest-replay wf known own readable small h =
      let g = (ingest_iff (event_store c) publisher id now ctx cmd db p e db' p').0 h in
      let e₀ = draft g.identity id now cmd in
      let (r, made, shape, rows, v) = append-ok c e₀ e db db' wf g.appended in
      let (_, stream, tenant, key, meta) = values_for-ok c e₀ db r made in
      let same : g.identity ≡ i = some-injective g.identity i (sym g.known ∙ known) in
      let (m, legible) = keeps e₀.metadata in
      let (stored, answer, echo) =
        replay-last c ctx i cmd.stream_id db r wf known g.complete.0 (values_for-up c e₀ db r made)
          own readable small stream (tenant ∙ ap (λ j. j.tenant_id) same)
          (m, ap unmarshal_map meta ∙ legible)
          (v ∙ ap (λ t. pos (stream_length t db.rows + 1)) stream) in
      (
        stored,
        subst
            (λ d.
              replay (event_store c) ctx
                (command cmd.stream_id (stream_length cmd.stream_id db.rows + 1)) d
              ≡ ok (stored ∷ []))
            (sym rows) answer,
        IsRead-IsKept c e stored r
            (subst (λ (f : Event). IsRowOf c f r) (sym shape) (values_for-IsRowOf c e₀ db r made))
            echo,
        ap (λ f. f.version) shape ∙ v ∙ ap (λ t. pos (stream_length t db.rows + 1)) stream,
      )
