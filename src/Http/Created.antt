-- ===== src/Http/Created.antt =====
-- POST /events over the PostgreSQL store: when the answer is 201, and what is stored then.
use mathlib.Core.Option.{some-injective}
use mathlib.Core.Path.{subst}
use event_streaming_and_audi.Http.Router.{serve, auth, admit, post_events}
use event_streaming_and_audi.Http.Handler.{
  handle_ingest, ingest_decoded, ingest_response, command_of, write_json, write_error,
}
use event_streaming_and_audi.Http.Decode.{decode_ingest}
use event_streaming_and_audi.Http.Dto.{
  Response, IngestRequest, event, ErrorMessage, error, error_text, literal,
}
use event_streaming_and_audi.Request.{Request}
use event_streaming_and_audi.Authenticator.{Authenticator}
use event_streaming_and_audi.Auth.{
  Issuer, Identity, with_identity, identity_from_context, tenant_identity_iff,
}
use event_streaming_and_audi.Errors.{Error, err, ok, Result}
use event_streaming_and_audi.Event.{Event, Time, Uuid, Publisher, Searcher}
use event_streaming_and_audi.Event.Json.{Json}
use event_streaming_and_audi.Ingest.{ingest, Command}
use event_streaming_and_audi.Ingest.Outcomes.{ingest_iff, ingest-fails, draft}
use event_streaming_and_audi.Ingest.Stored.{append-ok}
use event_streaming_and_audi.Postgres.{Columns, Database, Row, event_store, append}
use event_streaming_and_audi.Postgres.Versions.{IsWellFormed, stream_length, has_id, values_for-ok}
use event_streaming_and_audi.Postgres.Fresh.{append-fresh, clashes-has_id}
use event_streaming_and_audi.Postgres.Appends.{append-cases}
use event_streaming_and_audi.Prelude.{
  none, ◌≡◌, String, ◌++◌, Option, ◌∷◌, ◌⊎◌, inr, inl, refl, [], arith, ◌∙◌, ◌≢◌, sym, ap, pos, ◌+◌,
  false,
}
use event_streaming_and_audi.Postgres.Contents.{IsRowOf, values_for-IsRowOf}

module _ {P Q : Type 0} (c : Columns) (format : Time → String) (through_any : Json → Option Json)
    (publisher : Publisher P) (searcher : Searcher Q) (a : Authenticator) (issuer : Option Issuer)
    (admin_key : String) where
  -- The answer holds the event, which is stored as one more row, for the tenant of the caller, and
  -- is handed to the publisher.
  pub record IsCreated (i : Identity) (req : IngestRequest) (db : Database) (p : P) (w : Response)
      (db' : Database) (p' : P) : Type 0 where
    pub e : Event
    pub row : Row
    pub answer : w.body ≡ event e
    pub stored : db' ≡ record db { rows = db.rows ++ row ∷ [] }
    pub kept : IsRowOf c e row
    pub fresh : has_id row.id db.rows ≡ false
    pub version : row.version ≡ pos (stream_length row.stream_id db.rows + 1)
    pub tenant_id : e.tenant_id ≡ i.tenant_id
    pub stream_id : e.stream_id ≡ req.stream_id
    pub named : req.stream_id ≢ ""
    pub tenant : i.tenant_id ≢ ""
    pub published : p' ≡ (publisher.publish e p).1

  -- The event is stored for the caller, but the answer of the database was lost: the publisher does
  -- not get it.
  pub record IsUnanswered (now : Time) (r : Request) (db : Database) (db' : Database) : Type 0 where
    pub i : Identity
    pub req : IngestRequest
    pub known : a.authenticate now r ≡ ok i
    pub decoded : decode_ingest through_any r.body ≡ ok req
    pub e : Event
    pub row : Row
    pub lost : db.reply ≢ none
    pub stored : db' ≡ record db { rows = db.rows ++ row ∷ [] }
    pub kept : IsRowOf c e row
    pub fresh : has_id row.id db.rows ≡ false
    pub version : row.version ≡ pos (stream_length row.stream_id db.rows + 1)
    pub tenant_id : e.tenant_id ≡ i.tenant_id
    pub stream_id : e.stream_id ≡ req.stream_id

  -- The two ways in which a request may end.
  abbrev pub Outcome : Time → Request → Database → P → Response × Database × P → Type 0
  Outcome now r db p answered =
      ((i : Identity) × (req : IngestRequest) × (answered.0.status ≡ 201)
        × (a.authenticate now r ≡ ok i)
        × (decode_ingest through_any r.body ≡ ok req)
        × IsCreated i req db p answered.0 answered.1 answered.2)
      ⊎ (((answered.0.status ≡ 400) ⊎ ((answered.0.status ≡ 401) ⊎ (answered.0.status ≡ 422)))
          × ((answered.1 ≡ db) ⊎ ((answered.0.status ≡ 422) × IsUnanswered now r db answered.1))
          × (answered.2 ≡ p)
          × ((m : ErrorMessage) × (answered.0.body ≡ error m)))

  failed_append :
      (i j : Identity) (req : IngestRequest) (id : Uuid) (now : Time) (r : Request) (y : Error)
      (cmd : Command) (db db' : Database)
      → IsWellFormed db.rows
      → a.authenticate now r ≡ ok i
      → decode_ingest through_any r.body ≡ ok req
      → j ≡ i
      → cmd.stream_id ≡ req.stream_id
      → append c (draft j id now cmd) db ≡ (err y, db')
      → (db' ≡ db) ⊎ IsUnanswered now r db db'
  failed_append i j req id now r y cmd db db' wf known decoded same stream h =
      elim (append-cases c (draft j id now cmd) db wf) [
        | inl (x, failed) ↦ inl (ground arith)
        | inr (row, made, free, version, inl (_, done)) ↦ cc (done, h)
        | inr (row, made, free, version, inr (x, cut_off, lost)) ↦ inr (record {
          i = i;
          req = req;
          known = known;
          decoded = decoded;
          e = record (draft j id now cmd) { version = row.version };
          row = row;
          lost = λ k. cc;
          stored = ground arith;
          kept = values_for-IsRowOf c (draft j id now cmd) db row made;
          fresh = clashes-has_id row db.rows free;
          version = version;
          tenant_id = ap (λ (k : Identity). k.tenant_id) same;
          stream_id = stream;
        })
      ]

  ingest_response-Outcome :
      (i : Identity) (req : IngestRequest) (id : Uuid) (now : Time) (r : Request) (db : Database)
      (p : P) (res : Result Event × Database × P)
      → IsWellFormed db.rows
      → a.authenticate now r ≡ ok i
      → decode_ingest through_any r.body ≡ ok req
      → ingest
          (event_store c)
          publisher
          id
          now
          (with_identity r.context i)
          (command_of through_any (event_store c) publisher req)
          db
          p
        ≡ res
      → Outcome now r db p (ingest_response through_any (event_store c) publisher res)
  unfolding event_store write_json write_error with_identity identity_from_context
  ingest_response-Outcome i req id now r db p (err x, db', p') wf known decoded h =
      let (q, change) =
        ingest-fails (event_store c) publisher id now (with_identity r.context i)
          (command_of through_any (event_store c) publisher req) db p x db' p' h in
      inr (
        inr (inr refl),
        elim change [
          | inl same ↦ inl same
          | inr (j, y, at, failed, _) ↦
              elim (failed_append i j req id now r y
                (command_of through_any (event_store c) publisher req) db db' wf known decoded
                (let (present, _) = (tenant_identity_iff (with_identity r.context i) j).0 at in
                  sym (some-injective i j present))
                refl failed) [ inl same ↦ inl same | inr stored ↦ inr (refl, stored) ]
        ],
        q,
        (error_text x, refl),
      )
  ingest_response-Outcome i req id now r db p (ok e, db', p') wf known decoded h =
      let cmd : Command = command_of through_any (event_store c) publisher req in
      let g =
        (ingest_iff (event_store c) publisher id now (with_identity r.context i) cmd db p e db'
            p').0
          h in
      let e₀ : Event = draft g.identity id now cmd in
      let (row, made, shape, rows, v) = append-ok c e₀ e db db' wf g.appended in
      let (_, _, _, key, _) = values_for-ok c e₀ db row made in
      let (present, has) = (tenant_identity_iff (with_identity r.context i) g.identity).0 g.known in
      let same : i ≡ g.identity = some-injective i g.identity present in
      inl (
        i,
        req,
        refl,
        known,
        decoded,
        record {
          e = e;
          row = row;
          answer = refl;
          stored = rows;
          kept =
              subst (λ (f : Event). IsRowOf c f row) (sym shape)
                (values_for-IsRowOf c e₀ db row made);
          fresh = ap (λ k. has_id k db.rows) key ∙ append-fresh c e₀ e db db' g.appended;
          version = v;
          tenant_id =
              ap (λ (f : Event). f.tenant_id) shape ∙ ap (λ (j : Identity). j.tenant_id) (sym same);
          stream_id = ap (λ (f : Event). f.stream_id) shape;
          named = g.complete.0;
          tenant = λ none_given. has (ap (λ (j : Identity). j.tenant_id) (sym same) ∙ none_given);
          published = g.published;
        },
      )

  ingest_decoded-Outcome :
      (i : Identity) (body : Result IngestRequest) (id : Uuid) (now : Time) (r : Request)
      (db : Database) (p : P)
      → IsWellFormed db.rows
      → a.authenticate now r ≡ ok i
      → decode_ingest through_any r.body ≡ body
      → Outcome now r db p (
          ingest_decoded through_any
            (event_store c)
            publisher
            id
            now
            (with_identity r.context i)
            body
            db
            p)
  unfolding write_json write_error
  ingest_decoded-Outcome i (err x) id now r db p wf known decoded =
      inr (inl refl, inl refl, refl, (literal "invalid request body", refl))
  ingest_decoded-Outcome i (ok req) id now r db p wf known decoded =
      ingest_response-Outcome i req id now r db p
        (ingest (event_store c) publisher id now (with_identity r.context i)
          (command_of through_any (event_store c) publisher req) db p)
        wf known decoded refl

  admit-Outcome :
      (o : Result Identity) (id : Uuid) (now : Time) (r : Request) (db : Database) (p : P)
      → IsWellFormed db.rows
      → a.authenticate now r ≡ o
      → Outcome now r db p (
          admit o
            (λ w. (w, db, p))
            (λ r'. handle_ingest through_any (event_store c) publisher id now r' db p)
            r)
  unfolding handle_ingest write_json write_error
  admit-Outcome (err x) id now r db p wf known =
      inr (inr (inl refl), inl refl, refl, (literal "unauthorized", refl))
  admit-Outcome (ok i) id now r db p wf known =
      ingest_decoded-Outcome i (decode_ingest through_any r.body) id now r db p wf known refl

  -- On a table whose streams have no gap, POST /events answers 201 only to a caller with a tenant
  -- whose body is an ingest request, and has then stored the event that it answers, with all its
  -- fields as the columns keep them, as one row of the caller's tenant, with an id that no row had and
  -- the next version of the request's stream, and handed it to the publisher; in every other case it
  -- answers 400, 401 or 422 with an error, and neither the table nor the publisher is changed, except
  -- that with 422 the caller's event may have been stored so when the database's answer was lost.
  pub serve-Outcome :
      (id : Uuid) (now : Time) (r : Request) (q : Q) (db : Database) (p : P)
      → IsWellFormed db.rows
      → Outcome now r db p (
          serve format through_any
            (event_store c)
            publisher
            searcher
            a
            issuer
            admin_key
            post_events
            id
            now
            r
            q
            db
            p)
  unfolding serve auth
  serve-Outcome id now r q db p wf = admit-Outcome (a.authenticate now r) id now r db p wf refl
