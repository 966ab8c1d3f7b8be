-- ===== src/Services/System/Answers.antt =====
-- The events that the ingest-api shows to its callers.
use mathlib.Core.Path.{subst}
use mathlib.Core.List.{Memᴰ}
use mathlib.Core.List.Memᴰ
use mathlib.Core.Option.{some-injective}
use event_streaming_and_audi.Services.System.{Setup, System, Reach, answered, queue}
use event_streaming_and_audi.Services.System.Consumption.{OnlyPuts}
use event_streaming_and_audi.Services.System.Topics.{OnlyWrites}
use event_streaming_and_audi.Services.System.State.{IsSound}
use event_streaming_and_audi.Services.System.Sound.{Reach-IsSound}
use event_streaming_and_audi.Services.System.Reads.{
  OnlyFinds, Reach-list_all, Reach-query_by_stream,
}
use event_streaming_and_audi.Services.System.Silent.{
  events_of, auth_token-ShowsNone, admit-ShowsNone, auth_issue-ShowsNone, create_tenant-ShowsNone,
}
use event_streaming_and_audi.Auth.{Identity, with_identity, identity_from_context}
use event_streaming_and_audi.Elasticsearch.{searcher}
use event_streaming_and_audi.Elasticsearch.Isolation.{HonoursFilters}
use event_streaming_and_audi.Errors.{Result, ok, err, Result-cases}
use event_streaming_and_audi.Event.{Event, Time, Uuid}
use event_streaming_and_audi.Event.Wire.{Wire}
use event_streaming_and_audi.Http.Created.{serve-Outcome}
use event_streaming_and_audi.Http.Dto.{EventResponse, Response}
use event_streaming_and_audi.Http.Handler.{
  auth_issue, domain_to_event_response, handle_health, list_events, get_by_stream, write_json,
  write_error, parse_int_param,
}
use event_streaming_and_audi.Http.Router.{
  Route, serve, auth, admit, get_health, post_auth_token, post_auth_issue, post_tenants,
  post_events, list_events_route, get_stream_route,
}
use event_streaming_and_audi.Postgres.{Columns, Row, Database}
use event_streaming_and_audi.Postgres.Contents.{IsStored}
use event_streaming_and_audi.Query.{ListQuery, Query, list_all, query_by_stream}
use event_streaming_and_audi.Request.{Request}
use event_streaming_and_audi.Prelude.{
  String, List, pos, ◌≡◌, ◌==◌, [], ◌∷◌, map, refl, sym, ap, ◌∙◌, All, All-map, Bool-cases, inl,
  inr,
}

-- The event as an answer has to show it.
pub record Shows (e : Event) (v : EventResponse) : Type 0 where
  pub id : v.id ≡ e.id
  pub tenant_id : v.tenant_id ≡ e.tenant_id
  pub stream_id : v.stream_id ≡ e.stream_id
  pub type : v.type ≡ e.type
  pub source : v.source ≡ e.source
  pub version : v.version ≡ e.version
  pub occurred_at : v.occurred_at ≡ e.occurred_at
  pub payload : v.payload ≡ e.payload
  pub metadata : v.metadata ≡ e.metadata

response-Shows : (e : Event) (v : EventResponse) → v ≡ domain_to_event_response e → Shows e v
unfolding domain_to_event_response
response-Shows e v same = record {
  id = ap (λ (x : EventResponse). x.id) same;
  tenant_id = ap (λ (x : EventResponse). x.tenant_id) same;
  stream_id = ap (λ (x : EventResponse). x.stream_id) same;
  type = ap (λ (x : EventResponse). x.type) same;
  source = ap (λ (x : EventResponse). x.source) same;
  version = ap (λ (x : EventResponse). x.version) same;
  occurred_at = ap (λ (x : EventResponse). x.occurred_at) same;
  payload = ap (λ (x : EventResponse). x.payload) same;
  metadata = ap (λ (x : EventResponse). x.metadata) same;
}

-- The answer shows a stored event of the identity's tenant.
abbrev pub IsOwn : Columns → List Row → Identity → EventResponse → Type 0
IsOwn c rows i v = (v.tenant_id ≡ i.tenant_id) × ((e : Event) × Shows e v × IsStored c rows e)

shown-IsOwn :
    (c : Columns) (rows : List Row) (i : Identity) (v : EventResponse) (es : List Event)
    → All (λ e. (e.tenant_id ≡ i.tenant_id) × IsStored c rows e) es
    → Memᴰ v (map domain_to_event_response es)
    → IsOwn c rows i v
unfolding domain_to_event_response
shown-IsOwn c rows i v [] h m = elim m [ ]
shown-IsOwn c rows i v (e ∷ es) ((own, stored), h) m = elim (Memᴰ.cases_cons m) [
  | inl same ↦ (of_response same, (e, response-Shows e v same, stored))
  | inr late ↦ shown-IsOwn c rows i v es h late
]
  where
    of_response : v ≡ domain_to_event_response e → v.tenant_id ≡ i.tenant_id
    of_response same = ap (λ (x : EventResponse). x.tenant_id) same ∙ own

silent : (v : EventResponse) (vs : List EventResponse) → vs ≡ [] → ¬ Memᴰ v vs
silent v vs h m = elim (subst (Memᴰ v) h m) [ ]

module _ {P I D : Type 0} (setup : Setup P I D) (log : P → String → List Wire)
    (Holds : I → Uuid → Wire → Type 0) (writes : OnlyWrites setup.writer log)
    (puts : OnlyPuts setup.client Holds) (finds : OnlyFinds setup.client Holds)
    (lawful : HonoursFilters setup.client) {s t : System P I D} (sound : IsSound setup log Holds s)
    (reached : Reach setup log s t) where
  -- The caller of a request is the identity that the authenticator gives.
  abbrev IsShown : Time → Request → List Row → EventResponse → Type 0
  IsShown now r rows v =
      (i : Identity) × (setup.authenticator.authenticate now r ≡ ok i)
      × IsOwn setup.columns rows i v

  admit-IsShown :
      (o : Result Identity) (now : Time) (r : Request) (next : Request → Response)
      (v : EventResponse)
      → setup.authenticator.authenticate now r ≡ o
      → ((i : Identity)
          → Memᴰ v (events_of (next (record r { context = with_identity r.context i })).body)
          → IsOwn setup.columns t.db.rows i v)
      → Memᴰ v (events_of (admit o (λ w. w) next r).body)
      → IsShown now r t.db.rows v
  unfolding write_error write_json
  admit-IsShown (err x) now r next v known shows m = elim m [ ]
  admit-IsShown (ok i) now r next v known shows m = (i, known, shows i m)

  list_events-IsOwn :
      (r : Request) (i : Identity) (v : EventResponse)
      → Memᴰ v (
          events_of
            (list_events
              (searcher setup.client setup.index_name)
              (record r { context = with_identity r.context i })
              t.progress.handled.0).body)
      → IsOwn setup.columns t.db.rows i v
  unfolding list_events write_error write_json with_identity identity_from_context
  list_events-IsOwn r i v m =
      let q : ListQuery = record {
        limit = parse_int_param (record r { context = with_identity r.context i }) "limit" (pos 20);
        offset =
            parse_int_param (record r { context = with_identity r.context i }) "offset" (pos 0);
      } in
      elim (Result-cases (
        list_all (searcher setup.client setup.index_name) (with_identity r.context i) q
          t.progress.handled.0)) [
            | inr (x, failed) ↦ elim (rw failed at m) [ ]
            | inl (l, listed) ↦
                let (j, present, own) =
                  Reach-list_all setup log Holds writes puts finds lawful sound reached
                    (with_identity r.context i) q l listed in
                let same : i ≡ j = some-injective i j present in
                subst (λ k. IsOwn setup.columns t.db.rows k v) (sym same)
                  (shown-IsOwn setup.columns t.db.rows j v l.events own (rw listed at m))
          ]

  get_by_stream-IsOwn :
      (r : Request) (i : Identity) (v : EventResponse)
      → Memᴰ v (
          events_of
            (get_by_stream
              (searcher setup.client setup.index_name)
              (record r { context = with_identity r.context i })
              t.progress.handled.0).body)
      → IsOwn setup.columns t.db.rows i v
  unfolding get_by_stream write_error write_json with_identity identity_from_context
  get_by_stream-IsOwn r i v m = elim (Bool-cases (r.stream_id == "")) [
    | inl missing ↦ elim (rw missing at m) [ ]
    | inr given ↦
        let q : Query = record {
          stream_id = r.stream_id;
          limit =
              parse_int_param (record r { context = with_identity r.context i }) "limit" (pos 20);
          offset =
              parse_int_param (record r { context = with_identity r.context i }) "offset" (pos 0);
        } in
        elim (Result-cases (
          query_by_stream (searcher setup.client setup.index_name) (with_identity r.context i) q
            t.progress.handled.0)) [
              | inr (x, failed) ↦ elim (rw (given, failed) at m) [ ]
              | inl (l, found) ↦
                  let (j, present, own) =
                    Reach-query_by_stream setup log Holds writes puts finds lawful sound reached
                      (with_identity r.context i) q l found in
                  let same : i ≡ j = some-injective i j present in
                  subst (λ k. IsOwn setup.columns t.db.rows k v) (sym same)
                    (shown-IsOwn setup.columns t.db.rows j v l.events
                      (All-map (λ e p. (p.0.0, p.1)) l.events own) (rw (given, found) at m))
            ]
  ]

  -- Where Kafka and Elasticsearch hold nothing but what is written to them, and a search finds
  -- documents of the index that pass its clauses: every event that any route answers, in a state that
  -- is reached from a sound one, is of the tenant of the identity that the authenticator has given the
  -- caller, and shows, field by field, an event that is in the table, with all its fields as the columns
  -- keep them, when the answer is given.
  pub answered-IsShown :
      (route : Route) (id : Uuid) (now : Time) (r : Request) (v : EventResponse)
      → Memᴰ v (events_of (answered setup log route id now r t).0.body)
      → IsShown now r (answered setup log route id now r t).1.rows v
  unfolding serve auth handle_health write_json domain_to_event_response
  answered-IsShown get_health id now r v m = elim m [ ]
  answered-IsShown post_auth_token id now r v m =
      absurd (silent v _ (auth_token-ShowsNone setup.authenticator now r) m)
  answered-IsShown post_auth_issue id now r v m = absurd (
      silent v _
        (admit-ShowsNone (setup.authenticator.authenticate now r)
          (λ r'. auth_issue setup.format setup.issuer now r') r
          (λ r'. auth_issue-ShowsNone setup.format setup.issuer now r'))
        m)
  answered-IsShown post_tenants id now r v m =
      absurd
        (silent v _ (create_tenant-ShowsNone setup.format setup.admin_key setup.issuer now r) m)
  answered-IsShown list_events_route id now r v m =
      admit-IsShown (setup.authenticator.authenticate now r) now r
        (λ r'. list_events (searcher setup.client setup.index_name) r' t.progress.handled.0) v refl
        (λ i. list_events-IsOwn r i v) m
  answered-IsShown get_stream_route id now r v m =
      admit-IsShown (setup.authenticator.authenticate now r) now r
        (λ r'. get_by_stream (searcher setup.client setup.index_name) r' t.progress.handled.0) v
        refl (λ i. get_by_stream-IsOwn r i v) m
  answered-IsShown post_events id now r v m =
      let (late, _) = Reach-IsSound setup log Holds writes puts sound reached in
      elim (serve-Outcome setup.columns setup.format setup.through_any queue
        (searcher setup.client setup.index_name) setup.authenticator setup.issuer setup.admin_key id
        now r t.progress.handled.0 t.db t.unpublished late.rows) [
          | inr (_, _, _, (x, failed)) ↦ absurd (silent v _ (ap events_of failed) m)
          | inl (i, req, _, known, _, made) ↦
              let shown = Memᴰ.eq_of_singleton (subst (λ b. Memᴰ v (events_of b)) made.answer m) in
              (
                i,
                known,
                (
                  ap (λ (x : EventResponse). x.tenant_id) shown ∙ made.tenant_id,
                  (
                    made.e,
                    response-Shows made.e v shown,
                    (
                      made.row,
                      subst (λ (d : Database). Memᴰ made.row d.rows) (sym made.stored)
                          (Memᴰ.append_right t.db.rows (Memᴰ.head refl)),
                      made.kept,
                    ),
                  ),
                ),
              )
        ]
