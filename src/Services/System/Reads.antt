-- ===== src/Services/System/Reads.antt =====
-- What the reads of the ingest-api answer in a reachable state.
use mathlib.Core.Path.{subst}
use mathlib.Core.List.{Memᴰ}
use event_streaming_and_audi.Services.System.{Setup, System, Reach}
use event_streaming_and_audi.Services.System.Consumption.{OnlyPuts}
use event_streaming_and_audi.Services.System.Topics.{OnlyWrites, IsText}
use event_streaming_and_audi.Services.System.State.{IsSound}
use event_streaming_and_audi.Services.System.Sound.{Reach-IsSound}
use event_streaming_and_audi.Elasticsearch.{
  Client, SearchBody, Answer, SearchHits, search, searcher, search_body, unmarshal_all, hits_result,
}
use event_streaming_and_audi.Elasticsearch.Isolation.{
  HonoursFilters, list_all-tenant, query_by_stream-own,
}
use event_streaming_and_audi.Errors.{Result, ok, Result-cases}
use event_streaming_and_audi.Event.{Event, Uuid, SearchQuery}
use event_streaming_and_audi.Event.Wire.{Wire, of, unmarshal}
use event_streaming_and_audi.Postgres.{Columns, Row}
use event_streaming_and_audi.Postgres.Contents.{IsStored}
use event_streaming_and_audi.Query.{
  Query, QueryResult, ListQuery, ListResult, or_no_events, list_all, query_by_stream,
}
use event_streaming_and_audi.Auth.{Identity, Context, identity_from_context}
use event_streaming_and_audi.Prelude.{
  String, List, Option, some, ℤ, ◌≡◌, All, All-zip, [], ◌∷◌, inl, inr, refl, arith, sym,
}
use event_streaming_and_audi.Query.Pages.{list_all-IsScoped, query_by_stream-IsScoped}

-- The hits of a search are documents of the index.
abbrev pub OnlyFinds : {I : Type 0} → Client I → (I → Uuid → Wire → Type 0) → Type 0
OnlyFinds {I} client Holds =
    (name : String) (body : SearchBody) (i : I) (r : Answer (Result SearchHits)) (hits : SearchHits)
    → client.search name body i ≡ ok r
    → r.body ≡ ok hits
    → (w : Wire) → Memᴰ w hits.sources
    → (id : Uuid) × Holds i id w

-- Texts of stored events unmarshal to stored events.
unmarshal_first :
    (c : Columns) (rows : List Row) (e : Event) (ws : List Wire) (es : List Event)
    → IsStored c rows e
    → ((fs : List Event) → unmarshal_all ws ≡ ok fs → All (IsStored c rows) fs)
    → unmarshal_all (of e ∷ ws) ≡ ok es
    → All (IsStored c rows) es
unfolding unmarshal_all unmarshal
unmarshal_first c rows e ws es stored rest h = elim (Result-cases (unmarshal_all ws)) [
  | inr (x, bad) ↦ cc (rw bad at h)
  | inl (fs, good) ↦
      let split : e ∷ fs ≡ es = ground arith in
      subst (All (IsStored c rows)) split (stored, rest fs good)
]

unmarshal_all-IsStored :
    (c : Columns) (rows : List Row) (ws : List Wire) (es : List Event)
    → ((w : Wire) → Memᴰ w ws → IsText c rows w)
    → unmarshal_all ws ≡ ok es
    → All (IsStored c rows) es
unfolding unmarshal_all
unmarshal_all-IsStored c rows [] es texts h =
    let none_left : [] ≡ es = ground arith in subst (All (IsStored c rows)) none_left tt
unmarshal_all-IsStored c rows (w ∷ ws) es texts h =
    let (e, text, stored) = texts w (Memᴰ.head refl) in
    unmarshal_first c rows e ws es stored
      (λ fs g. unmarshal_all-IsStored c rows ws fs (λ v m. texts v (Memᴰ.tail m)) g)
      (subst (λ v. unmarshal_all (v ∷ ws) ≡ ok es) text h)

module _ {P I D : Type 0} (setup : Setup P I D) (log : P → String → List Wire)
    (Holds : I → Uuid → Wire → Type 0) (writes : OnlyWrites setup.writer log)
    (puts : OnlyPuts setup.client Holds) (finds : OnlyFinds setup.client Holds) where
  -- A search of a sound state.
  search-IsStored :
      (s : System P I D) (q : SearchQuery) (found : Option (List Event) × ℤ)
      → IsSound setup log Holds s
      → search setup.client setup.index_name q s.progress.handled.0 ≡ ok found
      → All (IsStored setup.columns s.db.rows) (or_no_events found.0)
  unfolding search
  search-IsStored s q found sound h =
      elim (Result-cases
        (setup.client.search setup.index_name (search_body q) s.progress.handled.0)) [
          | inr (x, failed) ↦ cc (rw failed at h)
          | inl (r, answered) ↦ of_hits r answered (rw answered at h)
        ]
    where
      of_hits :
          (r : Answer (Result SearchHits))
          → setup.client.search setup.index_name (search_body q) s.progress.handled.0 ≡ ok r
          → hits_result r ≡ ok found
          → All (IsStored setup.columns s.db.rows) (or_no_events found.0)
      of_hits r answered g = elim (Result-cases r.body) [
        | inr (x, failed) ↦ ground (arith, failed)
        | inl (hits, given) ↦ elim (Result-cases (unmarshal_all hits.sources)) [
          | inr (x, bad) ↦ ground arith
          | inl (es, decoded) ↦
              let shown : (some es, hits.total) ≡ found = ground arith in
              subst
                (λ (f : Option (List Event) × ℤ).
                  All (IsStored setup.columns s.db.rows) (or_no_events f.0))
                shown
                (unmarshal_all-IsStored setup.columns s.db.rows hits.sources es
                  (λ w m.
                    let (id, held) =
                      finds setup.index_name (search_body q) s.progress.handled.0 r hits answered
                        given w m in
                    let (e, text, _, stored) = sound.indexed id w held in (e, text, stored))
                  decoded)
        ]
      ]

  module _ (lawful : HonoursFilters setup.client) {s t : System P I D}
      (sound : IsSound setup log Holds s) (reached : Reach setup log s t) (ctx : Context) where
    -- Where Kafka and Elasticsearch hold nothing but what is written to them, and a search finds
    -- documents of the index that pass its clauses: in a state that is reached from a sound one, every
    -- event that ListAll answers is of the tenant of the caller's identity, and is in the table with
    -- all its fields.
    pub Reach-list_all :
        (q : ListQuery) (r : ListResult)
        → list_all (searcher setup.client setup.index_name) ctx q t.progress.handled.0 ≡ ok r
        → (i : Identity) × (identity_from_context ctx ≡ some i)
          × All (λ e. (e.tenant_id ≡ i.tenant_id) × IsStored setup.columns t.db.rows e) r.events
    unfolding searcher
    Reach-list_all q r h =
        let (late, _) = Reach-IsSound setup log Holds writes puts sound reached in
        let (i, present, own) =
          list_all-tenant setup.client setup.index_name lawful ctx q t.progress.handled.0 r h in
        let (_, sq, found, _, _, searched, shown, _) =
          list_all-IsScoped (searcher setup.client setup.index_name) ctx t.progress.handled.0 q r
            h in
        (
          i,
          present,
          All-zip _ (IsStored setup.columns t.db.rows) r.events own (
              subst (All (IsStored setup.columns t.db.rows)) (sym shown)
                (search-IsStored t sq found late searched)),
        )

    -- The same for QueryByStream, where every event is also of the stream that was asked for.
    pub Reach-query_by_stream :
        (q : Query) (r : QueryResult)
        → query_by_stream (searcher setup.client setup.index_name) ctx q t.progress.handled.0 ≡ ok r
        → (i : Identity) × (identity_from_context ctx ≡ some i)
          × All
              (λ e.
                ((e.tenant_id ≡ i.tenant_id) × (e.stream_id ≡ q.stream_id))
                × IsStored setup.columns t.db.rows e)
              r.events
    unfolding searcher
    Reach-query_by_stream q r h =
        let (late, _) = Reach-IsSound setup log Holds writes puts sound reached in
        let (i, present, own) =
          query_by_stream-own setup.client setup.index_name lawful ctx q t.progress.handled.0 r h in
        let (_, sq, found, _, _, _, searched, shown, _) =
          query_by_stream-IsScoped (searcher setup.client setup.index_name) ctx t.progress.handled.0
            q r h in
        (
          i,
          present,
          All-zip _ (IsStored setup.columns t.db.rows) r.events own (
              subst (All (IsStored setup.columns t.db.rows)) (sym shown)
                (search-IsStored t sq found late searched)),
        )
