-- ===== src/Elasticsearch/Isolation.antt =====
-- Reads of the search index: a caller gets events of its own tenant only.
use mathlib.Core.Path.{subst}
use mathlib.Core.Option.{some-injective}
use event_streaming_and_audi.Elasticsearch.{
  search, searcher, Client, SearchBody, search_body, Answer, SearchHits, unmarshal_all, hits_result,
  filters_of,
}
use event_streaming_and_audi.Query.{
  list_all, ListQuery, ListResult, or_no_events, query_by_stream, Query, QueryResult,
}
use event_streaming_and_audi.Prelude.{
  String, List, Option, if◌then◌else◌, ◌==◌, none, ◌++◌, ℤ, ◌≡◌, ◌≢◌, All, All-map, some, ◌∷◌, [],
  inr, arith, inl, Bool-cases, sym, eq_iff, ◌∙◌, refl,
}
use event_streaming_and_audi.Event.{Event, SearchQuery}
use event_streaming_and_audi.Auth.{Identity, Context, identity_from_context, tenant_identity_iff}
use event_streaming_and_audi.Errors.{Result, ok, Result-cases}
use event_streaming_and_audi.Query.Pages.{IsScoped, list_all-IsScoped, query_by_stream-IsScoped}

-- What a `term` clause of the query compares.
abbrev pub term_of : String → Event → Option String
term_of name e =
    if name == "stream_id"
    then some e.stream_id
    else if name == "tenant_id"
    then some e.tenant_id
    else none

-- The event passes all the clauses.
abbrev pub Satisfies : List (String × String) → Event → Type 0
Satisfies [] e = Unit
Satisfies ((name, v) ∷ filters) e = (term_of name e ≡ some v) × Satisfies filters e

-- Elasticsearch answers with documents that pass every clause of bool/filter.
pub record HonoursFilters {S : Type 0} (client : Client S) : Type 0 where
  pub honoured :
      (index_name : String) (body : SearchBody) (s : S) (r : Answer (Result SearchHits))
      (hits : SearchHits)
      → client.search index_name body s ≡ ok r
      → r.body ≡ ok hits
      → (es : List Event) → unmarshal_all hits.sources ≡ ok es
      → All (Satisfies body.filters) es

module _ {S : Type 0} (client : Client S) (index_name : String)
    (lawful : HonoursFilters client) where
  hits_result-ok :
      (body : SearchBody) (s : S) (r : Answer (Result SearchHits)) (found : Option (List Event) × ℤ)
      → client.search index_name body s ≡ ok r
      → hits_result r ≡ ok found
      → All (Satisfies body.filters) (or_no_events found.0)
  hits_result-ok body s r found answered h = elim (Result-cases r.body) [
    | inr (x, failed) ↦ ground (arith, failed)
    | inl (hits, given) ↦ elim (Result-cases (unmarshal_all hits.sources)) [
      | inr (x, bad) ↦ ground arith
      | inl (es, decoded) ↦
          let shown : (some es, hits.total) ≡ found = ground arith in
          subst (λ (g : Option (List Event) × ℤ). All (Satisfies body.filters) (or_no_events g.0))
            shown (lawful.honoured index_name body s r hits answered given es decoded)
    ]
  ]

  search-Satisfies :
      (q : SearchQuery) (s : S) (found : Option (List Event) × ℤ)
      → search client index_name q s ≡ ok found
      → All (Satisfies (filters_of q)) (or_no_events found.0)
  unfolding search search_body
  search-Satisfies q s found h = elim (Result-cases (client.search index_name (search_body q) s)) [
    | inr (x, failed) ↦ cc (rw failed at h)
    | inl (r, answered) ↦ hits_result-ok (search_body q) s r found answered (rw answered at h)
  ]

  Satisfies-split :
      (e : Event) (xs ys : List (String × String))
      → Satisfies (xs ++ ys) e
      → Satisfies xs e × Satisfies ys e
  Satisfies-split e [] ys p = (tt, p)
  Satisfies-split e (x ∷ xs) ys (p, ps) = let (q, r) = Satisfies-split e xs ys ps in ((p, q), r)

  -- One optional clause.
  satisfied :
      (e : Event) (name v field : String)
      → term_of name e ≡ some field
      → v ≢ ""
      → Satisfies (if v == "" then [] else (name, v) ∷ []) e
      → field ≡ v
  satisfied e name v field compared given p = elim (Bool-cases (v == "")) [
    | inl empty ↦ absurd (given ((eq_iff v "").0 empty))
    | inr filled ↦ some-injective field v (sym compared ∙ (rw filled at p).0)
  ]

  -- What a search for a tenant finds is the tenant's.
  of_tenant :
      (i : Identity) (stream_id : String) (q : SearchQuery) (e : Event)
      → IsScoped i stream_id q
      → i.tenant_id ≢ ""
      → Satisfies (filters_of q) e
      → e.tenant_id ≡ i.tenant_id
  unfolding filters_of
  of_tenant i stream_id q e h named p =
      satisfied e "tenant_id" q.tenant_id e.tenant_id refl
        (λ none_named. named (sym h.tenant ∙ none_named))
        (Satisfies-split e (if q.stream_id == "" then [] else ("stream_id", q.stream_id) ∷ []) _
          p).1
      ∙ h.tenant

  -- And of the stream that it names.
  of_stream :
      (i : Identity) (stream_id : String) (q : SearchQuery) (e : Event)
      → IsScoped i stream_id q
      → stream_id ≢ ""
      → Satisfies (filters_of q) e
      → e.stream_id ≡ stream_id
  unfolding filters_of
  of_stream i stream_id q e h named p =
      satisfied e "stream_id" q.stream_id e.stream_id refl
        (λ none_named. named (sym h.stream ∙ none_named))
        (Satisfies-split e (if q.stream_id == "" then [] else ("stream_id", q.stream_id) ∷ []) _
          p).0
      ∙ h.stream

  -- On a server whose answers pass every clause of the search, every event that ListAll answers
  -- belongs to the tenant of the caller's identity.
  pub list_all-tenant :
      (ctx : Context) (q : ListQuery) (s : S) (r : ListResult)
      → list_all (searcher client index_name) ctx q s ≡ ok r
      → (i : Identity) × (identity_from_context ctx ≡ some i)
        × All (λ e. e.tenant_id ≡ i.tenant_id) r.events
  unfolding searcher
  list_all-tenant ctx q s r h =
      let (i, sq, found, authenticated, scoped, searched, shown, _) =
        list_all-IsScoped (searcher client index_name) ctx s q r h in
      let (present, named) = (tenant_identity_iff ctx i).0 authenticated in
      (
        i,
        present,
        subst (λ es. All (λ e. e.tenant_id ≡ i.tenant_id) es) (sym shown)
            (All-map (λ e p. of_tenant i "" sq e scoped named p) (or_no_events found.0)
              (search-Satisfies sq s found searched)),
      )

  -- The same for QueryByStream, where every event is also of the stream that was asked for.
  pub query_by_stream-own :
      (ctx : Context) (q : Query) (s : S) (r : QueryResult)
      → query_by_stream (searcher client index_name) ctx q s ≡ ok r
      → (i : Identity) × (identity_from_context ctx ≡ some i)
        × All (λ e. (e.tenant_id ≡ i.tenant_id) × (e.stream_id ≡ q.stream_id)) r.events
  unfolding searcher
  query_by_stream-own ctx q s r h =
      let (i, sq, found, authenticated, scoped, stream, searched, shown, _) =
        query_by_stream-IsScoped (searcher client index_name) ctx s q r h in
      let (present, named) = (tenant_identity_iff ctx i).0 authenticated in
      (
        i,
        present,
        subst (λ es. All (λ e. (e.tenant_id ≡ i.tenant_id) × (e.stream_id ≡ q.stream_id)) es)
            (sym shown)
            (All-map
              (λ e p. (
                of_tenant i q.stream_id sq e scoped named p,
                of_stream i q.stream_id sq e scoped stream p,
              ))
              (or_no_events found.0) (search-Satisfies sq s found searched)),
      )
