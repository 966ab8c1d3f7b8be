-- ===== src/Query/Pages.antt =====
-- What the use cases ask of the read model.
use event_streaming_and_audi.Prelude.{
  ℤ, ℕ, String, negsuc, ◌≡◌, arith, pos, Option, ◌≤◌, Bool-cases, leb, List, inl, inr, ltb, some,
  ◌≢◌, true, false, eq_iff, none, refl,
}
use event_streaming_and_audi.Query.{
  page_limit, page_offset, list_for, list_all, query_for, query_by_stream, ListQuery, Query,
  ListResult, QueryResult, or_no_events,
}
use event_streaming_and_audi.Auth.{Identity, Context, tenant_identity}
use event_streaming_and_audi.Event.{Searcher, SearchQuery, Event}
use event_streaming_and_audi.Errors.{ok, Result-cases}

-- The limit that is used for a limit that is asked.
abbrev pub IsPageSize : ℤ → Type 0
IsPageSize l = (n : ℕ) × (l ≡ pos n) × (1 ≤ n) × (n ≤ 100)

page_limit-IsPageSize : (l : ℤ) → IsPageSize (page_limit l)
unfolding page_limit
page_limit-IsPageSize (negsuc n) = (20, ground arith, omega arith, omega arith)
page_limit-IsPageSize (pos n) = elim (Bool-cases (leb n 0)) [
  | inl low ↦ (20, ground arith, omega arith, omega arith)
  | inr some_asked ↦ elim (Bool-cases (ltb 100 n)) [
    | inl high ↦ (100, ground arith, omega arith, omega arith)
    | inr fits ↦ (n, ground arith, ground arith, ground arith)
  ]
]

page_offset-nonneg : (o : ℤ) → (n : ℕ) × (page_offset o ≡ pos n)
unfolding page_offset
page_offset-nonneg (pos n) = (n, ground arith)
page_offset-nonneg (negsuc n) = (0, ground arith)

-- A search for one tenant, with at most 100 events and an offset that is not negative.
pub record IsScoped (i : Identity) (stream_id : String) (q : SearchQuery) : Type 0 where
  pub tenant : q.tenant_id ≡ i.tenant_id
  pub stream : q.stream_id ≡ stream_id
  pub limit : IsPageSize q.limit
  pub offset : (n : ℕ) × (q.offset ≡ pos n)

module _ {S : Type 0} (searcher : Searcher S) (ctx : Context) (s : S) where
  list_for-IsScoped :
      (o : Option Identity) (q : ListQuery) (r : ListResult)
      → list_for searcher o q s ≡ ok r
      → (i : Identity) × (sq : SearchQuery) × (found : Option (List Event) × ℤ) × (o ≡ some i)
        × IsScoped i "" sq
        × (searcher.search sq s ≡ ok found)
        × (r.events ≡ or_no_events found.0)
        × (r.limit ≡ sq.limit)
  unfolding list_for
  list_for-IsScoped none q r h = cc
  list_for-IsScoped (some i) q r h =
      let sq : SearchQuery = record {
        tenant_id = i.tenant_id;
        stream_id = "";
        limit = page_limit q.limit;
        offset = page_offset q.offset;
        sort_by_occurred_at_desc = true;
      } in
      elim (Result-cases (searcher.search sq s)) [
        | inr (x, failed) ↦ cc (rw failed at h)
        | inl (found, done) ↦ (
          i,
          sq,
          found,
          refl,
          record {
            tenant = refl;
            stream = refl;
            limit = page_limit-IsPageSize q.limit;
            offset = page_offset-nonneg q.offset;
          },
          done,
          ground arith,
          ground arith,
        )
      ]

  -- ListAll answers only a caller with a tenant, from one search over all streams of this tenant; the
  -- page has 1 to 100 events, as the answer says, and its offset is not negative.
  pub list_all-IsScoped :
      (q : ListQuery) (r : ListResult)
      → list_all searcher ctx q s ≡ ok r
      → (i : Identity) × (sq : SearchQuery) × (found : Option (List Event) × ℤ) × (tenant_identity
            ctx
          ≡ some i)
        × IsScoped i "" sq
        × (searcher.search sq s ≡ ok found)
        × (r.events ≡ or_no_events found.0)
        × (r.limit ≡ sq.limit)
  unfolding list_all
  list_all-IsScoped q r h = list_for-IsScoped (tenant_identity ctx) q r h

  query_for-IsScoped :
      (o : Option Identity) (q : Query) (r : QueryResult)
      → query_for searcher o q s ≡ ok r
      → (i : Identity) × (sq : SearchQuery) × (found : Option (List Event) × ℤ) × (o ≡ some i)
        × IsScoped i q.stream_id sq
        × (q.stream_id ≢ "")
        × (searcher.search sq s ≡ ok found)
        × (r.events ≡ or_no_events found.0)
        × (r.limit ≡ sq.limit)
  unfolding query_for
  query_for-IsScoped none q r h = cc
  query_for-IsScoped (some i) q r h =
      let sq : SearchQuery = record {
        tenant_id = i.tenant_id;
        stream_id = q.stream_id;
        limit = page_limit q.limit;
        offset = page_offset q.offset;
        sort_by_occurred_at_desc = false;
      } in
      let name : q.stream_id ≢ "" = ground (arith, eq_iff q.stream_id "") in
      elim (Result-cases (searcher.search sq s)) [
        | inr (x, failed) ↦ ground (arith, eq_iff q.stream_id "")
        | inl (found, done) ↦ (
          i,
          sq,
          found,
          refl,
          record {
            tenant = refl;
            stream = refl;
            limit = page_limit-IsPageSize q.limit;
            offset = page_offset-nonneg q.offset;
          },
          name,
          done,
          ground (arith, eq_iff q.stream_id ""),
          ground (arith, eq_iff q.stream_id ""),
        )
      ]

  -- QueryByStream answers only a caller with a tenant who names a stream, from one search of this
  -- stream and tenant; the page has 1 to 100 events, and its offset is not negative.
  pub query_by_stream-IsScoped :
      (q : Query) (r : QueryResult)
      → query_by_stream searcher ctx q s ≡ ok r
      → (i : Identity) × (sq : SearchQuery) × (found : Option (List Event) × ℤ) × (tenant_identity
            ctx
          ≡ some i)
        × IsScoped i q.stream_id sq
        × (q.stream_id ≢ "")
        × (searcher.search sq s ≡ ok found)
        × (r.events ≡ or_no_events found.0)
        × (r.limit ≡ sq.limit)
  unfolding query_by_stream
  query_by_stream-IsScoped q r h = query_for-IsScoped (tenant_identity ctx) q r h
