-- ===== src/Elasticsearch.antt =====
-- internal/infrastructure/elasticsearch/indexer.go. The client and the server are parameters.
pub mod Redelivery
pub mod Isolation
pub mod Startup
pub mod Mapping
use event_streaming_and_audi.Prelude.{
  ℕ, List, ℤ, String, Bool, ltb, if◌then◌else◌, ◌∷◌, true, Option, ◌==◌, [], ◌++◌, some, false,
  none, nat_beq, pos, suc, ◌+◌, ◌*◌, zero,
}
use event_streaming_and_audi.Event.{SearchQuery, Uuid, Event, Indexer, Searcher}
use event_streaming_and_audi.Errors.{Result, Error, text, wrapped, ok, err, ◌>>=◌, wrap, attempts}
use event_streaming_and_audi.Event.Wire.{Wire, marshal, unmarshal}

-- The answer to a request that reached the server: its status, and the body of an error.
pub record Answer (A : Type 0) : Type 0 where
  pub status : ℕ
  pub body : A

-- esapi's IsError
abbrev pub is_error : ℕ → Bool
is_error status = ltb 299 status

-- The body of a search: the `term` clauses of bool/filter (none stands for match_all), the two sort
-- keys with their order, from, size and track_total_hits.
pub record SearchBody : Type 0 where
  pub filters : List (String × String)
  pub sort : List (String × String)
  pub from : ℤ
  pub size : ℤ
  pub track_total_hits : Bool

pub record SearchHits : Type 0 where
  pub total : ℤ
  pub sources : List Wire

-- The type of a field of the index; `dynamic` is an object whose fields are added as they come.
pub data FieldType : Type 0 where
  keyword long date dynamic : FieldType

-- The constant `mapping`: the fields of a document and their types.
abbrev pub mapping : List (String × FieldType)
mapping =
    ("id", keyword)
    ∷ ("tenant_id", keyword)
    ∷ ("stream_id", keyword)
    ∷ ("type", keyword)
    ∷ ("source", keyword)
    ∷ ("version", long)
    ∷ ("occurred_at", date)
    ∷ ("payload", dynamic)
    ∷ ("metadata", dynamic)
    ∷ []

-- The client over a server with state S. The index call has op_type "index" and the document's id;
-- `create` sends the mapping.
pub record Client (S : Type 0) : Type 0 where
  pub exists : String → S → Result (Answer (Unit {0}))
  pub create : String → List (String × FieldType) → S → Result (Answer String) × S
  pub put : String → Uuid → Wire → S → Result (Answer String) × S
  pub search : String → SearchBody → S → Result (Answer (Result SearchHits))

abbrev pub status_error : String → String → Error
status_error what body = wrapped what (text body)

-- The clauses of Search, the stream's before the tenant's.
unfoldable pub filters_of : SearchQuery → List (String × String)
filters_of q =
    (if q.stream_id == "" then [] else ("stream_id", q.stream_id) ∷ [])
    ++ (if q.tenant_id == "" then [] else ("tenant_id", q.tenant_id) ∷ [])

unfoldable pub sort_of : Bool → List (String × String)
sort_of true = ("occurred_at", "desc") ∷ ("id", "desc") ∷ []
sort_of false = ("version", "asc") ∷ ("id", "asc") ∷ []

unfoldable pub search_body : SearchQuery → SearchBody
search_body q = record {
  filters = filters_of q;
  sort = sort_of q.sort_by_occurred_at_desc;
  from = q.offset;
  size = q.limit;
  track_total_hits = true;
}

-- The loop over the hits.
unfoldable pub unmarshal_all : List Wire → Result (List Event)
unmarshal_all [] = ok []
unmarshal_all (w ∷ ws) = do
  e ← wrap "unmarshal event source" (unmarshal w)
  es ← unmarshal_all ws
  ok (e ∷ es)

abbrev pub create_result : Result (Answer String) → Option Error
create_result (err x) = some (wrapped "create index request" x)
create_result (ok r) = if is_error r.status then some (status_error "create index" r.body) else none

abbrev pub put_result : Result (Answer String) → Option Error
put_result (err x) = some (wrapped "elasticsearch request" x)
put_result (ok r) = if is_error r.status then some (status_error "elasticsearch" r.body) else none

abbrev pub hits_result : Answer (Result SearchHits) → Result (Option (List Event) × ℤ)
hits_result r = if is_error r.status then err (text "elasticsearch search") else do
  hits ← wrap "decode search response" r.body
  es ← unmarshal_all hits.sources
  ok (some es, hits.total)

module _ {S : Type 0} (client : Client S) (index_name : String) where
  abbrev pub send : Event → Result Wire → S → Option Error × S
  send e (err x) s = (some (wrapped "marshal event" x), s)
  send e (ok body) s = let (r, s') = client.put index_name e.id body s in (put_result r, s')

  -- Index
  unfoldable pub index : Event → S → Option Error × S
  index e s = send e (marshal e) s

  -- Search
  unfoldable pub search : SearchQuery → S → Result (Option (List Event) × ℤ)
  search q s = do
    r ← wrap "elasticsearch search request" (client.search index_name (search_body q) s)
    hits_result r

  -- ensureIndex
  abbrev pub create_index : S → Option Error × S
  create_index s = let (r, s') = client.create index_name mapping s in (create_result r, s')

  abbrev pub create_unless : Result (Answer (Unit {0})) → S → Option Error × S
  create_unless (err x) s = (some (wrapped "check index" x), s)
  create_unless (ok r) s = if nat_beq r.status 200 then (none, s) else create_index s

  unfoldable pub ensure_index : S → Option Error × S
  ensure_index s = create_unless (client.exists index_name s) s

  -- One round of the retries: the index is there, or the next round follows.
  abbrev pub retry :
      Option Error × S → ℕ → (Error → Result (Unit {0}) × S × ℕ) → Result (Unit {0}) × S × ℕ
  retry (none, s) slept next = (ok tt, s, slept)
  retry (some x, s) slept next = next x

  -- The retries of NewIndexer: `left` attempts are left, `attempt` is the number of the next one, and
  -- the last part counts the seconds slept. The server may change between the attempts.
  unfoldable pub connect_from :
      (between : ℕ → S → S) → ℕ → ℕ → Error → S → ℕ → Result (Unit {0}) × S × ℕ
  connect_from between zero attempt last s slept =
      (err (attempts "ensure index" (pos 10) last), s, slept)
  connect_from between (suc left) attempt last s slept =
      let s' = (ensure_index s).1 in
      retry (ensure_index s) slept
        (λ x. connect_from between left (attempt + 1) x (between attempt s') (slept + attempt * 2))

  -- NewIndexer, after the client is made.
  unfoldable pub new_indexer : (between : ℕ → S → S) → S → Result (Unit {0}) × S × ℕ
  new_indexer between s = connect_from between 10 1 (text "") s 0

  unfoldable pub indexer : Indexer S
  indexer = record { index = index }

  unfoldable pub searcher : Searcher S
  searcher = record { search = search }
