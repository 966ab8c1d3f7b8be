-- ===== src/Query.antt =====
-- internal/application/query/service.go
pub mod Pages
use event_streaming_and_audi.Prelude.{
  ℤ, String, List, Option, pos, if◌then◌else◌, leb_ℤ, ltb_ℤ, [], some, none, ◌==◌, true, false,
}
use event_streaming_and_audi.Event.{Searcher, Event}
use event_streaming_and_audi.Auth.{Identity, Context, tenant_identity}
use event_streaming_and_audi.Errors.{Result, err, text, ◌>>=◌, wrap, ok}

abbrev pub default_limit : ℤ
default_limit = pos 20

abbrev pub max_limit : ℤ
max_limit = pos 100

pub record Query : Type 0 where
  pub stream_id : String
  pub limit : ℤ
  pub offset : ℤ

pub record QueryResult : Type 0 where
  pub stream_id : String
  pub events : List Event
  pub total : ℤ
  pub limit : ℤ
  pub offset : ℤ
  pub read_model : String

pub record ListQuery : Type 0 where
  pub limit : ℤ
  pub offset : ℤ

pub record ListResult : Type 0 where
  pub events : List Event
  pub total : ℤ
  pub limit : ℤ
  pub offset : ℤ
  pub read_model : String

-- The tests that both use cases make on a limit and an offset.
unfoldable pub page_limit : ℤ → ℤ
page_limit limit =
    let l = if leb_ℤ limit (pos 0) then default_limit else limit in
    if ltb_ℤ max_limit l then max_limit else l

unfoldable pub page_offset : ℤ → ℤ
page_offset offset = if ltb_ℤ offset (pos 0) then pos 0 else offset

-- `if events == nil { events = []*event.Event{} }`
abbrev pub or_no_events : Option (List Event) → List Event
or_no_events none = []
or_no_events (some es) = es

module _ {S : Type 0} (searcher : Searcher S) where
  unfoldable pub list_for : Option Identity → ListQuery → S → Result ListResult
  list_for none q s = err (text "unauthenticated: identity with tenant_id is required")
  list_for (some identity) q s = do
    found ← wrap "list events" (
        searcher.search
          (record {
            tenant_id = identity.tenant_id;
            stream_id = "";
            limit = page_limit q.limit;
            offset = page_offset q.offset;
            sort_by_occurred_at_desc = true;
          })
          s)
    ok (record {
      events = or_no_events found.0;
      total = found.1;
      limit = page_limit q.limit;
      offset = page_offset q.offset;
      read_model = "elasticsearch";
    })

  -- ListAll
  unfoldable pub list_all : Context → ListQuery → S → Result ListResult
  list_all ctx q s = list_for (tenant_identity ctx) q s

  unfoldable pub query_for : Option Identity → Query → S → Result QueryResult
  query_for none q s = err (text "unauthenticated: identity with tenant_id is required")
  query_for (some identity) q s =
      if q.stream_id == "" then err (text "stream_id is required") else do
        found ← wrap "search events" (
            searcher.search
              (record {
                tenant_id = identity.tenant_id;
                stream_id = q.stream_id;
                limit = page_limit q.limit;
                offset = page_offset q.offset;
                sort_by_occurred_at_desc = false;
              })
              s)
        ok (record {
          stream_id = q.stream_id;
          events = or_no_events found.0;
          total = found.1;
          limit = page_limit q.limit;
          offset = page_offset q.offset;
          read_model = "elasticsearch";
        })

  -- QueryByStream
  unfoldable pub query_by_stream : Context → Query → S → Result QueryResult
  query_by_stream ctx q s = query_for (tenant_identity ctx) q s
