-- ===== src/Tests/System/Reads.antt =====
-- The reads and the versions of the system after one event, and an event that is lost.
use mathlib.Core.List.{Memᴰ}
use event_streaming_and_audi.Tests.System.{
  setup, topic_logs-OnlyWrites, empty_system, found, to_found, empty_system-IsSound, first_step,
  ordered, stored_row, St, opened_system, an_order,
}
use event_streaming_and_audi.Tests.System.Documents.{
  Holds, documents-OnlyPuts, documents-OnlyFinds, documents-HonoursFilters,
}
use event_streaming_and_audi.Tests.Fixtures.{holding, plain}
use event_streaming_and_audi.Services.System.{Reach, lose, here, next, fault, answered}
use event_streaming_and_audi.Services.System.Answers.{answered-IsShown, IsOwn}
use event_streaming_and_audi.Services.System.Silent.{events_of}
use event_streaming_and_audi.Services.System.Versions.{Reach-one}
use event_streaming_and_audi.Services.System.Lost.{IsLost, Reach-IsLost}
use event_streaming_and_audi.Services.System.State.{IsSound}
use event_streaming_and_audi.Services.System.Sound.{Reach-IsSound}
use event_streaming_and_audi.Query.{query_by_stream, query_for, page_limit, page_offset}
use event_streaming_and_audi.Elasticsearch.{search, search_body, filters_of, unmarshal_all}
use event_streaming_and_audi.Auth.{Identity}
use event_streaming_and_audi.Event.Metadata.{unmarshal_map, map_of, marshal_map}
use event_streaming_and_audi.Errors.{ok, text}
use event_streaming_and_audi.Postgres.{Row, Database}
use event_streaming_and_audi.Postgres.Contents.{IsRowOf}
use event_streaming_and_audi.Prelude.{pos, some, ◌≡◌, refl, ◌∷◌, [], List, none}
use event_streaming_and_audi.Event.Json.{obj, end, encoded, empty}
use event_streaming_and_audi.Request.{Request}
use event_streaming_and_audi.Http.Dto.{EventResponse, Response}
use event_streaming_and_audi.Tests.Access.{simple}
use event_streaming_and_audi.Http.Handler.{get_by_stream, domain_to_event_response, parse_int_param}
use event_streaming_and_audi.Http.Router.{get_stream_route}
use event_streaming_and_audi.Event.{Event}

-- GET /events/order:2 with the API key.
abbrev asked : Request
asked = record an_order { stream_id = "order:2"; body = empty }

abbrev shown : EventResponse
shown = record {
  id = "u3";
  tenant_id = "default";
  stream_id = "order:2";
  type = "order.created";
  source = "api";
  version = pos 1;
  occurred_at = pos 7;
  payload = encoded (obj end);
  metadata = some [];
}

opened_reads : Unit {0}
unfolding opened_system get_by_stream query_by_stream query_for page_limit page_offset search
    search_body filters_of unmarshal_all domain_to_event_response parse_int_param
opened_reads = tt

abbrev reply : Response × Database × List Event
reply = answered setup (λ p t. p t) get_stream_route "u4" (pos 9) asked found

is_shown : Memᴰ shown (events_of reply.0.body)
unfolding opened_reads
is_shown = Memᴰ.head refl

answered-IsShown_example :
    (i : Identity) × (simple.authenticate (pos 9) asked ≡ ok i) × IsOwn plain reply.1.rows i shown
answered-IsShown_example =
    answered-IsShown setup (λ p t. p t) Holds topic_logs-OnlyWrites documents-OnlyPuts
      documents-OnlyFinds documents-HonoursFilters empty_system-IsSound to_found get_stream_route
      "u4" (pos 9) asked shown is_shown

Reach-one_example :
    (ordered.id ≡ ordered.id)
    × ((r : Row) × Memᴰ r found.db.rows
        × (r.id ≡ "u3")
        × IsRowOf plain ordered r
        × IsRowOf plain ordered r)
Reach-one_example =
    Reach-one setup (λ p t. p t) Holds topic_logs-OnlyWrites documents-OnlyPuts "u3" "u3" ordered
      ordered empty_system-IsSound to_found (Memᴰ.head refl) (Memᴰ.head refl) refl refl

-- The process ends before the publication.
abbrev ended : St
ended = record empty_system { db = holding (stored_row ∷ []) }

to_ended : Reach setup (λ p t. p t) empty_system ended
to_ended = next (next here first_step) (lose [] ordered [] refl)

ended-IsSound : IsSound setup (λ p t. p t) Holds ended
ended-IsSound =
    (Reach-IsSound setup (λ p t. p t) Holds topic_logs-OnlyWrites documents-OnlyPuts
      empty_system-IsSound to_ended).0

stored_row-IsRowOf : IsRowOf plain ordered stored_row
unfolding unmarshal_map map_of marshal_map
stored_row-IsRowOf = record {
  id = refl;
  tenant_id = refl;
  stream_id = refl;
  type = refl;
  source = refl;
  version = refl;
  occurred_at = refl;
  payload = obj end;
  payload_text = refl;
  payload_kept = refl;
  metadata = obj end;
  metadata_text = refl;
  metadata_kept = refl;
}

ended-IsLost : IsLost setup (λ p t. p t) Holds ordered ended
ended-IsLost = record {
  stored = (stored_row, Memᴰ.head refl, stored_row-IsRowOf);
  not_waiting = λ f m. elim m [ ];
  not_logged = λ t f m. elim m [ ];
  not_indexed = λ w m. elim m [ ];
}

abbrev offline : St
offline = record ended { db = record ended.db { fault = some (text "timeout") } }

Reach-IsLost_example : IsLost setup (λ p t. p t) Holds ordered offline
Reach-IsLost_example =
    Reach-IsLost setup (λ p t. p t) Holds ordered topic_logs-OnlyWrites documents-OnlyPuts
      ended-IsSound ended-IsLost (next here (fault (some (text "timeout")) none))
