-- ===== src/Tests/Search.antt =====
-- A search server of one document, and the typing of a search.
use event_streaming_and_audi.Elasticsearch.{search_body}
use event_streaming_and_audi.Prelude.{
  List, String, Option, pos, [], ◌∷◌, if◌then◌else◌, ◌==◌, some, true,
}
use event_streaming_and_audi.Elasticsearch.{Client}
use event_streaming_and_audi.Event.Wire.{Wire, of}
use event_streaming_and_audi.Tests.Fixtures.{order_event}
use event_streaming_and_audi.Errors.{ok, err, text}
use event_streaming_and_audi.Elasticsearch.Mapping.{IsTyped, search_body-IsTyped}

-- A server whose index holds one document of acme, in the answer to a search for this tenant.
abbrev answer_for : List (String × String) → List Wire
answer_for [] = []
answer_for ((name, v) ∷ []) =
    if name == "tenant_id"
    then if v == "acme" then of (order_event "u1" "acme" 1) ∷ [] else []
    else []
answer_for (x ∷ y ∷ filters) = []

abbrev pub es_server : Client (Option Wire)
es_server = record {
  exists = λ name s. ok (record { status = 404; body = tt });
  create = λ name mapping s. (err (text "connection refused"), s);
  put = λ name id w s. (ok (record { status = 201; body = "" }), some w);
  search = λ name body s. ok (record {
    status = 200;
    body = ok (record { total = pos 1; sources = answer_for body.filters });
  });
}

search_body-IsTyped_example : IsTyped (
    search_body (record {
      tenant_id = "acme";
      stream_id = "order:1";
      limit = pos 20;
      offset = pos 0;
      sort_by_occurred_at_desc = true;
    }))
search_body-IsTyped_example = search_body-IsTyped (record {
  tenant_id = "acme";
  stream_id = "order:1";
  limit = pos 20;
  offset = pos 0;
  sort_by_occurred_at_desc = true;
})
