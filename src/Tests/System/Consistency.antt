-- ===== src/Tests/System/Consistency.antt =====
-- The index after a redelivery, beside the replay and the audit log.
use mathlib.Core.List.{Memᴰ}
use event_streaming_and_audi.Tests.System.{
  setup, topic_logs-OnlyWrites, found, to_found, empty_system-IsSound, ordered, opened_system,
  stored_row, St, empty_system,
}
use event_streaming_and_audi.Tests.System.Documents.{Holds, documents-OnlyPuts}
use event_streaming_and_audi.Tests.Fixtures.{plain, holding}
use event_streaming_and_audi.Ingest.{Command}
use event_streaming_and_audi.Ingest.Outcomes.{IsComplete}
use event_streaming_and_audi.Services.System.{begin, finish, Reach, Step, here, next}
use event_streaming_and_audi.Services.System.Audit.{Grows, Reach-Grows}
use event_streaming_and_audi.Services.System.Replayed.{Reach-replayed}
use event_streaming_and_audi.Auth.{Context, Identity, tenant_identity, identity_from_context}
use event_streaming_and_audi.Errors.{ok}
use event_streaming_and_audi.Event.{Event}
use event_streaming_and_audi.Event.Metadata.{unmarshal_map, map_of}
use event_streaming_and_audi.Postgres.{Row, event_store, row_of}
use event_streaming_and_audi.Postgres.Contents.{IsKept}
use event_streaming_and_audi.Postgres.Queries.{IsReadable}
use event_streaming_and_audi.Replay.{replay}
use event_streaming_and_audi.Replay.Whole.{command}
use event_streaming_and_audi.Prelude.{
  List, pos, none, some, ◌≡◌, ◌≢◌, refl, arith, [], ◌∷◌, String, map,
}
use event_streaming_and_audi.Event.Json.{encoded, obj, end}

abbrev owner : Identity
owner = record { subject_id = "api-key"; tenant_id = "default"; roles = [] }

-- Two ingestions into one stream that overlap: both take version 1, and the second is refused.
abbrev a_command : Command
a_command = record {
  stream_id = "order:2";
  type = "order.created";
  source = "api";
  payload = encoded (obj end);
  metadata = none;
}

abbrev draft_of : String → Event
draft_of id = record ordered { id = id }

abbrev row_for : String → Row
row_for id = row_of plain (draft_of id) (pos 1) (obj end)

abbrev inserting_of : List String → List (Event × Row)
inserting_of ids = map (λ id. (draft_of id, row_for id)) ids

abbrev one_open : St
one_open = record empty_system { inserting = inserting_of ("a1" ∷ []) }

abbrev both_open : St
both_open = record empty_system { inserting = inserting_of ("a2" ∷ "a1" ∷ []) }

abbrev one_done : St
one_done = record empty_system {
  db = holding (row_for "a1" ∷ []);
  unpublished = draft_of "a1" ∷ [];
  inserting = inserting_of ("a2" ∷ []);
}

abbrev both_done : St
both_done = record one_done { inserting = [] }

owner_named : owner.tenant_id ≢ ""
owner_named h = cc

a_command-IsComplete : IsComplete a_command
a_command-IsComplete = (λ h. cc, λ h. cc, λ h. cc)

first_open : Step setup (λ p t. p t) empty_system one_open
unfolding opened_system
first_open = begin owner "a1" (pos 7) a_command (row_for "a1") owner_named a_command-IsComplete refl

second_open : Step setup (λ p t. p t) one_open both_open
unfolding opened_system
second_open =
    begin owner "a2" (pos 7) a_command (row_for "a2") owner_named a_command-IsComplete refl

first_done : Step setup (λ p t. p t) both_open one_done
unfolding opened_system
first_done = finish (inserting_of ("a2" ∷ [])) (draft_of "a1") (row_for "a1") [] refl

second_refused : Step setup (λ p t. p t) one_done both_done
unfolding opened_system
second_refused = finish [] (draft_of "a2") (row_for "a2") [] refl

overlap : Reach setup (λ p t. p t) empty_system both_done
overlap = next (next (next (next here first_open) second_open) first_done) second_refused

Reach-Grows_example : Grows plain [] both_done.db.rows
Reach-Grows_example =
    Reach-Grows setup (λ p t. p t) Holds topic_logs-OnlyWrites documents-OnlyPuts
      empty_system-IsSound overlap

abbrev as_owner : Context
as_owner = record { value = some owner }

owner_known : tenant_identity as_owner ≡ some owner
unfolding tenant_identity identity_from_context
owner_known = refl

stored_row-IsReadable : IsReadable stored_row
unfolding opened_system unmarshal_map map_of
stored_row-IsReadable = (some [], refl)

stream_named : ordered.stream_id ≢ ""
stream_named h = cc

Reach-replayed_example :
    (es : List Event) × (replay (event_store plain) as_owner (command "order:2" 1) found.db ≡ ok es)
    × ((f : Event) × Memᴰ f es × IsKept plain ordered f)
Reach-replayed_example =
    Reach-replayed setup (λ p t. p t) Holds topic_logs-OnlyWrites documents-OnlyPuts "u3" ordered
      as_owner owner 1 empty_system-IsSound to_found (Memᴰ.head refl) owner_known stream_named refl
      (refl, tt) (stored_row-IsReadable, tt) (omega arith) refl
