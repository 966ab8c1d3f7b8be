-- ===== src/Replay/Stored.antt =====
-- Replay over the PostgreSQL store: what a caller gets of a stream.
use event_streaming_and_audi.Postgres.{get_from_version}
use event_streaming_and_audi.Prelude.{
  String, Bool, List, leb_ℤ, select, ◌&&◌, ◌≡◌, some, ◌==◌, none, ap, arith, ℤ,
}
use event_streaming_and_audi.Postgres.Versions.{IsWellFormed}
use event_streaming_and_audi.Postgres.Queries.{
  AreRead, query_events-up, order_by_version-stream, scan_rows-AreRead,
}
use event_streaming_and_audi.Replay.{replay, Command}
use event_streaming_and_audi.Replay.Contiguous.{HasNoGap}
use event_streaming_and_audi.Postgres.{
  Columns, Row, Database, get_from_version, query_events, of_stream, event_store, scan_rows,
}
use event_streaming_and_audi.Auth.{Context, Identity, tenant_identity}
use event_streaming_and_audi.Event.{Event}
use event_streaming_and_audi.Errors.{ok}
use event_streaming_and_audi.Replay.Guards.{replay_iff}

-- The rows of the stream that belong to the tenant and have at least the version, as inserted.
abbrev pub wanted_by : Identity → Command → Row → Bool
wanted_by i cmd r = leb_ℤ cmd.from_version r.version && r.tenant_id == i.tenant_id

abbrev pub wanted : Identity → Command → Database → List Row
wanted i cmd db = select (wanted_by i cmd) (select (of_stream cmd.stream_id) db.rows)

-- What the store answers to a caller of the tenant.
pub get_from_version-wanted :
    (ctx : Context) (i : Identity) (cmd : Command) (db : Database)
    → IsWellFormed db.rows
    → tenant_identity ctx ≡ some i
    → db.fault ≡ none
    → get_from_version ctx cmd.stream_id cmd.from_version db ≡ scan_rows (wanted i cmd db)
unfolding get_from_version
get_from_version-wanted ctx i cmd db wf known up =
    rw (known, query_events-up "query from version" _ db up)
      (ap scan_rows (order_by_version-stream cmd.stream_id (wanted_by i cmd) db.rows wf))

get_from_version-up :
    (ctx : Context) (stream_id : String) (v : ℤ) (db : Database) (es : List Event)
    → get_from_version ctx stream_id v db ≡ ok es
    → db.fault ≡ none
unfolding get_from_version query_events
get_from_version-up ctx stream_id v db es h = ground arith

-- A replay that succeeds gives one event for each row of the stream that belongs to the caller's
-- tenant and has at least the version, in the order of insertion and without a gap.
pub replay-ok :
    (c : Columns) (ctx : Context) (cmd : Command) (db : Database) (es : List Event)
    → IsWellFormed db.rows
    → replay (event_store c) ctx cmd db ≡ ok es
    → (i : Identity) × (tenant_identity ctx ≡ some i) × AreRead (wanted i cmd db) es × HasNoGap es
unfolding event_store
replay-ok c ctx cmd db es wf h =
    let r = (replay_iff (event_store c) ctx cmd db es).0 h in
    let up = get_from_version-up ctx cmd.stream_id cmd.from_version db es r.read in
    let read = rw (get_from_version-wanted ctx r.identity cmd db wf r.known up) at r.read in
    (r.identity, r.known, scan_rows-AreRead _ es read, r.whole)
