-- ===== src/Postgres/Streams.antt =====
-- The store as its callers are to see it: one log for each stream, which only grows.
use event_streaming_and_audi.Postgres.{
  Row, Database, Columns, append, get_from_version, get_by_stream_id, of_stream, of_tenant,
}
use event_streaming_and_audi.Postgres.Queries.{AreRead}
use event_streaming_and_audi.Event.{Event}
use event_streaming_and_audi.Auth.{Context, tenant_identity}
use event_streaming_and_audi.Errors.{Result, ok, err, Error}
use event_streaming_and_audi.Postgres.Contents.{IsRowOf}
use event_streaming_and_audi.Prelude.{
  ◌⊎◌, String, List, select, ◌≡◌, ℤ, pos, ◌++◌, [], ◌∷◌, Option, length, if◌then◌else◌, ◌&&◌, ◌+◌,
  ◌==◌, leb_ℤ,
}

-- What callers do, and what happens to the connection meanwhile.
pub data Call : Type 0 where
  add : Event → Call
  read_from : Context → String → ℤ → Call
  read_stream : Context → String → Call
  connection : (fault reply : Option Error) → Call

pub data Answer : Type 0 where
  added : Result Event → Answer
  events : Result (List Event) → Answer
  noted : Answer

module _ (c : Columns) where
  -- The calls on EventStore, one after the other.
  unfoldable pub answer : Call → Database → Answer × Database
  answer (add e) db = let (r, db') = append c e db in (added r, db')
  answer (read_from ctx s v) db = (events (get_from_version ctx s v db), db)
  answer (read_stream ctx s) db = (events (get_by_stream_id ctx s db), db)
  answer (connection o reply) db = (noted, record db { fault = o; reply = reply })

  unfoldable pub answers : List Call → Database → List Answer × Database
  answers [] db = ([], db)
  answers (call ∷ calls) db =
      let (a, db') = answer call db in let (as', db'') = answers calls db' in (a ∷ as', db'')

-- The entries of each stream, the oldest first.
abbrev pub Log : Type 0
Log = String → List Row

abbrev pub log_of : Database → Log
log_of db s = select (of_stream s) db.rows

abbrev pub Same : Log → Log → Type 0
Same l m = (s : String) → m s ≡ l s

-- The event is the next entry of its stream, numbered from 1, and the other streams stay as they are.
-- The entry holds the event column by column.
abbrev pub Adds : Columns → Log → Event → ℤ → Log → Type 0
Adds c l e v m =
    (r : Row) × IsRowOf c (record e { version = v }) r
    × (v ≡ pos (length (l e.stream_id) + 1))
    × ((s : String) → m s ≡ (if e.stream_id == s then l s ++ r ∷ [] else l s))

-- What a log may answer to a call, and how it stands afterwards. A call may fail, and then changes
-- nothing, except that an event may have been added whose answer was lost. An added event is the next
-- entry of its stream, and has its version. A reader gets the entries of the stream that are its
-- tenant's (all, if it has none), from the version on, the oldest first.
abbrev pub Allowed : Columns → Log → Call → Answer → Log → Type 0
Allowed c l (add e) (added (ok e')) m =
    Adds c l e e'.version m × (e' ≡ record e { version = e'.version })
Allowed c l (add e) (added (err x)) m = Same l m ⊎ ((v : ℤ) × Adds c l e v m)
Allowed c l (add e) (events r) m = ⊥
Allowed c l (add e) noted m = ⊥
Allowed c l (read_from ctx s v) (events (ok es)) m =
    AreRead (select (λ r. leb_ℤ v r.version && of_tenant (tenant_identity ctx) r) (l s)) es
    × Same l m
Allowed c l (read_from ctx s v) (events (err x)) m = Same l m
Allowed c l (read_from ctx s v) (added r) m = ⊥
Allowed c l (read_from ctx s v) noted m = ⊥
Allowed c l (read_stream ctx s) (events (ok es)) m =
    AreRead (select (of_tenant (tenant_identity ctx)) (l s)) es × Same l m
Allowed c l (read_stream ctx s) (events (err x)) m = Same l m
Allowed c l (read_stream ctx s) (added r) m = ⊥
Allowed c l (read_stream ctx s) noted m = ⊥
Allowed c l (connection o reply) noted m = Same l m
Allowed c l (connection o reply) (added r) m = ⊥
Allowed c l (connection o reply) (events r) m = ⊥

-- The answers to calls, one after the other.
abbrev pub Conforms : Columns → Log → List Call → List Answer → Log → Type 0
Conforms c l [] [] m = Same l m
Conforms c l [] (a ∷ answers) m = ⊥
Conforms c l (call ∷ calls) [] m = ⊥
Conforms c l (call ∷ calls) (a ∷ answers) m =
    (k : Log) × Allowed c l call a k × Conforms c k calls answers m
