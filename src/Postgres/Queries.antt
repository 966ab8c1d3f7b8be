-- ===== src/Postgres/Queries.antt =====
-- The SELECT statements: ORDER BY version gives a stream's rows in the order of their insertion, and
-- a scan gives one event for each row.
use event_streaming_and_audi.Prelude.{
  ℕ, List, Bool, String, ◌≤◌, select, ◌≡◌, Option, pos, ◌&&◌, All, [], suc, ◌∷◌, arith, Bool-cases,
  inl, inr, refl, none, some,
}
use event_streaming_and_audi.Postgres.Versions.{IsWellFormed, Ascends}
use event_streaming_and_audi.Postgres.{
  Row, insert_by_version, order_by_version, scan_rows, select, scan_event, Event, of_stream,
  event_of, query_events, Database,
}
use event_streaming_and_audi.Event.{Event, StringMap}
use event_streaming_and_audi.Errors.{ok, Result-cases, Error, err, wrapped}
use event_streaming_and_audi.Event.Metadata.{unmarshal_map}
use event_streaming_and_audi.Event.Json.{encoded}

-- The versions rise, from n on.
abbrev pub Climbs : ℕ → List Row → Type 0
Climbs n [] = Unit
Climbs n (r ∷ rs) = (k : ℕ) × (r.version ≡ pos k) × (n ≤ k) × Climbs (suc k) rs

Climbs-weaken : (m n : ℕ) (rs : List Row) → m ≤ n → Climbs n rs → Climbs m rs
Climbs-weaken m n [] le h = tt
Climbs-weaken m n (r ∷ rs) le (k, e, low, h) = (k, e, omega arith, h)

pub Climbs-select : (q : Row → Bool) (n : ℕ) (rs : List Row) → Ascends n rs → Climbs n (select q rs)
Climbs-select q n [] h = tt
Climbs-select q n (r ∷ rs) (e, h) = elim (Bool-cases (q r)) [
  | inl kept ↦ rw kept (n, e, omega arith, Climbs-select q (suc n) rs h)
  | inr dropped ↦
      rw dropped (Climbs-weaken n (suc n) _ (omega arith) (Climbs-select q (suc n) rs h))
]

insert_by_version-Climbs :
    (r : Row) (k : ℕ) (rs : List Row)
    → r.version ≡ pos k
    → Climbs (suc k) rs
    → insert_by_version r rs ≡ r ∷ rs
unfolding insert_by_version
insert_by_version-Climbs r k [] e h = refl
insert_by_version-Climbs r k (q ∷ qs) e (m, e', low, h) = ground arith

order_by_version-Climbs : (n : ℕ) (rs : List Row) → Climbs n rs → order_by_version rs ≡ rs
unfolding order_by_version
order_by_version-Climbs n [] h = refl
order_by_version-Climbs n (r ∷ rs) (k, e, low, h) =
    rw (order_by_version-Climbs (suc k) rs h) (insert_by_version-Climbs r k rs e h)

pub select-and {ℓ} :
    {A : Type ℓ} (p q : A → Bool) (xs : List A)
    → select (λ x. p x && q x) xs ≡ select q (select p xs)
select-and p q [] = refl
select-and p q (x ∷ xs) = ground (arith, select-and p q xs)

-- The rows of a stream come in the order of their insertion, whatever else the query asks.
pub order_by_version-stream :
    (s : String) (q : Row → Bool) (rows : List Row)
    → IsWellFormed rows
    → order_by_version (select (λ r. of_stream s r && q r) rows)
      ≡ select q (select (of_stream s) rows)
order_by_version-stream s q rows wf =
    rw (select-and (of_stream s) q rows) (order_by_version-Climbs 1 _ (Climbs-select q 1 _ (wf s)))

-- With the connection up, a query is a scan of the rows in order.
pub query_events-up :
    (what : String) (q : Row → Bool) (db : Database)
    → db.fault ≡ none
    → query_events what q db ≡ scan_rows (order_by_version (select q db.rows))
unfolding query_events
query_events-up what q db up = rw up

-- With the connection lost it fails, and says which query it was.
pub query_events-down :
    (what : String) (q : Row → Bool) (db : Database) (x : Error)
    → db.fault ≡ some x
    → query_events what q db ≡ err (wrapped what x)
unfolding query_events
query_events-down what q db x down = rw down

-- A row whose metadata column holds a map of texts, as every row does that Append has written.
abbrev pub IsReadable : Row → Type 0
IsReadable r = (m : Option StringMap) × (unmarshal_map r.metadata ≡ ok m)

pub scan_rows-IsReadable :
    (rs : List Row) → All IsReadable rs → (es : List Event) × (scan_rows rs ≡ ok es)
unfolding scan_rows scan_event
scan_rows-IsReadable [] h = ([], refl)
scan_rows-IsReadable (r ∷ rs) ((m, e), h) =
    let (es, done) = scan_rows-IsReadable rs h in (event_of r m ∷ es, ground arith)

-- The event that a row is read as.
pub record IsRead (r : Row) (e : Event) : Type 0 where
  pub id : e.id ≡ r.id
  pub tenant_id : e.tenant_id ≡ r.tenant_id
  pub stream_id : e.stream_id ≡ r.stream_id
  pub type : e.type ≡ r.type
  pub source : e.source ≡ r.source
  pub version : e.version ≡ r.version
  pub occurred_at : e.occurred_at ≡ r.occurred_at
  pub payload : e.payload ≡ encoded r.payload
  pub metadata : unmarshal_map r.metadata ≡ ok e.metadata

-- One event for each row, in the same order.
abbrev pub AreRead : List Row → List Event → Type 0
AreRead [] [] = Unit
AreRead [] (e ∷ es) = ⊥
AreRead (r ∷ rs) [] = ⊥
AreRead (r ∷ rs) (e ∷ es) = IsRead r e × AreRead rs es

pub scan_event-IsRead : (r : Row) (e : Event) → scan_event r ≡ ok e → IsRead r e
unfolding scan_event
scan_event-IsRead r e h = ground arith

pub scan_rows-AreRead : (rs : List Row) (es : List Event) → scan_rows rs ≡ ok es → AreRead rs es
unfolding scan_rows
scan_rows-AreRead [] [] h = tt
scan_rows-AreRead [] (e ∷ es) h = cc
scan_rows-AreRead (r ∷ rs) es h = elim (Result-cases (scan_event r)) [
  | inr (x, failed) ↦ cc (rw failed at h)
  | inl (e, first) ↦ elim (Result-cases (scan_rows rs)) [
    | inr (x, failed) ↦ cc (rw (first, failed) at h)
    | inl (es', later) ↦
        let same : e ∷ es' ≡ es = ground (arith) in
        rw (← same) (scan_event-IsRead r e first, scan_rows-AreRead rs es' later)
  ]
]
