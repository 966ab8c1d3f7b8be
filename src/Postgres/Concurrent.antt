-- ===== src/Postgres/Concurrent.antt =====
-- Appends that overlap: each INSERT computes its version in a snapshot, and is settled later against
-- the table as it then is. The source leaves the races to the UNIQUE constraint.
use event_streaming_and_audi.Postgres.{Database, Row, Columns, insert_row, values_for, ok}
use mathlib.Core.Path.{subst}
use event_streaming_and_audi.Prelude.{
  List, String, ℕ, All, ◌≡◌, ◌≤◌, ◌++◌, ◌+◌, ◌∷◌, pos, inl, Option, [], arith, select-append,
  All-split, inr, length-append, sym,
}
use event_streaming_and_audi.Postgres.Versions.{
  IsWellFormed, stream_length, values_for-version, insert_row-IsWellFormed,
}
use event_streaming_and_audi.Event.{Event}
use event_streaming_and_audi.Errors.{Result-cases, err, Error}

-- The table, and the INSERTs that have their values and are not settled.
pub record Concurrent : Type 0 where
  pub db : Database
  pub pending : List Row

-- The table after an INSERT is settled: the row is added, or the constraint refuses it.
abbrev pub settle : Row → List Row → List Row
settle r rows = elim (insert_row r rows) [ ok rows' ↦ rows' | err _ ↦ rows ]

pub data Step (c : Columns) (s : Concurrent) : Concurrent → Type 0 where
  begin :
      (e : Event) (r : Row)
      → values_for c e s.db ≡ ok r
      → Step c s (record s { pending = r ∷ s.pending })
  finish :
      (before : List Row) (r : Row) (after : List Row)
      → s.pending ≡ before ++ r ∷ after
      → Step c s (record {
        db = record { rows = settle r s.db.rows; fault = s.db.fault; reply = s.db.reply };
        pending = before ++ after;
      })
  cancel :
      (before : List Row) (r : Row) (after : List Row)
      → s.pending ≡ before ++ r ∷ after
      → Step c s (record s { pending = before ++ after })
  fault :
      (x reply : Option Error)
      → Step c s (record s { db = record { rows = s.db.rows; fault = x; reply = reply } })

pub data Reach (c : Columns) (s : Concurrent) : Concurrent → Type 0 where
  here : Reach c s s
  next : {t u : Concurrent} → Reach c s t → Step c t u → Reach c s u

-- A pending row has a version that the stream has or that comes next.
abbrev pub IsTimely : List Row → Row → Type 0
IsTimely rows r = (k : ℕ) × (r.version ≡ pos k) × (1 ≤ k) × (k ≤ stream_length r.stream_id rows + 1)

pub record IsConsistent (s : Concurrent) : Type 0 where
  pub rows : IsWellFormed s.db.rows
  pub pending : All (IsTimely s.db.rows) s.pending

stream_length-append :
    (st : String) (rows : List Row) (r : Row)
    → stream_length st rows ≤ stream_length st (rows ++ r ∷ [])
stream_length-append st rows r = rw select-append (rw length-append (omega arith))

pub IsTimely-one : (rows : List Row) (r p : Row) → IsTimely rows p → IsTimely (rows ++ r ∷ []) p
IsTimely-one rows r p (k, e, low, high) =
    (k, e, low, omega (arith, stream_length-append p.stream_id rows r))

IsTimely-append :
    (rows : List Row) (r : Row) (ps : List Row)
    → All (IsTimely rows) ps
    → All (IsTimely (rows ++ r ∷ [])) ps
IsTimely-append rows r [] h = tt
IsTimely-append rows r (p ∷ ps) (t, h) = (IsTimely-one rows r p t, IsTimely-append rows r ps h)

abbrev IsSettled : List Row → List Row → Type 0
IsSettled ps rows = IsWellFormed rows × All (IsTimely rows) ps

settle-ok : (r : Row) (rows rows' : List Row) → insert_row r rows ≡ ok rows' → settle r rows ≡ rows'
settle-ok r rows rows' e = ground arith

settle-err :
    (r : Row) (rows : List Row) (x : Error) → insert_row r rows ≡ err x → settle r rows ≡ rows
settle-err r rows x e = ground arith

settle-consistent :
    (r : Row) (rows ps : List Row)
    → IsWellFormed rows
    → IsTimely rows r
    → All (IsTimely rows) ps
    → IsSettled ps (settle r rows)
settle-consistent r rows ps wf (k, e, low, high) h = elim (Result-cases (insert_row r rows)) [
  | inl (rows', done) ↦
      let (same, wf') = insert_row-IsWellFormed r k rows rows' wf e low high done in
      subst (IsSettled ps) (sym (settle-ok r rows rows' done))
        (wf', rw same (IsTimely-append rows r ps h))
  | inr (x, failed) ↦ subst (IsSettled ps) (sym (settle-err r rows x failed)) (wf, h)
]

Step-IsConsistent : {c : Columns} {s t : Concurrent} → Step c s t → IsConsistent s → IsConsistent t
Step-IsConsistent {c} {s} (begin e r made) h = record {
  rows = h.rows;
  pending = (
    (
      stream_length r.stream_id s.db.rows + 1,
      values_for-version c e s.db r h.rows made,
      omega arith,
      omega arith,
    ),
    h.pending,
  );
}
Step-IsConsistent {s} (finish before r after split) h =
    let (own, rest) = All-split (IsTimely s.db.rows) before r after (rw split at h.pending) in
    let (wf, timely) = settle-consistent r s.db.rows (before ++ after) h.rows own rest in
    record { rows = wf; pending = timely }
Step-IsConsistent {s} (cancel before r after split) h = record {
  rows = h.rows;
  pending = (All-split (IsTimely s.db.rows) before r after (rw split at h.pending)).1;
}
Step-IsConsistent (fault x reply) h = record { rows = h.rows; pending = h.pending }

-- However appends overlap, fail or are cancelled, every stream that starts in order stays in order:
-- no version is given twice and none is left out.
pub Reach-IsConsistent :
    {c : Columns} {s t : Concurrent} → IsConsistent s → Reach c s t → IsConsistent t
Reach-IsConsistent h here = h
Reach-IsConsistent h (next r st) = Step-IsConsistent st (Reach-IsConsistent h r)
