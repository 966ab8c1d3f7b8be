-- ===== src/Postgres/Versions.antt =====
-- The versions of a stream: the table keeps them 1, 2, …, n, also when insertions overlap.
use mathlib.Core.List.{append-nil}
use event_streaming_and_audi.Prelude.{
  ℕ, suc, ◌+◌, ◌≤◌, pos, two63, leb, ◌≡◌, refl, ap, ◌∙◌, String, Bool, false, ◌==◌, eq_iff,
  if◌then◌else◌, Bool-cases, inl, inr, some, List, [], ◌∷◌, ◌++◌, select, select-append, length,
  arith, ◌||◌,
}
use event_streaming_and_audi.Errors.{ok, err, text}
use event_streaming_and_audi.Event.{Event, Uuid}
use event_streaming_and_audi.Postgres.{
  Row, Database, Columns, of_stream, max_version, next_version, clashes, insert_row, values_for,
}
use event_streaming_and_audi.Event.Metadata.{marshal_map}

-- The rows have the versions n, n + 1, … in this order.
abbrev pub Ascends : ℕ → List Row → Type 0
Ascends n [] = Unit
Ascends n (r ∷ rs) = (r.version ≡ pos n) × Ascends (suc n) rs

-- In every stream the rows have the versions 1, 2, … in the order of their insertion.
abbrev pub IsWellFormed : List Row → Type 0
IsWellFormed rows = (s : String) → Ascends 1 (select (of_stream s) rows)

-- The number of rows of a stream.
abbrev pub stream_length : String → List Row → ℕ
stream_length s rows = length (select (of_stream s) rows)

Ascends-append :
    (n : ℕ) (xs : List Row) (r : Row)
    → Ascends n xs
    → r.version ≡ pos (n + length xs)
    → Ascends n (xs ++ r ∷ [])
Ascends-append n [] r h e = (ground arith, tt)
Ascends-append n (x ∷ xs) r h e = (h.0, Ascends-append (suc n) xs r h.1 (ground arith))

max_version-Ascends :
    (n : ℕ) (r : Row) (rs : List Row)
    → Ascends n (r ∷ rs)
    → max_version (r ∷ rs) ≡ some (pos (n + length rs))
unfolding max_version
max_version-Ascends n r [] h = ground arith
max_version-Ascends n r (q ∷ qs) h = ground (arith, max_version-Ascends (suc n) q qs h.1)

next_of :
    (s : String) (rows : List Row) (own : List Row)
    → select (of_stream s) rows ≡ own
    → Ascends 1 own
    → next_version s rows ≡ (
        if leb two63 (length own + 1)
        then err (text "bigint out of range")
        else ok (pos (length own + 1)))
unfolding next_version
next_of s rows [] e h = unfold max_version in rw e (ground arith)
next_of s rows (r ∷ rs) e h = rw (e, max_version-Ascends 1 r rs h) (ground arith)

-- The version that an INSERT computes is one more than the number of the stream's rows.
pub next_version-eq :
    (s : String) (rows : List Row)
    → IsWellFormed rows
    → next_version s rows ≡ (
        if leb two63 (stream_length s rows + 1)
        then err (text "bigint out of range")
        else ok (pos (stream_length s rows + 1)))
next_version-eq s rows wf = next_of s rows (select (of_stream s) rows) refl (wf s)

-- A row of a stream with one of the versions that the stream has is refused by the constraint.
pub taken :
    (n k : ℕ) (r : Row) (rows : List Row)
    → Ascends n (select (of_stream r.stream_id) rows)
    → r.version ≡ pos k
    → n ≤ k
    → clashes r rows ≡ false
    → n + stream_length r.stream_id rows ≤ k
unfolding clashes
taken n k r [] h e l c = omega arith
taken n k r (q ∷ qs) h e l c = elim (Bool-cases (q.stream_id == r.stream_id)) [
  | inl same ↦ ground (arith, taken (suc n) k r qs)
  | inr other ↦ ground (arith, taken n k r qs)
]

-- One more row of a stream, with the next version, keeps every stream in order.
pub insert-IsWellFormed :
    (r : Row) (rows : List Row)
    → IsWellFormed rows
    → r.version ≡ pos (stream_length r.stream_id rows + 1)
    → IsWellFormed (rows ++ r ∷ [])
insert-IsWellFormed r rows wf e s = rw select-append (elim (Bool-cases (r.stream_id == s)) [
  | inl same ↦ rw same (
      Ascends-append 1 (select (of_stream s) rows) r (wf s)
        (rw (← (eq_iff r.stream_id s).0 same) (e ∙ ap pos (omega arith))))
  | inr other ↦ rw (other, append-nil) (wf s)
])

-- Whether a row has the id.
abbrev pub has_id : Uuid → List Row → Bool
has_id id [] = false
has_id id (r ∷ rs) = r.id == id || has_id id rs

-- A row with a fresh id and a version past those of its stream meets no constraint.
pub not_clashes :
    (n : ℕ) (r : Row) (rows : List Row)
    → Ascends n (select (of_stream r.stream_id) rows)
    → r.version ≡ pos (n + stream_length r.stream_id rows)
    → has_id r.id rows ≡ false
    → clashes r rows ≡ false
unfolding clashes
not_clashes n r [] h e f = refl
not_clashes n r (q ∷ qs) h e f = elim (Bool-cases (q.stream_id == r.stream_id)) [
  | inl same ↦ ground (arith, not_clashes (suc n) r qs)
  | inr other ↦ ground (arith, not_clashes n r qs)
]

-- What the row of an INSERT holds.
pub values_for-ok :
    (c : Columns) (e : Event) (db : Database) (r : Row)
    → values_for c e db ≡ ok r
    → (next_version e.stream_id db.rows ≡ ok r.version)
      × (r.stream_id ≡ e.stream_id)
      × (r.tenant_id ≡ e.tenant_id)
      × (r.id ≡ e.id)
      × (r.metadata ≡ c.jsonb (marshal_map e.metadata))
unfolding values_for
values_for-ok c e db r h = (ground arith, ground arith, ground arith, ground arith, ground arith)

-- The version is then the next one of the stream.
pub values_for-version :
    (c : Columns) (e : Event) (db : Database) (r : Row)
    → IsWellFormed db.rows
    → values_for c e db ≡ ok r
    → r.version ≡ pos (stream_length r.stream_id db.rows + 1)
values_for-version c e db r wf h =
    let (nv, same, _, _, _) = values_for-ok c e db r h in
    rw same (ground (arith, next_version-eq e.stream_id db.rows wf))

-- A row that is inserted, whenever its version was computed, keeps every stream in order.
pub insert_row-IsWellFormed :
    (r : Row) (k : ℕ) (rows rows' : List Row)
    → IsWellFormed rows
    → r.version ≡ pos k
    → 1 ≤ k
    → k ≤ stream_length r.stream_id rows + 1
    → insert_row r rows ≡ ok rows'
    → (rows' ≡ rows ++ r ∷ []) × IsWellFormed rows'
unfolding insert_row
insert_row-IsWellFormed r k rows rows' wf e low high h = elim (Bool-cases (clashes r rows)) [
  | inl clash ↦ cc (clash, h)
  | inr free ↦
      let full = taken 1 k r rows (wf r.stream_id) e low free in
      let same : rows' ≡ rows ++ r ∷ [] = ground arith in
      (same, rw same (insert-IsWellFormed r rows wf (e ∙ ap pos (omega arith))))
]
