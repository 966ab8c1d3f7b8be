-- ===== src/Postgres/Fresh.antt =====
-- The PRIMARY KEY of the table: an id comes once.
use mathlib.Core.List.{Memᴰ}
use mathlib.Core.List.Memᴰ
use event_streaming_and_audi.Postgres.{
  Columns, Row, Database, append, insert_row, values_for, clashes,
}
use event_streaming_and_audi.Postgres.Versions.{has_id, values_for-ok}
use event_streaming_and_audi.Event.{Event, Uuid}
use event_streaming_and_audi.Errors.{ok, Result-cases}
use event_streaming_and_audi.Prelude.{
  List, [], ◌∷◌, ◌≡◌, ◌≢◌, refl, sym, ap, ◌∙◌, false, inl, inr, Bool-cases, arith, eq_iff, ◌++◌,
}

pub clashes-has_id : (r : Row) (rows : List Row) → clashes r rows ≡ false → has_id r.id rows ≡ false
unfolding clashes
clashes-has_id r [] h = refl
clashes-has_id r (q ∷ qs) h = ground (arith, clashes-has_id r qs)

-- An append that succeeds has met no row with the event's id.
pub append-fresh :
    (c : Columns) (e e' : Event) (db db' : Database)
    → append c e db ≡ (ok e', db')
    → has_id e.id db.rows ≡ false
unfolding append insert_row
append-fresh c e e' db db' h = elim (Result-cases (values_for c e db)) [
  | inr (x, failed) ↦ ground arith
  | inl (r, made) ↦ elim (Bool-cases (clashes r db.rows)) [
    | inl clash ↦ ground arith
    | inr free ↦
        let (_, _, _, key, _) = values_for-ok c e db r made in
        rw (← key) (clashes-has_id r db.rows free)
  ]
]

-- No row that is there has a fresh id.
pub fresh-other :
    (id : Uuid) (r : Row) (rows : List Row) → has_id id rows ≡ false → Memᴰ r rows → r.id ≢ id
fresh-other id r [] h m = elim m [ ]
fresh-other id r (q ∷ rows) h (Memᴰ.head e) =
    let other : q.id ≢ id = ground (arith, eq_iff q.id id) in
    λ same. other (sym (ap (λ (x : Row). x.id) e) ∙ same)
fresh-other id r (q ∷ rows) h (Memᴰ.tail m) =
    let rest : has_id id rows ≡ false = ground arith in fresh-other id r rows rest m

-- An id names one row.
abbrev pub HasKeys : List Row → Type 0
HasKeys rows = (r q : Row) → Memᴰ r rows → Memᴰ q rows → r.id ≡ q.id → r ≡ q

pub HasKeys-append :
    (rows : List Row) (r : Row) → HasKeys rows → has_id r.id rows ≡ false → HasKeys (rows ++ r ∷ [])
HasKeys-append rows r keys fresh x y m l same = elim (Memᴰ.append_cases rows m) [
  | inl old ↦ elim (Memᴰ.append_cases rows l) [
    | inl old' ↦ keys x y old old' same
    | inr new' ↦
        let is_r = Memᴰ.eq_of_singleton new' in
        absurd (fresh-other r.id x rows fresh old (same ∙ ap (λ (z : Row). z.id) is_r))
  ]
  | inr new ↦ elim (Memᴰ.append_cases rows l) [
    | inl old' ↦
        let is_r = Memᴰ.eq_of_singleton new in
        absurd (fresh-other r.id y rows fresh old' (sym same ∙ ap (λ (z : Row). z.id) is_r))
    | inr new' ↦ Memᴰ.eq_of_singleton new ∙ sym (Memᴰ.eq_of_singleton new')
  ]
]
