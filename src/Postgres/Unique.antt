-- ===== src/Postgres/Unique.antt =====
-- The UNIQUE (stream_id, version) as the streams keep it: one row for a version.
use mathlib.Core.Path.{subst}
use mathlib.Core.List.{Memᴰ}
use event_streaming_and_audi.Postgres.{Columns, Row, of_stream}
use event_streaming_and_audi.Postgres.Versions.{Ascends, IsWellFormed}
use event_streaming_and_audi.Postgres.Contents.{IsStored, IsRowOf}
use event_streaming_and_audi.Event.{Event}
use event_streaming_and_audi.Prelude.{
  ℕ, suc, ◌≤◌, pos, Bool, true, ◌≡◌, ◌∙◌, sym, ap, List, [], ◌∷◌, select, Bool-cases, inl, inr,
  arith, eq_iff,
}

pub Memᴰ-select :
    {A : Type 0} (p : A → Bool) {x : A} (xs : List A)
    → Memᴰ x xs
    → p x ≡ true
    → Memᴰ x (select p xs)
Memᴰ-select p [] m h = elim m [ ]
Memᴰ-select p {x} (y ∷ ys) (Memᴰ.head e) h =
    let first : p y ≡ true = ap p (sym e) ∙ h in rw first (Memᴰ.head e)
Memᴰ-select p {x} (y ∷ ys) (Memᴰ.tail m) h = elim (Bool-cases (p y)) [
  | inl passed ↦ rw passed (Memᴰ.tail (Memᴰ-select p ys m h))
  | inr refused ↦ rw refused (Memᴰ-select p ys m h)
]

Ascends-past :
    (n : ℕ) (r : Row) (rs : List Row)
    → Ascends n rs
    → Memᴰ r rs
    → (k : ℕ) × (r.version ≡ pos k) × (n ≤ k)
Ascends-past n r [] a m = elim m [ ]
Ascends-past n r (q ∷ rs) a (Memᴰ.head e) = (n, ap (λ (x : Row). x.version) e ∙ a.0, omega arith)
Ascends-past n r (q ∷ rs) a (Memᴰ.tail m) =
    let (k, v, low) = Ascends-past (suc n) r rs a.1 m in (k, v, omega arith)

-- The first version does not come again.
first_again :
    (n : ℕ) (r : Row) (rs : List Row) → Ascends (suc n) rs → Memᴰ r rs → ¬ (r.version ≡ pos n)
first_again n r rs a m v = let (k, w, low) = Ascends-past (suc n) r rs a m in ground arith

Ascends-one :
    (n : ℕ) (r q : Row) (rs : List Row)
    → Ascends n rs
    → Memᴰ r rs
    → Memᴰ q rs
    → r.version ≡ q.version
    → r ≡ q
Ascends-one n r q [] a m l h = elim m [ ]
Ascends-one n r q (p ∷ rs) a (Memᴰ.head e) (Memᴰ.head f) h = e ∙ sym f
Ascends-one n r q (p ∷ rs) a (Memᴰ.head e) (Memᴰ.tail m) h =
    absurd (first_again n q rs a.1 m (sym h ∙ ap (λ (x : Row). x.version) e ∙ a.0))
Ascends-one n r q (p ∷ rs) a (Memᴰ.tail m) (Memᴰ.head f) h =
    absurd (first_again n r rs a.1 m (h ∙ ap (λ (x : Row). x.version) f ∙ a.0))
Ascends-one n r q (p ∷ rs) a (Memᴰ.tail m) (Memᴰ.tail l) h = Ascends-one (suc n) r q rs a.1 m l h

-- Two stored events of one stream with one version are held by the same row.
pub IsStored-one :
    (c : Columns) (rows : List Row) (e f : Event)
    → IsWellFormed rows
    → IsStored c rows e
    → IsStored c rows f
    → e.stream_id ≡ f.stream_id
    → e.version ≡ f.version
    → (r : Row) × Memᴰ r rows × IsRowOf c e r × IsRowOf c f r
IsStored-one c rows e f wf (r, m, kept) (q, l, held) stream version =
    let of_r : r.stream_id ≡ e.stream_id = kept.stream_id in
    let of_q : q.stream_id ≡ e.stream_id = held.stream_id ∙ sym stream in
    let same : r ≡ q =
      Ascends-one 1 r q (select (of_stream e.stream_id) rows) (wf e.stream_id)
        (Memᴰ-select (of_stream e.stream_id) rows m ((eq_iff r.stream_id e.stream_id).1 of_r))
        (Memᴰ-select (of_stream e.stream_id) rows l ((eq_iff q.stream_id e.stream_id).1 of_q))
        (kept.version ∙ version ∙ sym (held.version)) in
    (r, m, kept, subst (IsRowOf c f) (sym same) held)
