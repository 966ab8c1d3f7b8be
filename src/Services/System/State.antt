-- ===== src/Services/System/State.antt =====
-- The states that the system keeps to, and what one more row does to such a state.
use mathlib.Core.Path.{subst}
use mathlib.Core.List.{Memᴰ, append-nil}
use mathlib.Core.List.Memᴰ
use event_streaming_and_audi.Services.System.{Setup, System}
use event_streaming_and_audi.Services.System.Requests.{IsRecorded}
use event_streaming_and_audi.Event.{Event, Uuid}
use event_streaming_and_audi.Event.Wire.{Wire, of}
use event_streaming_and_audi.Postgres.{Database, Row}
use event_streaming_and_audi.Postgres.Concurrent.{IsTimely, IsTimely-one}
use event_streaming_and_audi.Services.System.Topics.{IsText, IsText-Extends, Memᴰ-without}
use event_streaming_and_audi.Postgres.Fresh.{HasKeys, HasKeys-append}
use event_streaming_and_audi.Postgres.Contents.{IsStored, IsRowOf, Extends, IsStored-Extends}
use event_streaming_and_audi.Postgres.Versions.{IsWellFormed, insert-IsWellFormed}
use event_streaming_and_audi.Prelude.{
  String, List, ◌≡◌, inl, inr, refl, ap, sym, ◌∙◌, ◌++◌, ◌∷◌, [], ◌⊎◌,
}

-- What waits after a request: what has waited, or the new event.
pub Memᴰ-queued :
    (q q' : List Event) (e : Event)
    → (q' ≡ q ++ e ∷ []) ⊎ (q' ≡ q)
    → (f : Event) → Memᴰ f q'
    → Memᴰ f q ⊎ (f ≡ e)
Memᴰ-queued q q' e (inl queued) f m = elim (Memᴰ.append_cases q (subst (Memᴰ f) queued m)) [
  | inl old ↦ inl old
  | inr new ↦ inr (Memᴰ.eq_of_singleton new)
]
Memᴰ-queued q q' e (inr same) f m = inl (subst (Memᴰ f) same m)

module _ {P I D : Type 0} (setup : Setup P I D) (log : P → String → List Wire)
    (Holds : I → Uuid → Wire → Type 0) where
  pub record IsSound (s : System P I D) : Type 0 where
    pub rows : IsWellFormed s.db.rows
    pub keys : HasKeys s.db.rows
    pub inserting :
        (e : Event) (r : Row)
        → Memᴰ (e, r) s.inserting
        → IsTimely s.db.rows r × IsRowOf setup.columns e r
    pub waiting : (e : Event) → Memᴰ e s.unpublished → IsStored setup.columns s.db.rows e
    pub logged : (t : String) (w : Wire) → Memᴰ w (log s.kafka t) → IsText setup.columns s.db.rows w
    pub indexed :
        (id : Uuid) (w : Wire)
        → Holds s.progress.handled.0 id w
        → (e : Event) × (w ≡ of e) × (id ≡ e.id) × IsStored setup.columns s.db.rows e

  -- A request, or the end of an INSERT, which leaves `ps` of the INSERTs.
  pub recorded-IsSound :
      (s : System P I D) (db : Database) (q : List Event) (ps : List (Event × Row))
      → IsSound s
      → ((x : Event × Row) → Memᴰ x ps → Memᴰ x s.inserting)
      → IsRecorded setup.columns (s.db, s.unpublished) (db, q)
      → IsSound (record s { db = db; unpublished = q; inserting = ps }) × Extends s.db.rows db.rows
  recorded-IsSound s db q ps sound fewer (inl (same, still)) =
      let rows : db.rows ≡ s.db.rows = ap (λ (d : Database). d.rows) same in
      (
        subst (λ (d : Database). IsSound (record s { db = d; unpublished = q; inserting = ps }))
            (sym same)
            (record {
              rows = sound.rows;
              keys = sound.keys;
              inserting = λ e r m. sound.inserting e r (fewer (e, r) m);
              waiting = λ e m. sound.waiting e (subst (Memᴰ e) still m);
              logged = sound.logged;
              indexed = sound.indexed;
            }),
        ([], rows ∙ sym (append-nil s.db.rows)),
      )
  recorded-IsSound s db q ps sound fewer (inr (e, r, kept, fresh, version, stored, queued)) =
      let rows : db.rows ≡ s.db.rows ++ r ∷ [] = ap (λ (d : Database). d.rows) stored in
      let more : Extends s.db.rows db.rows = (r ∷ [], rows) in
      let added : IsStored setup.columns db.rows e =
        (r, subst (Memᴰ r) (sym rows) (Memᴰ.append_right s.db.rows (Memᴰ.head refl)), kept) in
      (
        record {
          rows = subst IsWellFormed (sym rows) (insert-IsWellFormed r s.db.rows sound.rows version);
          keys = subst HasKeys (sym rows) (HasKeys-append s.db.rows r sound.keys fresh);
          inserting = λ f p m.
              let (timely, own) = sound.inserting f p (fewer (f, p) m) in
              (subst (λ rs. IsTimely rs p) (sym rows) (IsTimely-one s.db.rows r p timely), own);
          waiting = λ f m. elim (Memᴰ-queued s.unpublished q e queued f m) [
            | inl old ↦
                IsStored-Extends setup.columns s.db.rows db.rows f more (sound.waiting f old)
            | inr new ↦ subst (IsStored setup.columns db.rows) (sym new) added
          ];
          logged =
              λ t w m. IsText-Extends setup.columns s.db.rows db.rows w more (sound.logged t w m);
          indexed = λ id w h.
              let (f, text, key, old) = sound.indexed id w h in
              (f, text, key, IsStored-Extends setup.columns s.db.rows db.rows f more old);
        },
        more,
      )

  pub unqueued :
      (s : System P I D) (before : List Event) (e : Event) (after : List Event)
      → IsSound s
      → s.unpublished ≡ before ++ e ∷ after
      → (f : Event) → Memᴰ f (before ++ after)
      → IsStored setup.columns s.db.rows f
  unqueued s before e after sound split f m =
      sound.waiting f (subst (Memᴰ f) (sym split) (Memᴰ-without before e after m))
