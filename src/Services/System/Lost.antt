-- ===== src/Services/System/Lost.antt =====
-- An event whose publication does not come: Ingest has no second attempt, and nothing else publishes.
use mathlib.Core.Path.{subst}
use mathlib.Core.List.{Memᴰ}
use mathlib.Core.List.Memᴰ
use event_streaming_and_audi.Services.System.{
  Setup, System, Step, Reach, begin, finish, cancel, request, hand_over, lose, consume, provision,
  fault, here, next,
}
use event_streaming_and_audi.Services.System.Requests.{IsRecorded, answered-IsRecorded}
use event_streaming_and_audi.Services.System.Inserts.{settle-IsRecorded}
use event_streaming_and_audi.Services.System.Consumption.{OnlyPuts, process-put, ensure_index-view}
use event_streaming_and_audi.Services.System.Topics.{OnlyWrites, Memᴰ-without, marshal-IsStored}
use event_streaming_and_audi.Services.System.State.{IsSound, Memᴰ-queued}
use event_streaming_and_audi.Services.System.Sound.{Reach-IsSound, published-cases, Step-IsSound}
use event_streaming_and_audi.Services.{consumed_topic}
use event_streaming_and_audi.Event.{Event, Uuid}
use event_streaming_and_audi.Event.Wire.{Wire, of}
use event_streaming_and_audi.Postgres.{Database, Row}
use event_streaming_and_audi.Postgres.Contents.{IsStored, Extends, IsStored-Extends}
use event_streaming_and_audi.Postgres.Fresh.{fresh-other}
use event_streaming_and_audi.Prelude.{String, List, ◌≡◌, ◌≢◌, inl, inr, refl, sym, ◌∙◌, ◌++◌, ◌∷◌}

module _ {P I D : Type 0} (setup : Setup P I D) (log : P → String → List Wire)
    (Holds : I → Uuid → Wire → Type 0) (e : Event) where
  -- The event is in the table and nowhere else: it does not wait for its publication, is on no topic,
  -- and no document is under its id.
  pub record IsLost (s : System P I D) : Type 0 where
    pub stored : IsStored setup.columns s.db.rows e
    pub not_waiting : (f : Event) → Memᴰ f s.unpublished → f.id ≢ e.id
    pub not_logged : (t : String) (f : Event) → Memᴰ (of f) (log s.kafka t) → f.id ≢ e.id
    pub not_indexed : (w : Wire) → ¬ Holds s.progress.handled.0 e.id w

  recorded-IsLost :
      (s : System P I D) (db : Database) (q : List Event) (ps : List (Event × Row))
      → Extends s.db.rows db.rows
      → IsLost s
      → IsRecorded setup.columns (s.db, s.unpublished) (db, q)
      → IsLost (record s { db = db; unpublished = q; inserting = ps })
  recorded-IsLost s db q ps more lost (inl (_, still)) = record {
    stored = IsStored-Extends setup.columns s.db.rows db.rows e more lost.stored;
    not_waiting = λ f m. lost.not_waiting f (subst (Memᴰ f) still m);
    not_logged = lost.not_logged;
    not_indexed = lost.not_indexed;
  }
  recorded-IsLost s db q ps more lost (inr (g, r, kept, fresh, _, _, queued)) =
      let (row, there, held) = lost.stored in
      let other : g.id ≢ e.id =
        λ same. fresh-other r.id row s.db.rows fresh there (held.id ∙ sym same ∙ sym (kept.id)) in
      record {
        stored = IsStored-Extends setup.columns s.db.rows db.rows e more lost.stored;
        not_waiting = λ f m. elim (Memᴰ-queued s.unpublished q g queued f m) [
          | inl old ↦ lost.not_waiting f old
          | inr new ↦ subst (λ (x : Event). x.id ≢ e.id) (sym new) other
        ];
        not_logged = lost.not_logged;
        not_indexed = lost.not_indexed;
      }

  still_not_waiting :
      (s : System P I D) (before : List Event) (g : Event) (after : List Event)
      → IsLost s
      → s.unpublished ≡ before ++ g ∷ after
      → (f : Event) → Memᴰ f (before ++ after)
      → f.id ≢ e.id
  still_not_waiting s before g after lost split f m =
      lost.not_waiting f (subst (Memᴰ f) (sym split) (Memᴰ-without before g after m))

  module _ (writes : OnlyWrites setup.writer log) (puts : OnlyPuts setup.client Holds) where
    Step-IsLost :
        {s t : System P I D}
        → Step setup log s t
        → IsSound setup log Holds s
        → Extends s.db.rows t.db.rows
        → IsLost s
        → IsLost t
    Step-IsLost {s} (request route id now r) sound more lost =
        recorded-IsLost s _ _ s.inserting more lost
          (answered-IsRecorded setup log route id now r s sound.rows)
    Step-IsLost {s} (begin i id now cmd r named complete made) sound more lost = record {
      stored = lost.stored;
      not_waiting = lost.not_waiting;
      not_logged = lost.not_logged;
      not_indexed = lost.not_indexed;
    }
    Step-IsLost {s} (finish before g r after split) sound more lost =
        let (timely, kept) =
          sound.inserting g r
            (subst (Memᴰ (g, r)) (sym split) (Memᴰ.append_right before (Memᴰ.head refl))) in
        recorded-IsLost s _ _ (before ++ after) more lost
          (settle-IsRecorded setup.columns g r s.db s.unpublished sound.rows timely kept)
    Step-IsLost {s} (cancel before g r after split) sound more lost = record {
      stored = lost.stored;
      not_waiting = lost.not_waiting;
      not_logged = lost.not_logged;
      not_indexed = lost.not_indexed;
    }
    Step-IsLost {s} (hand_over before g after split) sound more lost =
        let here_it_is = subst (Memᴰ g) (sym split) (Memᴰ.append_right before (Memᴰ.head refl)) in
        record {
          stored = lost.stored;
          not_waiting = still_not_waiting s before g after lost split;
          not_logged = λ t f m.
              elim (published-cases setup log Holds writes puts s g t (of f)
                (sound.waiting g here_it_is) m) [
                  | inl old ↦ lost.not_logged t f old
                  | inr same ↦
                      let is_g : f ≡ g = cc in
                      subst (λ (x : Event). x.id ≢ e.id) (sym is_g) (lost.not_waiting g here_it_is)
                ];
          not_indexed = lost.not_indexed;
        }
    Step-IsLost {s} (lose before g after split) sound more lost = record {
      stored = lost.stored;
      not_waiting = still_not_waiting s before g after lost split;
      not_logged = lost.not_logged;
      not_indexed = lost.not_indexed;
    }
    Step-IsLost {s} (consume now m commit read) sound more lost =
        let (g, value, stored) = sound.logged _ m.value read in
        let put =
          process-put setup log now m commit s.progress g value
            (marshal-IsStored setup.columns s.db.rows g stored) in
        let topic = consumed_topic setup.kafka in
        let other = lost.not_logged topic g (subst (λ w. Memᴰ w (log s.kafka topic)) value read) in
        record {
          stored = lost.stored;
          not_waiting = lost.not_waiting;
          not_logged = lost.not_logged;
          not_indexed = λ w h.
              elim (puts.put setup.index_name g.id (of g) s.progress.handled.0 e.id w
                (subst (λ i. Holds i e.id w) put h)) [
                  | inl old ↦ lost.not_indexed w old
                  | inr (same, _) ↦ absurd (other (sym same))
                ];
        }
    Step-IsLost {s} provision sound more lost = record {
      stored = lost.stored;
      not_waiting = lost.not_waiting;
      not_logged = lost.not_logged;
      not_indexed = λ w h. lost.not_indexed w (
          ensure_index-view setup.client Holds puts setup.index_name s.progress.handled.0 e.id w h);
    }
    Step-IsLost {s} (fault x reply) sound more lost = record {
      stored = lost.stored;
      not_waiting = lost.not_waiting;
      not_logged = lost.not_logged;
      not_indexed = lost.not_indexed;
    }

    -- Where Kafka and Elasticsearch hold nothing but what is written to them: an event of a sound state
    -- that is in the table only (the process has ended between the append and the publication, Kafka has
    -- refused the message, or the answer of the INSERT was lost) is in no later state on a topic or in the index, and stays in the table.
    pub Reach-IsLost :
        {s t : System P I D} → IsSound setup log Holds s → IsLost s → Reach setup log s t → IsLost t
    Reach-IsLost sound lost here = lost
    Reach-IsLost sound lost (next {t = t} {u = u} before step) =
        let (middle, _) = Reach-IsSound setup log Holds writes puts sound before in
        let (_, more) = Step-IsSound setup log Holds writes puts step middle in
        Step-IsLost step middle more (Reach-IsLost sound lost before)
