-- ===== src/Services/System/Sound.antt =====
-- What every reachable state of the system keeps: an event that waits, is on a topic or is in the
-- index is in the table.
use mathlib.Core.Path.{subst}
use mathlib.Core.List.{Memᴰ, append-nil, append_assoc}
use mathlib.Core.List.Memᴰ
use event_streaming_and_audi.Services.System.{
  Setup, System, Step, Reach, begin, finish, cancel, request, hand_over, lose, consume, provision,
  fault, here, next,
}
use event_streaming_and_audi.Services.System.Requests.{answered-IsRecorded}
use event_streaming_and_audi.Services.System.Consumption.{OnlyPuts, process-put, ensure_index-view}
use event_streaming_and_audi.Services.{resolver_of}
use event_streaming_and_audi.Event.{Event, Uuid}
use event_streaming_and_audi.Event.Wire.{Wire, of}
use event_streaming_and_audi.Kafka.Producer.{publish, message_of}
use event_streaming_and_audi.Postgres.{Row}
use event_streaming_and_audi.Services.System.Inserts.{settle-IsRecorded}
use event_streaming_and_audi.Postgres.Concurrent.{IsTimely}
use event_streaming_and_audi.Ingest.Outcomes.{draft}
use event_streaming_and_audi.Services.System.Topics.{OnlyWrites, marshal-IsStored, Memᴰ-without}
use event_streaming_and_audi.Postgres.Contents.{IsStored, IsRowOf, values_for-IsRowOf, Extends}
use event_streaming_and_audi.Postgres.Versions.{stream_length, values_for-version}
use event_streaming_and_audi.Prelude.{
  String, List, ◌≡◌, ◌⊎◌, inl, inr, refl, ap, sym, ◌∙◌, ◌++◌, [], ◌+◌, arith,
}
use event_streaming_and_audi.Services.System.State.{IsSound, recorded-IsSound, unqueued}

module _ {P I D : Type 0} (setup : Setup P I D) (log : P → String → List Wire)
    (Holds : I → Uuid → Wire → Type 0) (writes : OnlyWrites setup.writer log)
    (puts : OnlyPuts setup.client Holds) where
  -- The publication of a stored event may add its text to a topic.
  pub published-cases :
      (s : System P I D) (e : Event) (t : String) (w : Wire)
      → IsStored setup.columns s.db.rows e
      → Memᴰ w (log (publish (resolver_of setup.kafka) setup.writer e s.kafka).1 t)
      → Memᴰ w (log s.kafka t) ⊎ (w ≡ of e)
  unfolding publish
  published-cases s e t w stored m =
      let text = marshal-IsStored setup.columns s.db.rows e stored in
      elim (writes.written (message_of (resolver_of setup.kafka) e (of e)) s.kafka t w
        (rw text at m)) [ inl old ↦ inl old | inr (_, same) ↦ inr same ]

  pub Step-IsSound :
      {s t : System P I D}
      → Step setup log s t
      → IsSound setup log Holds s
      → IsSound setup log Holds t × Extends s.db.rows t.db.rows
  Step-IsSound {s} (request route id now r) sound =
      recorded-IsSound setup log Holds s _ _ s.inserting sound (λ x m. m)
        (answered-IsRecorded setup log route id now r s sound.rows)
  Step-IsSound {s} (begin i id now cmd r named complete made) sound = (
    record {
      rows = sound.rows;
      keys = sound.keys;
      inserting = λ e p m. elim (Memᴰ.cases_cons m) [
        | inr old ↦ sound.inserting e p old
        | inl new ↦
            subst (λ (x : Event × Row). IsTimely s.db.rows x.1 × IsRowOf setup.columns x.0 x.1)
              (sym new)
              (
                (
                  stream_length r.stream_id s.db.rows + 1,
                  values_for-version setup.columns (draft i id now cmd) s.db r sound.rows made,
                  omega arith,
                  omega arith,
                ),
                values_for-IsRowOf setup.columns (draft i id now cmd) s.db r made,
              )
      ];
      waiting = sound.waiting;
      logged = sound.logged;
      indexed = sound.indexed;
    },
    ([], sym (append-nil s.db.rows)),
  )
  Step-IsSound {s} (finish before e r after split) sound =
      let (timely, kept) =
        sound.inserting e r
          (subst (Memᴰ (e, r)) (sym split) (Memᴰ.append_right before (Memᴰ.head refl))) in
      recorded-IsSound setup log Holds s _ _ (before ++ after) sound
        (λ x m. subst (Memᴰ x) (sym split) (Memᴰ-without before (e, r) after m))
        (settle-IsRecorded setup.columns e r s.db s.unpublished sound.rows timely kept)
  Step-IsSound {s} (cancel before e r after split) sound =
      recorded-IsSound setup log Holds s s.db s.unpublished (before ++ after) sound
        (λ x m. subst (Memᴰ x) (sym split) (Memᴰ-without before (e, r) after m)) (inl (refl, refl))
  Step-IsSound {s} (hand_over before e after split) sound =
      let stored =
        sound.waiting e (subst (Memᴰ e) (sym split) (Memᴰ.append_right before (Memᴰ.head refl))) in
      (
        record {
          rows = sound.rows;
          keys = sound.keys;
          inserting = sound.inserting;
          waiting = unqueued setup log Holds s before e after sound split;
          logged = λ t w m. elim (published-cases s e t w stored m) [
            | inl old ↦ sound.logged t w old
            | inr same ↦ (e, same, stored)
          ];
          indexed = sound.indexed;
        },
        ([], sym (append-nil s.db.rows)),
      )
  Step-IsSound {s} (lose before e after split) sound = (
    record {
      rows = sound.rows;
      keys = sound.keys;
      inserting = sound.inserting;
      waiting = unqueued setup log Holds s before e after sound split;
      logged = sound.logged;
      indexed = sound.indexed;
    },
    ([], sym (append-nil s.db.rows)),
  )
  Step-IsSound {s} (consume now m commit read) sound =
      let (e, value, stored) = sound.logged _ m.value read in
      let put =
        process-put setup log now m commit s.progress e value
          (marshal-IsStored setup.columns s.db.rows e stored) in
      (
        record {
          rows = sound.rows;
          keys = sound.keys;
          inserting = sound.inserting;
          waiting = sound.waiting;
          logged = sound.logged;
          indexed = λ id w h.
              elim (puts.put setup.index_name e.id (of e) s.progress.handled.0 id w
                (subst (λ i. Holds i id w) put h)) [
                  | inl old ↦ sound.indexed id w old
                  | inr (key, text) ↦ (e, text, key, stored)
                ];
        },
        ([], sym (append-nil s.db.rows)),
      )
  Step-IsSound {s} provision sound = (
    record {
      rows = sound.rows;
      keys = sound.keys;
      inserting = sound.inserting;
      waiting = sound.waiting;
      logged = sound.logged;
      indexed = λ id w h.
          sound.indexed id w (
            ensure_index-view setup.client Holds puts setup.index_name s.progress.handled.0 id w h);
    },
    ([], sym (append-nil s.db.rows)),
  )
  Step-IsSound {s} (fault x reply) sound = (
    record {
      rows = sound.rows;
      keys = sound.keys;
      inserting = sound.inserting;
      waiting = sound.waiting;
      logged = sound.logged;
      indexed = sound.indexed;
    },
    ([], sym (append-nil s.db.rows)),
  )

  -- Where Kafka and Elasticsearch hold nothing but what is written to them: from a sound state, every
  -- state that the steps of the system reach is sound (in the table an id names one row, and every
  -- stream has the versions 1, 2, …; an INSERT that is not settled has a version that its stream has
  -- or that comes next; an event that waits for its publication, is on a topic or is in the index,
  -- there under its id, is in the table with all its fields, as the columns keep them), and the table
  -- has kept every row as it was.
  pub Reach-IsSound :
      {s t : System P I D}
      → IsSound setup log Holds s
      → Reach setup log s t
      → IsSound setup log Holds t × Extends s.db.rows t.db.rows
  Reach-IsSound {s} sound here = (sound, ([], sym (append-nil s.db.rows)))
  Reach-IsSound {s} {t = u} sound (next {t = t} before step) =
      let (middle, (xs, grown)) = Reach-IsSound sound before in
      let (last, (ys, grown')) = Step-IsSound step middle in
      (last, (xs ++ ys, grown' ∙ ap (λ rs. rs ++ ys) grown ∙ append_assoc s.db.rows xs ys))
