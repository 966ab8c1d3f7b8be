-- ===== src/Services/System/Consumption.antt =====
-- What the consumer-service does to the search index with one message of a stored event.
use event_streaming_and_audi.Services.System.{Setup, consumer}
use event_streaming_and_audi.Consume.{handle, after_index}
use event_streaming_and_audi.Elasticsearch.{
  Client, index, indexer, send, ensure_index, create_unless, Answer, FieldType, mapping,
}
use event_streaming_and_audi.Errors.{Error, Result, ok, err}
use event_streaming_and_audi.Event.{Event, Time, Uuid}
use event_streaming_and_audi.Event.Json.{Json, encoded}
use event_streaming_and_audi.Event.Wire.{Wire, of, marshal, unmarshal}
use event_streaming_and_audi.Kafka.Consumer.{
  Message, Progress, process, process_as, after_handle, commit,
}
use event_streaming_and_audi.Prelude.{
  String, List, Option, none, some, ◌≡◌, ◌⊎◌, inl, inr, refl, ap, ◌∙◌, nat_beq, Bool-cases,
}

-- Elasticsearch: an index call leaves each document, or sets the one with its id, whatever it
-- answers, and the creation of an index brings no documents. `Holds` says that a document is found
-- under an id; an index and its last refresh may hold two under one id.
pub record OnlyPuts {I : Type 0} (client : Client I) (Holds : I → Uuid → Wire → Type 0)
    : Type 0 where
  pub put :
      (name : String) (id : Uuid) (w : Wire) (i : I) (k : Uuid) (d : Wire)
      → Holds (client.put name id w i).1 k d
      → (Holds i k d) ⊎ ((k ≡ id) × (d ≡ w))
  pub created :
      (name : String) (mapping : List (String × FieldType)) (i : I) (k : Uuid) (d : Wire)
      → Holds (client.create name mapping i).1 k d
      → Holds i k d

-- The text of a stored event is the event.
pub marshal-encoded : (e : Event) (j : Json) → e.payload ≡ encoded j → marshal e ≡ ok (of e)
unfolding marshal
marshal-encoded e j h = rw h refl

commit-handled :
    {H : Type 0} (step : Event → H → Option Error × H) (what : String) (c : Option Error)
    (m : Message) (p : Progress H)
    → (commit step what c m p).1.handled ≡ p.handled
unfolding commit
commit-handled step what none m p = refl
commit-handled step what (some x) m p = refl

after_handle-handled :
    {H : Type 0} (step : Event → H → Option Error × H) (c : Option Error) (m : Message)
    (p : Progress H) (r : Option Error × H)
    → (after_handle step c m p r).1.handled ≡ r.1
after_handle-handled step c m p (none, h) = commit-handled step _ c m _
after_handle-handled step c m p (some x, h) = refl

module _ {P I D : Type 0} (setup : Setup P I D) (log : P → String → List Wire) (now : Time) where
  after_index-index :
      (e : Event) (d : D) (r : Option Error × I)
      → (after_index (consumer setup log) now e d r).1.0 ≡ r.1
  after_index-index e d (none, i) = refl
  after_index-index e d (some x, i) = refl

  handle-index :
      (e : Event) (h : I × D)
      → marshal e ≡ ok (of e)
      → (handle (consumer setup log) now e h).1.0
        ≡ (setup.client.put setup.index_name e.id (of e) h.0).1
  unfolding handle index indexer
  handle-index e h text =
      after_index-index e h.1 (index setup.client setup.index_name e h.0)
      ∙ ap (λ r. (send setup.client setup.index_name e r h.0).1) text

  -- The message of an event puts its text under its id.
  pub process-put :
      (m : Message) (c : Option Error) (p : Progress (I × D)) (e : Event)
      → m.value ≡ of e
      → marshal e ≡ ok (of e)
      → (process (handle (consumer setup log) now) m c p).1.handled.0
        ≡ (setup.client.put setup.index_name e.id (of e) p.handled.0).1
  unfolding process unmarshal
  process-put m c p e value text =
      let step = handle (consumer setup log) now in
      ap (λ w. (process_as step (unmarshal w) m c p).1.handled.0) value
      ∙ ap (λ (h : I × D). h.0) (after_handle-handled step c m p (step e p.handled))
      ∙ handle-index e p.handled text

module _ {I : Type 0} (client : Client I) (Holds : I → Uuid → Wire → Type 0)
    (puts : OnlyPuts client Holds) (name : String) where
  -- The start of the indexer brings no documents.
  pub ensure_index-view :
      (i : I) (k : Uuid) (d : Wire) → Holds (ensure_index client name i).1 k d → Holds i k d
  unfolding ensure_index
  ensure_index-view i k d h = checked (client.exists name i) h
    where
      checked :
          (r : Result (Answer (Unit {0})))
          → Holds (create_unless client name r i).1 k d
          → Holds i k d
      checked (err x) g = g
      checked (ok r) g = elim (Bool-cases (nat_beq r.status 200)) [
        | inl there ↦ rw there at g
        | inr missing ↦ puts.created name mapping i k d (rw missing at g)
      ]
