-- ===== src/Elasticsearch/Redelivery.antt =====
-- The consumer-service over Elasticsearch: messages that are delivered again leave the index as it is.
use event_streaming_and_audi.Kafka.Consumer.{Message}
use event_streaming_and_audi.Consume.{handle, after_index, DlqPublisher, Service}
use event_streaming_and_audi.Elasticsearch.{indexer, index, Client, err, send, ok}
use event_streaming_and_audi.Event.Wire.{marshal, unmarshal, Wire}
use event_streaming_and_audi.Prelude.{
  String, Option, if◌then◌else◌, ◌==◌, none, ◌≡◌, List, ◌∷◌, some, [], refl, ap, ◌∙◌, ◌⊎◌, inl, sym,
  Bool-cases, inr, arith,
}
use event_streaming_and_audi.Event.{Time, Uuid, Event}
use event_streaming_and_audi.Errors.{Result, Error}
use event_streaming_and_audi.Kafka.Consumer.Delivery.{feed_one, feed}

module _ {S D : Type 0} (client : Client S) (index_name : String) (dlq : DlqPublisher D)
    (now : Time) (view : S → Uuid → Option Wire) where
  -- A server that accepts every document: the index call creates or overwrites the one with the id.
  abbrev pub Upserts : Type 0
  Upserts =
      (id : Uuid) (w : Wire) (s : S) (j : Uuid)
      → view (client.put index_name id w s).1 j ≡ (if id == j then some w else view s j)

  abbrev pub service : Service S D
  service = record { indexer = indexer client index_name; dlq = dlq }

  -- The document with the id after a message, and after messages.
  abbrev written : Result Wire → Uuid → Uuid → Option Wire → Option Wire
  written (err x) id j old = old
  written (ok w) id j old = if id == j then some w else old

  abbrev written_by : Result Event → Uuid → Option Wire → Option Wire
  written_by (err x) j old = old
  written_by (ok e) j old = written (marshal e) e.id j old

  abbrev last_written : List Message → Uuid → Option Wire → Option Wire
  last_written [] j old = old
  last_written (m ∷ ms) j old = last_written ms j (written_by (unmarshal m.value) j old)

  -- Each function leaves the document, or what it leaves does not depend on what was there.
  abbrev Settles : (Option Wire → Option Wire) → Type 0
  Settles f =
      ((old : Option Wire) → f old ≡ old) ⊎ ((w : Option Wire) × ((old : Option Wire) → f old ≡ w))

  written-Settles : (r : Result Wire) (id j : Uuid) → Settles (written r id j)
  written-Settles (err x) id j = inl (λ old. refl)
  written-Settles (ok w) id j = elim (Bool-cases (id == j)) [
    | inl same ↦ inr (some w, λ old. ground arith)
    | inr other ↦ inl (λ old. ground arith)
  ]

  written_by-Settles : (r : Result Event) (j : Uuid) → Settles (written_by r j)
  written_by-Settles (err x) j = inl (λ old. refl)
  written_by-Settles (ok e) j = written-Settles (marshal e) e.id j

  Settles-compose :
      {f g : Option Wire → Option Wire} → Settles f → Settles g → Settles (λ old. g (f old))
  Settles-compose {f = f} {g = g} (inl same) (inl same') = inl (λ old. same' (f old) ∙ same old)
  Settles-compose {f = f} {g = g} (inr (w, const)) (inl same') =
      inr (w, λ old. same' (f old) ∙ const old)
  Settles-compose {f = f} {g = g} a (inr (w, const)) = inr (w, λ old. const (f old))

  last_written-Settles : (ms : List Message) (j : Uuid) → Settles (last_written ms j)
  last_written-Settles [] j = inl (λ old. refl)
  last_written-Settles (m ∷ ms) j =
      Settles-compose (written_by-Settles (unmarshal m.value) j) (last_written-Settles ms j)

  last_written-replay :
      (ms : List Message) (j : Uuid) (old : Option Wire)
      → last_written ms j (last_written ms j old) ≡ last_written ms j old
  last_written-replay ms j old = elim (last_written-Settles ms j) [
    | inl same ↦ same (last_written ms j old)
    | inr (w, const) ↦ const (last_written ms j old) ∙ sym (const old)
  ]

  module _ (upserts : Upserts) where
    send-written :
        (e : Event) (r : Result Wire) (s : S) (j : Uuid)
        → view (send client index_name e r s).1 j ≡ written r e.id j (view s j)
    send-written e (err x) s j = refl
    send-written e (ok w) s j = upserts e.id w s j

    after_index-index :
        (e : Event) (d : D) (r : Option Error × S) → (after_index service now e d r).1.0 ≡ r.1
    after_index-index e d (none, s) = refl
    after_index-index e d (some x, s) = refl

    feed_one-written :
        (r : Result Event) (s : S) (d : D) (j : Uuid)
        → view (feed_one (handle service now) r (s, d)).0 j ≡ written_by r j (view s j)
    unfolding handle index indexer
    feed_one-written (err x) s d j = refl
    feed_one-written (ok e) s d j =
        ap (λ t. view t j) (after_index-index e d (index client index_name e s))
        ∙ send-written e (marshal e) s j

    feed-written :
        (ms : List Message) (s : S) (d : D) (j : Uuid)
        → view (feed (handle service now) ms (s, d)).0 j ≡ last_written ms j (view s j)
    feed-written [] s d j = refl
    feed-written (m ∷ ms) s d j =
        let next : S × D = feed_one (handle service now) (unmarshal m.value) (s, d) in
        feed-written ms next.0 next.1 j
        ∙ ap (last_written ms j) (feed_one-written (unmarshal m.value) s d j)

    -- On a server that accepts every document, messages that are all delivered a second time leave
    -- every document as they left it the first time.
    pub feed-redelivered :
        (ms : List Message) (s : S) (d : D) (j : Uuid)
        → view (feed (handle service now) ms (feed (handle service now) ms (s, d))).0 j
          ≡ view (feed (handle service now) ms (s, d)).0 j
    feed-redelivered ms s d j =
        let once : S × D = feed (handle service now) ms (s, d) in
        feed-written ms once.0 once.1 j
        ∙ ap (last_written ms j) (feed-written ms s d j)
        ∙ last_written-replay ms j (view s j)
        ∙ sym (feed-written ms s d j)
