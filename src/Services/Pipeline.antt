-- ===== src/Services/Pipeline.antt =====
-- An event on its way from the ingest-api over Kafka to the index of the consumer-service.
use mathlib.Core.Path.{subst}
use mathlib.Core.List.{append-nil}
use event_streaming_and_audi.Event.{Event, Uuid, Time, Store}
use event_streaming_and_audi.Event.Wire.{Wire, of, marshal, unmarshal, payload_text}
use event_streaming_and_audi.Event.Json.{RawMessage, empty, encoded, malformed, null}
use event_streaming_and_audi.Errors.{Result, Error, ok, err, wrap_error}
use event_streaming_and_audi.Auth.{Context}
use event_streaming_and_audi.Ingest.{ingest, Command}
use event_streaming_and_audi.Ingest.Outcomes.{ingest_iff}
use event_streaming_and_audi.Config.{KafkaConfig}
use event_streaming_and_audi.Consume.{DlqPublisher, handle, after_index}
use event_streaming_and_audi.Kafka.Producer.{
  Writer, producer, publish, publish_text, message_of, wrapped_write, KafkaMessage,
}
use event_streaming_and_audi.Kafka.TopicResolver.{resolve}
use event_streaming_and_audi.Kafka.Consumer.{Fetch, Message, Progress, waiting, run}
use event_streaming_and_audi.Kafka.Consumer.Delivery.{messages, feed, run-IsDelivered, feed_one}
use event_streaming_and_audi.Elasticsearch.{Client, indexer, index, send}
use event_streaming_and_audi.Services.{resolver_of, consumed_topic}
use event_streaming_and_audi.Prelude.{
  String, ◌≡◌, List, arith, Option, none, refl, if◌then◌else◌, map, some, ◌==◌, ◌++◌, ◌∷◌, [], sym,
  ap, inl, ◌∙◌, inr, eq_iff,
}

-- Kafka's topics as logs: a write that succeeds adds its message's value at the end of its topic.
pub record Logs {W : Type 0} (writer : Writer Wire W) (log : W → String → List Wire) : Type 0 where
  pub appended :
      (m : KafkaMessage Wire) (w w' : W)
      → writer.write_messages m w ≡ (none, w')
      → (t : String) → log w' t ≡ (if m.topic == t then log w t ++ m.value ∷ [] else log w t)

-- The text of an event is the event with its payload as json.Marshal writes it.
marshal-ok :
    (e : Event) (w : Wire)
    → marshal e ≡ ok w
    → (j : RawMessage) × (payload_text e.payload ≡ ok j) × (w ≡ of (record e { payload = j }))
unfolding marshal
marshal-ok e w h = texted (payload_text e.payload) refl
  where
    texted :
        (r : Result RawMessage)
        → payload_text e.payload ≡ r
        → (j : RawMessage) × (payload_text e.payload ≡ ok j) × (w ≡ of (record e { payload = j }))
    texted (err x) k = cc (rw k at h)
    texted (ok j) k = (j, k, ground arith)

payload_text_again : (p j : RawMessage) → payload_text p ≡ ok j → payload_text j ≡ ok j
payload_text_again empty j h = let same : encoded null ≡ j = cc in rw (← same) refl
payload_text_again (encoded k) j h = let same : encoded k ≡ j = cc in rw (← same) refl
payload_text_again (malformed b) j h = cc

marshal_again :
    (e : Event) (j : RawMessage)
    → payload_text j ≡ ok j
    → marshal (record e { payload = j }) ≡ ok (of (record e { payload = j }))
unfolding marshal
marshal_again e j h = rw h refl

wrap_error-none : (what : String) (o : Option Error) → wrap_error what o ≡ none → o ≡ none
wrap_error-none what none h = refl
wrap_error-none what (some x) h = cc

module _ {W : Type 0} (writer : Writer Wire W) where
  publish_text-none :
      (cfg : KafkaConfig) (e : Event) (r : Result Wire) (p : W)
      → (publish_text (resolver_of cfg) writer e r p).0 ≡ none
      → (w : Wire) × (r ≡ ok w)
        × (writer.write_messages (message_of (resolver_of cfg) e w) p
            ≡ (none, (publish_text (resolver_of cfg) writer e r p).1))
  publish_text-none cfg e (err x) p h = cc
  publish_text-none cfg e (ok w) p h =
      (w, refl, written_ok (writer.write_messages (message_of (resolver_of cfg) e w) p) h)
    where
      written_ok :
          (r : Option Error × W)
          → (wrapped_write "write to kafka" r).0 ≡ none
          → r ≡ (none, (wrapped_write "write to kafka" r).1)
      written_ok (none, q) k = refl
      written_ok (some x, q) k = cc

-- The last message of a list.
last_message :
    {A B : Type 0} (f : A → B) (ms : List A) (ws : List B) (b : B)
    → map f ms ≡ ws ++ b ∷ []
    → (before : List A) × (m : A) × (ms ≡ before ++ m ∷ []) × (f m ≡ b)
last_message f [] [] b h = cc
last_message f [] (v ∷ ws) b h = cc
last_message f (m ∷ []) [] b h = ([], m, refl, cc)
last_message f (m ∷ n ∷ ms) [] b h = cc
last_message f (m ∷ ms) (v ∷ ws) b h =
    let (before, n, split, same) = last_message f ms ws b (cc) in
    (m ∷ before, n, ap (λ ns. m ∷ ns) split, same)

feed-last :
    {H : Type 0} (step : Event → H → Option Error × H) (ms : List Message) (m : Message) (h : H)
    → feed step (ms ++ m ∷ []) h ≡ feed_one step (unmarshal m.value) (feed step ms h)
feed-last step [] m h = refl
feed-last step (n ∷ ms) m h = feed-last step ms m (feed_one step (unmarshal n.value) h)

-- A run that waits for the next message has handled all messages.
run-waiting :
    {H : Type 0} (step : Event → H → Option Error × H) (rounds : List Fetch) (p : Progress H)
    → (run step rounds p).0 ≡ waiting
    → (run step rounds p).1.handled ≡ feed step (messages rounds) p.handled
run-waiting step rounds p h =
    let d = run-IsDelivered step rounds p in
    elim d.handled [
      | inl (all, fed) ↦
          fed
          ∙ ap (λ ms. feed step ms p.handled)
              (sym (append-nil d.done) ∙ ap (λ r. d.done ++ r) (sym all) ∙ sym d.split)
      | inr (m, later, x, _, _, stopped) ↦ cc
    ]

module _ {S P I D : Type 0} (cfg : KafkaConfig) (store : Store S) (writer : Writer Wire P)
    (log : P → String → List Wire) (logs : Logs writer log) (client : Client I)
    (index_name : String) (dlq : DlqPublisher D) (view : I → Uuid → Option Wire) (now' : Time) where
  -- The consumer-service's handler.
  abbrev pub consume : Event → I × D → Option Error × (I × D)
  consume = handle (record { indexer = indexer client index_name; dlq = dlq }) now'

  -- The server accepts the event's document: it is found under its id once it has been put.
  abbrev pub Accepted : Event → Type 0
  Accepted e = (i : I) → view (client.put index_name e.id (of e) i).1 e.id ≡ some (of e)

  after_index-index :
      (e : Event) (d : D) (r : Option Error × I)
      → (after_index (record { indexer = indexer client index_name; dlq = dlq }) now' e d r).1.0
        ≡ r.1
  after_index-index e d (none, i) = refl
  after_index-index e d (some x, i) = refl

  -- A message with the event puts the document of the event.
  consume-indexed :
      (e : Event) (q : I × D)
      → marshal e ≡ ok (of e)
      → Accepted e
      → view (consume e q).1.0 e.id ≡ some (of e)
  unfolding handle index indexer
  consume-indexed e (i, d) text accepted =
      ap (λ k. view k e.id) (after_index-index e d (index client index_name e i))
      ∙ ap (λ r. view (send client index_name e r i).1 e.id) text
      ∙ accepted i

  feed_one-indexed :
      (e : Event) (q : I × D) (v : Wire)
      → v ≡ of e
      → marshal e ≡ ok (of e)
      → Accepted e
      → view (feed_one consume (unmarshal v) q).0 e.id ≡ some (of e)
  unfolding unmarshal
  feed_one-indexed e q v same text accepted =
      subst (λ w. view (feed_one consume (unmarshal w) q).0 e.id ≡ some (of e)) (sym same)
        (consume-indexed e q text accepted)

  -- With Kafka topics that are logs, an event that was ingested, and published without an error to
  -- the topic that is read, is found in the index under its id, with all its fields and its payload as
  -- JSON text, if the server accepts this document, once the consumer-service has caught up with the
  -- topic with this event the last of it, that is, waits for the next message after all messages of
  -- the log. The server may refuse the documents of other events.
  pub ingest-indexed :
      (id : Uuid) (now : Time) (ctx : Context) (cmd : Command) (s s' : S) (p p' : P) (e : Event)
      (j : RawMessage) (rounds : List Fetch) (i : I) (d : D) (cs : List Message)
      → ingest store (producer (resolver_of cfg) writer) id now ctx cmd s p ≡ (ok e, s', p')
      → (publish (resolver_of cfg) writer e p).0 ≡ none
      → resolve (resolver_of cfg) e ≡ consumed_topic cfg
      → payload_text e.payload ≡ ok j
      → Accepted (record e { payload = j })
      → map (λ m. m.value) (messages rounds) ≡ log p' (consumed_topic cfg)
      → (run consume rounds (record { handled = (i, d); committed = cs })).0 ≡ waiting
      → view (run consume rounds (record { handled = (i, d); committed = cs })).1.handled.0 e.id
        ≡ some (of (record e { payload = j }))
  unfolding producer publish
  ingest-indexed id now ctx cmd s s' p p' e j rounds i d cs h sent topic payload accepted delivered
        waits =
      let g =
        (ingest_iff store (producer (resolver_of cfg) writer) id now ctx cmd s p e s' p').0 h in
      let (w, text_of, put) = publish_text-none writer cfg e (marshal e) p sent in
      let (k, payload', shape) = marshal-ok e w text_of in
      let f : Event = record e { payload = j } in
      let same : k ≡ j = cc in
      let grown = logs.appended (message_of (resolver_of cfg) e w) p _ put (consumed_topic cfg) in
      let last : map (λ m. m.value) (messages rounds) ≡ log p (consumed_topic cfg) ++ of f ∷ [] =
        delivered
        ∙ ap (λ q. log q (consumed_topic cfg)) g.published
        ∙ grown
        ∙ ap (λ b. if b then log p (consumed_topic cfg) ++ w ∷ [] else log p (consumed_topic cfg))
            ((eq_iff _ _).1 topic)
        ∙ ap (λ v. log p (consumed_topic cfg) ++ v ∷ [])
            (shape ∙ ap (λ l. of (record e { payload = l })) same) in
      let (before, m, split, value) =
        last_message (λ m. m.value) (messages rounds) (log p (consumed_topic cfg)) (of f) last in
      ap (λ (q : I × D). view q.0 e.id)
        (run-waiting consume rounds _ waits
          ∙ ap (λ ms. feed consume ms (i, d)) split
          ∙ feed-last consume before m (i, d))
      ∙ feed_one-indexed f (feed consume before (i, d)) m.value value
          (marshal_again e j (payload_text_again e.payload j payload)) accepted
