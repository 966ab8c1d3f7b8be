-- ===== src/Kafka/Consumer/Delivery.antt =====
-- Run delivers at least once: an offset is committed only after its message was handled.
use event_streaming_and_audi.Prelude.{
  List, Option, ◌∷◌, ◌≡◌, [], none, ◌++◌, ◌⊎◌, some, String, ap, inl, inr, refl, ◌∙◌, true, false,
}
use event_streaming_and_audi.Event.{Event}
use event_streaming_and_audi.Kafka.Consumer.{
  Fetch, Message, process, Progress, run, commit, Outcome, message, failed, after_handle, returned,
  process_as, go_on,
}
use event_streaming_and_audi.Errors.{Error, Result, err, ok}
use event_streaming_and_audi.Event.Wire.{unmarshal}

-- The messages of the rounds before the first failed fetch.
abbrev pub messages : List Fetch → List Message
messages [] = []
messages (message m c ∷ rounds) = m ∷ messages rounds
messages (failed x b ∷ rounds) = []

module _ {H : Type 0} (handle : Event → H → Option Error × H) where
  -- The handler's state after the messages: each that decodes is handled once, in order.
  abbrev pub feed_one : Result Event → H → H
  feed_one (err x) h = h
  feed_one (ok e) h = (handle e h).1

  abbrev pub feed : List Message → H → H
  feed [] h = h
  feed (m ∷ ms) h = feed ms (feed_one (unmarshal m.value) h)

  -- Of one message: the handler's state, and the loop goes on exactly when the offset is committed.
  abbrev Kept : Message → Progress H → H → Option Error × Progress H → Type 0
  Kept m p h r =
      (r.1.handled ≡ h)
      × (((r.0 ≡ none) × (r.1.committed ≡ m ∷ p.committed))
          ⊎ ((x : Error) × (r.0 ≡ some x) × (r.1.committed ≡ p.committed)))

  commit-Kept :
      (what : String) (c : Option Error) (m : Message) (p : Progress H)
      → Kept m p p.handled (commit handle what c m p)
  unfolding commit
  commit-Kept what none m p = (refl, inl (refl, refl))
  commit-Kept what (some x) m p = (refl, inr (_, refl, refl))

  after_handle-Kept :
      (c : Option Error) (m : Message) (p : Progress H) (r : Option Error × H)
      → Kept m p r.1 (after_handle handle c m p r)
  after_handle-Kept c m p (none, h) = commit-Kept "commit message" c m (record p { handled = h })
  after_handle-Kept c m p (some x, h) = (refl, inr (_, refl, refl))

  process_as-Kept :
      (r : Result Event) (m : Message) (c : Option Error) (p : Progress H)
      → Kept m p (feed_one r p.handled) (process_as handle r m c p)
  process_as-Kept (ok e) m c p = after_handle-Kept c m p (handle e p.handled)
  process_as-Kept (err x) m c p = commit-Kept "commit after skip" c m p

  process-Kept :
      (m : Message) (c : Option Error) (p : Progress H)
      → Kept m p (feed_one (unmarshal m.value) p.handled) (process handle m c p)
  unfolding process
  process-Kept m c p = process_as-Kept (unmarshal m.value) m c p

  -- The offsets committed after the messages, the last one first.
  abbrev pub committed_after : List Message → List Message → List Message
  committed_after [] cs = cs
  committed_after (m ∷ ms) cs = committed_after ms (m ∷ cs)

  -- How a run stands: the messages `done` are handled and committed; the run may have stopped at one
  -- more message, which is handled and not committed.
  pub record IsDelivered (ms : List Message) (p : Progress H) (o : Outcome) (p' : Progress H)
      : Type 0 where
    pub done : List Message
    pub rest : List Message
    pub split : ms ≡ done ++ rest
    pub committed : p'.committed ≡ committed_after done p.committed
    pub handled :
        ((rest ≡ []) × (p'.handled ≡ feed done p.handled))
        ⊎ ((m : Message) × (later : List Message) × (x : Error) × (rest ≡ m ∷ later)
            × (p'.handled ≡ feed (done ++ m ∷ []) p.handled)
            × (o ≡ returned (some x)))

  -- The step of the induction, when the loop goes on after a message.
  IsDelivered-cons :
      (m : Message) (ms : List Message) (p q p' : Progress H) (o : Outcome)
      → q.handled ≡ feed_one (unmarshal m.value) p.handled
      → q.committed ≡ m ∷ p.committed
      → IsDelivered ms q o p'
      → IsDelivered (m ∷ ms) p o p'
  IsDelivered-cons m ms p q p' o fed kept d = record {
    done = m ∷ d.done;
    rest = d.rest;
    split = ap (λ l. m ∷ l) d.split;
    committed = d.committed ∙ ap (committed_after d.done) kept;
    handled = elim d.handled [
      | inl (all, h) ↦ inl (all, h ∙ ap (feed d.done) fed)
      | inr (n, later, x, here, h, stop) ↦
          inr (n, later, x, here, h ∙ ap (feed (d.done ++ n ∷ [])) fed, stop)
    ];
  }

  IsDelivered-go_on :
      (m : Message) (ms : List Message) (p : Progress H) (next : Option Error × Progress H)
      (rest : Outcome × Progress H)
      → Kept m p (feed_one (unmarshal m.value) p.handled) next
      → IsDelivered ms next.1 rest.0 rest.1
      → IsDelivered (m ∷ ms) p (go_on handle next rest).0 (go_on handle next rest).1
  IsDelivered-go_on m ms p (none, q) rest (fed, inl (_, kept)) d =
      IsDelivered-cons m ms p q rest.1 rest.0 fed kept d
  IsDelivered-go_on m ms p (none, q) rest (fed, inr (x, stops, _)) d = cc
  IsDelivered-go_on m ms p (some x, q) rest (fed, inl (goes, _)) d = cc
  IsDelivered-go_on m ms p (some x, q) rest (fed, inr (y, stops, kept)) d = record {
    done = [];
    rest = m ∷ ms;
    split = refl;
    committed = kept;
    handled = inr (m, ms, x, refl, fed, refl);
  }

  -- Run handles the messages in order, each once, and commits a message only after it was handled. It
  -- has committed all that it handled, or it has returned an error at the message that it handled
  -- last, and this one alone is not committed.
  pub run-IsDelivered :
      (rounds : List Fetch) (p : Progress H)
      → IsDelivered (messages rounds) p (run handle rounds p).0 (run handle rounds p).1
  unfolding run
  run-IsDelivered [] p = record {
    done = [];
    rest = [];
    split = refl;
    committed = refl;
    handled = inl (refl, refl);
  }
  run-IsDelivered (failed x true ∷ rounds) p = record {
    done = [];
    rest = [];
    split = refl;
    committed = refl;
    handled = inl (refl, refl);
  }
  run-IsDelivered (failed x false ∷ rounds) p = record {
    done = [];
    rest = [];
    split = refl;
    committed = refl;
    handled = inl (refl, refl);
  }
  run-IsDelivered (message m c ∷ rounds) p =
      IsDelivered-go_on m (messages rounds) p (process handle m c p)
        (run handle rounds (process handle m c p).1) (process-Kept m c p)
        (run-IsDelivered rounds (process handle m c p).1)
