-- ===== src/Grpc/Answers.antt =====
-- What a successful call of Replay answers.
use mathlib.Core.Path.{subst}
use event_streaming_and_audi.Prelude.{
  ◌∷◌, List, String, ◌≡◌, ◌≢◌, [], refl, Bool-cases, inr, ◌==◌, inl, arith, eq_iff, ap, sym,
}
use event_streaming_and_audi.Grpc.{
  Reply, response, failure, ProtoEvent, EventStream, ReplayRequest, proto_events, prepend,
  stream_of, handle_replay, domain_to_proto,
}
use event_streaming_and_audi.Errors.{Result, ok, Result-cases}
use event_streaming_and_audi.Event.{Event, Store}
use event_streaming_and_audi.Event.Json.{Fields}
use event_streaming_and_audi.Auth.{Context}
use event_streaming_and_audi.Replay.{replay}

module _ {St : Type 0} (new_struct : Fields → Result St) where
  -- The messages are those of the events, one for each and in the same order.
  abbrev pub AreConverted : List Event → List (ProtoEvent St) → Type 0
  AreConverted [] [] = Unit
  AreConverted [] (pe ∷ pes) = ⊥
  AreConverted (e ∷ es) [] = ⊥
  AreConverted (e ∷ es) (pe ∷ pes) = (domain_to_proto new_struct e ≡ ok pe) × AreConverted es pes

  prepend-response :
      (pe : ProtoEvent St) (rest : Reply (List (ProtoEvent St))) (pes : List (ProtoEvent St))
      → prepend pe rest ≡ response pes
      → (later : List (ProtoEvent St)) × (rest ≡ response later) × (pe ∷ later ≡ pes)
  prepend-response pe (failure f) pes h = cc
  prepend-response pe (response later) pes h = (later, refl, cc)

  proto_events-AreConverted :
      (es : List Event) (pes : List (ProtoEvent St))
      → proto_events new_struct es ≡ response pes
      → AreConverted es pes
  unfolding proto_events
  proto_events-AreConverted [] [] h = tt
  proto_events-AreConverted [] (pe ∷ pes) h = cc
  proto_events-AreConverted (e ∷ es) pes h = elim (Result-cases (domain_to_proto new_struct e)) [
    | inr (x, failed) ↦ cc (rw failed at h)
    | inl (pe, converted) ↦
        let (later, rest, same) =
          prepend-response pe (proto_events new_struct es) pes (rw converted at h) in
        subst (AreConverted (e ∷ es)) same (converted, proto_events-AreConverted es later rest)
  ]

  module _ {S : Type 0} (store : Store S) where
    stream_of-response :
        (id : String) (o : Reply (List (ProtoEvent St))) (r : EventStream St)
        → stream_of new_struct store id o ≡ response r
        → (r.stream_id ≡ id) × (o ≡ response r.events)
    stream_of-response id (failure f) r h = cc
    stream_of-response id (response pes) r h =
        let same : record { stream_id = id; events = pes } ≡ r = cc in
        (
          ap (λ (t : EventStream St). t.stream_id) (sym same),
          ap (λ (t : EventStream St). response t.events) same,
        )

    -- A call that succeeds names a stream, its replay succeeds, and every event of the replay is
    -- answered, each converted and in the order of the replay: no event is left out.
    pub handle_replay-response :
        (ctx : Context) (req : ReplayRequest) (s : S) (r : EventStream St)
        → handle_replay new_struct store ctx req s ≡ response r
        → (req.stream_id ≢ "")
          × (r.stream_id ≡ req.stream_id)
          × ((es : List Event) × (replay store ctx
                  (record { stream_id = req.stream_id; from_version = req.from_version })
                  s
                ≡ ok es)
              × AreConverted es r.events)
    unfolding handle_replay
    handle_replay-response ctx req s r h = elim (Bool-cases (req.stream_id == "")) [
      | inl missing ↦ cc (rw missing at h)
      | inr given ↦
          elim (Result-cases (
            replay store ctx (record { stream_id = req.stream_id; from_version = req.from_version })
              s)) [
                | inr (x, failed) ↦ cc (rw (given, failed) at h)
                | inl (es, read) ↦
                    let (same, all) =
                      stream_of-response req.stream_id (proto_events new_struct es) r
                        (rw (given, read) at h) in
                    (
                      ground (arith, eq_iff req.stream_id ""),
                      same,
                      (es, read, proto_events-AreConverted es r.events all),
                    )
              ]
    ]
