-- ===== src/Kafka/Consumer/Shutdown.antt =====
-- Run when a fetch fails, as each fetch does once the context is done.
use event_streaming_and_audi.Kafka.Consumer.{
  Fetch, message, failed, Outcome, returned, Progress, run, process, go_on,
}
use event_streaming_and_audi.Errors.{Error}
use event_streaming_and_audi.Event.{Event}
use event_streaming_and_audi.Prelude.{
  List, Option, ◌≡◌, [], ◌++◌, some, none, refl, ◌∷◌, true, false,
}

-- Some fetch of the rounds fails.
abbrev pub HasFailed : List Fetch → Type 0
HasFailed [] = ⊥
HasFailed (failed x cancelled ∷ rounds) = Unit
HasFailed (message m c ∷ rounds) = HasFailed rounds

module _ {H : Type 0} (handle : Event → H → Option Error × H) where
  go_on-returned :
      (next : Option Error × Progress H) (rest rest' : Outcome × Progress H) (o : Option Error)
      → rest.0 ≡ returned o
      → rest' ≡ rest
      → (o' : Option Error) × ((go_on handle next rest).0 ≡ returned o')
        × (go_on handle next rest' ≡ go_on handle next rest)
  go_on-returned (none, p) rest rest' o h same = (o, h, same)
  go_on-returned (some x, p) rest rest' o h same = (some x, refl, refl)

  -- Once a fetch fails, Run returns, and whatever the broker holds for later fetches is not read: no
  -- further message is handled or committed.
  pub run-HasFailed :
      (rounds later : List Fetch) (p : Progress H)
      → HasFailed rounds
      → (o : Option Error) × ((run handle rounds p).0 ≡ returned o)
        × (run handle (rounds ++ later) p ≡ run handle rounds p)
  unfolding run
  run-HasFailed [] later p h = absurd h
  run-HasFailed (failed x true ∷ rounds) later p h = (none, refl, refl)
  run-HasFailed (failed x false ∷ rounds) later p h = (_, refl, refl)
  run-HasFailed (message m c ∷ rounds) later p h =
      let q = (process handle m c p).1 in
      let (o, stops, same) = run-HasFailed rounds later q h in
      go_on-returned (process handle m c p) (run handle rounds q) (run handle (rounds ++ later) q) o
        stops same
