-- ===== src/Replay/Guards.antt =====
-- Replay over any store: when it answers, and with what.
use event_streaming_and_audi.Prelude.{
  ◌≡◌, List, none, some, arith, ◌↔◌, ◌≢◌, eq_iff, ltb_ℤ, pos, false, Option, refl,
}
use event_streaming_and_audi.Replay.{replay, replay_for, validate_contiguous, checked, Command}
use event_streaming_and_audi.Errors.{Result, wrap, ok, ◌>>=◌, err}
use event_streaming_and_audi.Event.{Store, Event}
use event_streaming_and_audi.Auth.{Context, Identity, tenant_identity}
use event_streaming_and_audi.Replay.Contiguous.{validate_contiguous_iff, HasNoGap}

checked-ok :
    (r : Result (List Event)) (es : List Event)
    → (wrap "read events from store" r >>= checked) ≡ ok es
    → (r ≡ ok es) × (validate_contiguous es ≡ none)
unfolding checked
checked-ok (ok fs) es h = (ground arith, ground arith)
checked-ok (err x) es h = cc

checked-whole :
    (r : Result (List Event)) (es : List Event)
    → r ≡ ok es
    → validate_contiguous es ≡ none
    → (wrap "read events from store" r >>= checked) ≡ ok es
unfolding checked
checked-whole r es e h = rw e (rw (h, checked))

module _ {S : Type 0} (store : Store S) (ctx : Context) (cmd : Command) (s : S) where
  -- What a replay that answers `es` has gone through.
  pub record IsReplayed (es : List Event) : Type 0 where
    pub identity : Identity
    pub known : tenant_identity ctx ≡ some identity
    pub stream : cmd.stream_id ≢ ""
    pub from : ltb_ℤ cmd.from_version (pos 0) ≡ false
    pub read : store.get_from_version ctx cmd.stream_id cmd.from_version s ≡ ok es
    pub whole : HasNoGap es

  replay_for-IsReplayed :
      (o : Option Identity) (es : List Event)
      → tenant_identity ctx ≡ o
      → replay_for store o ctx cmd s ≡ ok es
      → IsReplayed es
  unfolding replay_for
  replay_for-IsReplayed none es known h = cc
  replay_for-IsReplayed (some i) es known h =
      let (read, whole) =
        checked-ok (store.get_from_version ctx cmd.stream_id cmd.from_version s) es
          (ground arith) in
      record {
        identity = i;
        known = known;
        stream = ground (arith, eq_iff cmd.stream_id "");
        from = ground arith;
        read = read;
        whole = (validate_contiguous_iff es).0 whole;
      }

  IsReplayed-replay : (es : List Event) → IsReplayed es → replay store ctx cmd s ≡ ok es
  unfolding replay replay_for
  IsReplayed-replay es r = rw r.known (
      ground (
        arith,
        eq_iff cmd.stream_id "",
        checked-whole _ es r.read ((validate_contiguous_iff es).1 r.whole),
      ))

  -- Replay answers `es` exactly when the context has an identity with a tenant, the stream has a name,
  -- the version is not negative, the store answers `es`, and `es` has no gap.
  pub replay_iff : (es : List Event) → (replay store ctx cmd s ≡ ok es) ↔ IsReplayed es
  unfolding replay
  replay_iff es = (replay_for-IsReplayed (tenant_identity ctx) es refl, IsReplayed-replay es)
