-- ===== src/Ingest/Outcomes.antt =====
-- Ingest over any store and publisher: what each outcome has gone through.
use event_streaming_and_audi.Prelude.{
  ◌≡◌, ◌≢◌, pos, ◌==◌, some, ◌||◌, Option, ◌↔◌, arith, false, ◌⊎◌, refl, eq_iff, inl, Bool-cases,
  none, inr,
}
use event_streaming_and_audi.Ingest.{ingest, ingest_for, Command, publish_appended}
use event_streaming_and_audi.Auth.{Identity, Context, tenant_identity}
use event_streaming_and_audi.Event.{Store, Uuid, Publisher, Time, Event, new, or_empty}
use event_streaming_and_audi.Errors.{ok, Error, Result, err, wrapped}

-- The event that is handed to the store.
abbrev pub draft : Identity → Uuid → Time → Command → Event
draft i id now cmd = record {
  id = id;
  tenant_id = i.tenant_id;
  stream_id = cmd.stream_id;
  type = cmd.type;
  source = cmd.source;
  version = pos 0;
  occurred_at = now;
  payload = cmd.payload;
  metadata = some (or_empty cmd.metadata);
}

abbrev pub IsComplete : Command → Type 0
IsComplete cmd = (cmd.stream_id ≢ "") × (cmd.type ≢ "") × (cmd.source ≢ "")

module _ {S P : Type 0} (store : Store S) (publisher : Publisher P) (id : Uuid) (now : Time)
    (ctx : Context) (cmd : Command) (s : S) (p : P) where
  -- What an ingestion that answers `e` has gone through.
  pub record IsIngested (e : Event) (s' : S) (p' : P) : Type 0 where
    pub identity : Identity
    pub known : tenant_identity ctx ≡ some identity
    pub complete : IsComplete cmd
    pub appended : store.append ctx (draft identity id now cmd) s ≡ (ok e, s')
    pub published : p' ≡ (publisher.publish e p).1

  publish_appended-ok :
      (r : Result Event × S) (e : Event) (s' : S) (p' : P)
      → publish_appended store publisher r p ≡ (ok e, s', p')
      → (r ≡ (ok e, s')) × (p' ≡ (publisher.publish e p).1)
  unfolding publish_appended
  publish_appended-ok (ok f, t) e s' p' h = (ground arith, ground arith)
  publish_appended-ok (err x, t) e s' p' h = cc

  missing-IsComplete :
      IsComplete cmd → (cmd.stream_id == "" || cmd.type == "" || cmd.source == "") ≡ false
  missing-IsComplete h =
      ground (arith, eq_iff cmd.stream_id "", eq_iff cmd.type "", eq_iff cmd.source "")

  IsIngested-ingest :
      (e : Event) (s' : S) (p' : P)
      → IsIngested e s' p'
      → ingest store publisher id now ctx cmd s p ≡ (ok e, s', p')
  unfolding ingest ingest_for publish_appended new
  IsIngested-ingest e s' p' r = rw (r.known, missing-IsComplete r.complete, r.appended, r.published)

  ingest_for-IsIngested :
      (o : Option Identity) (e : Event) (s' : S) (p' : P)
      → tenant_identity ctx ≡ o
      → ingest_for store publisher o id now ctx cmd s p ≡ (ok e, s', p')
      → IsIngested e s' p'
  unfolding ingest_for new
  ingest_for-IsIngested none e s' p' known h = cc
  ingest_for-IsIngested (some i) e s' p' known h =
      let complete : IsComplete cmd = (
        ground (arith, eq_iff cmd.stream_id ""),
        ground (arith, eq_iff cmd.type ""),
        ground (arith, eq_iff cmd.source ""),
      ) in
      let (appended, published) =
        publish_appended-ok (store.append ctx (draft i id now cmd) s) e s' p'
          (rw (missing-IsComplete complete) at h) in
      record {
        identity = i;
        known = known;
        complete = complete;
        appended = appended;
        published = published;
      }

  -- Ingest answers `e` exactly when the context has an identity with a tenant, no required field is
  -- empty, and the store has appended the caller's event as `e`. Whether publishing fails is without
  -- influence.
  pub ingest_iff :
      (e : Event) (s' : S) (p' : P)
      → (ingest store publisher id now ctx cmd s p ≡ (ok e, s', p')) ↔ IsIngested e s' p'
  unfolding ingest
  ingest_iff e s' p' =
      (ingest_for-IsIngested (tenant_identity ctx) e s' p' refl, IsIngested-ingest e s' p')

  abbrev FailedAppend : Error → S → Type 0
  FailedAppend x s' =
      (i : Identity) × (y : Error) × (tenant_identity ctx ≡ some i)
      × (store.append ctx (draft i id now cmd) s ≡ (err y, s'))
      × (x ≡ wrapped "append to store" y)

  publish_appended-err :
      (i : Identity) (r : Result Event × S) (x : Error) (s' : S) (p' : P)
      → tenant_identity ctx ≡ some i
      → store.append ctx (draft i id now cmd) s ≡ r
      → publish_appended store publisher r p ≡ (err x, s', p')
      → (p' ≡ p) × FailedAppend x s'
  unfolding publish_appended
  publish_appended-err i (ok f, t) x s' p' known e h = cc
  publish_appended-err i (err y, t) x s' p' known e h =
      (ground arith, (i, y, known, ground arith, ground arith))

  ingest_for-err :
      (o : Option Identity) (x : Error) (s' : S) (p' : P)
      → tenant_identity ctx ≡ o
      → ingest_for store publisher o id now ctx cmd s p ≡ (err x, s', p')
      → (p' ≡ p) × ((s' ≡ s) ⊎ FailedAppend x s')
  unfolding ingest_for new
  ingest_for-err none x s' p' known h = (ground arith, inl (ground arith))
  ingest_for-err (some i) x s' p' known h =
      elim (Bool-cases (cmd.stream_id == "" || cmd.type == "" || cmd.source == "")) [
        | inl missing ↦ (ground arith, inl (ground arith))
        | inr complete ↦
            let (q, f) = publish_appended-err i _ x s' p' known refl (rw complete at h) in
            (q, inr f)
      ]

  -- An ingestion that fails publishes nothing, and has changed the store at most by a failed append.
  pub ingest-fails :
      (x : Error) (s' : S) (p' : P)
      → ingest store publisher id now ctx cmd s p ≡ (err x, s', p')
      → (p' ≡ p)
        × ((s' ≡ s)
            ⊎ ((i : Identity) × (y : Error) × (tenant_identity ctx ≡ some i)
                × (store.append ctx (draft i id now cmd) s ≡ (err y, s'))
                × (x ≡ wrapped "append to store" y)))
  unfolding ingest
  ingest-fails x s' p' h = ingest_for-err (tenant_identity ctx) x s' p' refl h
