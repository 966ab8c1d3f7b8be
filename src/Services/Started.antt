-- ===== src/Services/Started.antt =====
-- What holds once the ingest-api has started.
use mathlib.Core.Path.{subst}
use event_streaming_and_audi.Kafka.TopicResolver.{contains, resolve}
use event_streaming_and_audi.Services.Startup.{
  Libraries, Waits, with_topics, World, indexer_made, topics_ensured, IngestApi, start_ingest_api,
  ingest_api_with, ingest_api_of, store_made,
}
use event_streaming_and_audi.Prelude.{
  String, Bool, List, All, ℕ, Option, ◌≡◌, true, some, refl, none, ◌∷◌, Bool-cases, ◌==◌, inl,
  eq_iff, inr, [], ◌≢◌, arith, ◌⊎◌,
}
use event_streaming_and_audi.Kafka.TopicManager.Provision.{Serves, ensure_topics-Provisioned}
use event_streaming_and_audi.Kafka.TopicManager.{TopicSpec, ensure_topics}
use event_streaming_and_audi.Config.{Config, AuthConfig, dlq_topic_name}
use event_streaming_and_audi.Errors.{Result, Error, ok, err}
use event_streaming_and_audi.Services.Routing.{
  names, build_topic_specs-provisions, build_topic_specs-dlq,
}
use event_streaming_and_audi.Services.{build_authenticator, build_topic_specs, resolver_of}
use event_streaming_and_audi.Event.{Event}
use event_streaming_and_audi.Authenticator.{Authenticator, authenticate_none, authenticate_simple}
use event_streaming_and_audi.Authenticator.Jwt.{authenticate_jwt}
use event_streaming_and_audi.Postgres.Connect.{new_event_store}

pub contained-exists :
    {C : Type 0} (exists : C → String → Bool) (c : C) (specs : List TopicSpec) (t : String)
    → All (λ s. exists c s.name ≡ true) specs
    → contains t (names specs) ≡ true
    → exists c t ≡ true
unfolding contains
contained-exists exists c [] t all h = cc
contained-exists exists c (s ∷ specs) t (first, rest) h = elim (Bool-cases (s.name == t)) [
  | inl same ↦ subst (λ u. exists c u ≡ true) ((eq_iff s.name t).0 same) first
  | inr other ↦ contained-exists exists c specs t rest (rw other at h)
]

module _ {D C S : Type 0} (libs : Libraries D C S) (waits : Waits C S) where
  -- A start that succeeds has made the topics of its specs, and has gone on.
  pub record Ready (exists : C → String → Bool) (specs : List TopicSpec) {R : Type 0}
      (next : World D C S → Result R × World D C S) (r : R) (w' : World D C S) : Type 0 where
    pub world : World D C S
    pub exist : All (λ s. exists world.kafka s.name ≡ true) specs
    pub went_on : next world ≡ (ok r, w')

  indexer_made-Ready :
      {R : Type 0} (exists : C → String → Bool) (specs : List TopicSpec) (cfg : Config)
      (next : World D C S → Result R × World D C S) (w w' : World D C S) (r : R)
      (made : Result (Unit {0}) × S × ℕ)
      → All (λ s. exists w.kafka s.name ≡ true) specs
      → indexer_made libs waits cfg next w made ≡ (ok r, w')
      → Ready exists specs next r w'
  indexer_made-Ready exists specs cfg next w w' r (err x, s, n) all h = cc
  indexer_made-Ready exists specs cfg next w w' r (ok _, s, n) all h = record {
    world = record w { elasticsearch = s };
    exist = all;
    went_on = h;
  }

  module _ (exists : C → String → Bool) (serves : Serves libs.cluster exists) where
    topics_ensured-Ready :
        {R : Type 0} (specs : List TopicSpec) (cfg : Config)
        (next : World D C S → Result R × World D C S) (w w' : World D C S) (r : R)
        (ensured : Option Error × C × ℕ)
        → ensure_topics libs.cluster specs waits.kafka waits.signalled w.kafka ≡ ensured
        → topics_ensured libs waits cfg next w ensured ≡ (ok r, w')
        → Ready exists specs next r w'
    topics_ensured-Ready specs cfg next w w' r (some x, c, n) as_is h = cc
    topics_ensured-Ready specs cfg next w w' r (none, c, n) as_is h =
        indexer_made-Ready exists specs cfg next (record w { kafka = c }) w' r _
          (ensure_topics-Provisioned libs.cluster exists serves specs waits.kafka waits.signalled
            w.kafka c n as_is).0
          h

    pub with_topics-Ready :
        {R : Type 0} (specs : List TopicSpec) (cfg : Config)
        (next : World D C S → Result R × World D C S) (w w' : World D C S) (r : R)
        → with_topics libs waits cfg specs next w ≡ (ok r, w')
        → Ready exists specs next r w'
    unfolding with_topics
    with_topics-Ready specs cfg next w w' r h = topics_ensured-Ready specs cfg next w w' r _ refl h

    -- The authenticator of each mode; mode jwt needs a secret.
    abbrev pub Admits : AuthConfig → Authenticator → Type 0
    Admits auth a =
        ((auth.mode ≡ "jwt")
          × (auth.jwt_secret ≢ "")
          × (a ≡ record { authenticate = authenticate_jwt libs.jwt auth.jwt_secret }))
        ⊎ (((auth.mode ≡ "simple")
              × (a ≡ record { authenticate = authenticate_simple auth.api_key }))
            ⊎ ((auth.mode ≢ "jwt")
                × (auth.mode ≢ "simple")
                × (a ≡ record { authenticate = authenticate_none })))

    -- What the ingest-api serves with, on a cluster.
    pub record IsStarted (cfg : Config) (api : IngestApi) (c : C) : Type 0 where
      pub publishes : (e : Event) → exists c (resolve api.resolver e) ≡ true
      pub dead_letters : exists c (dlq_topic_name cfg.kafka) ≡ true
      pub admits : Admits cfg.auth api.authenticator

    build_authenticator-Admits :
        (auth : AuthConfig) (a : Authenticator)
        → build_authenticator libs.jwt auth ≡ some a
        → Admits auth a
    unfolding build_authenticator
    build_authenticator-Admits auth a h = elim (Bool-cases (auth.mode == "none")) [
      | inl none_ ↦
          (let same : some (record { authenticate = authenticate_none }) ≡ some a = rw none_ at h in
            let mode : auth.mode ≡ "none" = (eq_iff auth.mode "none").0 none_ in
            inr (inr (λ k. cc, λ k. cc, cc)))
      | inr named ↦ elim (Bool-cases (auth.mode == "jwt")) [
        | inl jwt ↦ elim (Bool-cases (auth.jwt_secret == "")) [
          | inl missing ↦ cc (rw (named, jwt, missing) at h)
          | inr given ↦
              (let same : some (record { authenticate = authenticate_jwt libs.jwt auth.jwt_secret })
                    ≡ some a =
                  rw (named, jwt, given) at h in
                inl ((eq_iff auth.mode "jwt").0 jwt, ground (arith, eq_iff auth.jwt_secret ""), cc))
        ]
        | inr other ↦ elim (Bool-cases (auth.mode == "simple")) [
          | inl simple ↦
              (let same : some (record { authenticate = authenticate_simple auth.api_key })
                    ≡ some a =
                  rw (named, other, simple) at h in
                inr (inl ((eq_iff auth.mode "simple").0 simple, cc)))
          | inr unknown ↦
              (let same : some (record { authenticate = authenticate_none }) ≡ some a =
                  rw (named, other, unknown) at h in
                inr (
                  inr (
                    ground (arith, eq_iff auth.mode "jwt"),
                    ground (arith, eq_iff auth.mode "simple"),
                    cc,
                  )))
        ]
      ]
    ]

    ingest_api_with-IsStarted :
        (cfg : Config) (w w' : World D C S) (api : IngestApi) (o : Option Authenticator)
        → build_authenticator libs.jwt cfg.auth ≡ o
        → All
            (λ s. exists w.kafka s.name ≡ true)
            (build_topic_specs cfg.kafka (resolver_of cfg.kafka))
        → ◌≡◌ {A = Result IngestApi × World D C S}
            (ingest_api_with libs waits cfg o, w)
            (ok api, w')
        → IsStarted cfg api w'.kafka
    ingest_api_with-IsStarted cfg w w' api none as_is all h = cc
    ingest_api_with-IsStarted cfg w w' api (some a) as_is all h =
        let same_api : ingest_api_of libs waits cfg a ≡ api = cc in
        let same_world : w ≡ w' = cc in
        subst (λ (x : IngestApi). IsStarted cfg x w'.kafka) same_api
          (subst (λ (x : World D C S). IsStarted cfg (ingest_api_of libs waits cfg a) x.kafka)
            same_world
            (record {
              publishes = λ e.
                  contained-exists exists w.kafka _ _ all
                    (build_topic_specs-provisions cfg.kafka e).0;
              dead_letters =
                  contained-exists exists w.kafka _ _ all (build_topic_specs-dlq cfg.kafka);
              admits = build_authenticator-Admits cfg.auth a as_is;
            }))

    -- On a cluster that lists the topics that exist and adds those that it is given: once the
    -- ingest-api serves, every topic that it may publish to exists, and so does the
    -- dead-letter topic; requests pass the authenticator of the configured mode, which in mode jwt
    -- has a secret that is not empty.
    pub start_ingest_api-IsStarted :
        (cfg : Config) (w w' : World D C S) (api : IngestApi)
        → start_ingest_api libs waits cfg w ≡ (ok api, w')
        → IsStarted cfg api w'.kafka
    unfolding start_ingest_api
    start_ingest_api-IsStarted cfg w w' api h =
        store_made-IsStarted cfg w w' api (new_event_store libs.pool cfg.postgres w.postgres) h
      where
        store_made-IsStarted :
            (cfg : Config) (w w' : World D C S) (api : IngestApi) (r : Option Error × D)
            → store_made libs waits cfg w r ≡ (ok api, w')
            → IsStarted cfg api w'.kafka
        store_made-IsStarted cfg w w' api (some x, d) k = cc
        store_made-IsStarted cfg w w' api (none, d) k =
            let g = with_topics-Ready _ cfg _ (record w { postgres = d }) w' api k in
            ingest_api_with-IsStarted cfg g.world w' api _ refl g.exist g.went_on
