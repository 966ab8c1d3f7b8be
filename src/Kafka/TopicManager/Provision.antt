-- ===== src/Kafka/TopicManager/Provision.antt =====
-- What EnsureTopics leaves behind when it succeeds.
use event_streaming_and_audi.Kafka.TopicManager.{
  Cluster, TopicSpec, to_create, plan, reach_controller, create_at, execute, try_ensure_topics,
  ensure_from, ensure_topics, retry,
}
use event_streaming_and_audi.Kafka.TopicResolver.{contains}
use event_streaming_and_audi.Errors.{Result, ok, err, Error, text, Result-cases}
use event_streaming_and_audi.Prelude.{
  List, String, Option, map, Bool, ◌≡◌, All, ℕ, none, true, inr, ◌∷◌, ◌||◌, [], arith, ◌⊎◌, inl,
  suc, Bool-cases, ◌∙◌, ◌+◌, some, refl, eq_refl, ◌*◌, zero,
}

abbrev pub names_of : List TopicSpec → List String
names_of specs = map (λ s. s.name) specs

-- The cluster, with the topics that exist: the partitions that are read are theirs, and CreateTopics,
-- if it answers no error, has added the topics that it was given.
pub record Serves {C : Type 0} (cluster : Cluster C) (exists : C → String → Bool) : Type 0 where
  pub lists :
      (c : C) (ts : List String)
      → cluster.read_partitions c ≡ ok ts
      → (t : String) → contains t ts ≡ exists c t
  pub creates :
      (specs : List TopicSpec) (c c' : C)
      → cluster.create_topics specs c ≡ (none, c')
      → (t : String) → exists c' t ≡ (exists c t || contains t (names_of specs))

-- A spec's topic is read, or is to be created.
provided :
    (ts : List String) (zs : List String) (specs : List TopicSpec)
    → ((t : String) → contains t (names_of (to_create ts specs)) ≡ true → contains t zs ≡ true)
    → All (λ s. (contains s.name ts || contains s.name zs) ≡ true) specs
unfolding to_create
provided ts zs [] sub = tt
provided ts zs (s ∷ specs) sub = elim (Bool-cases (contains s.name ts)) [
  | inl old ↦ (ground arith, provided ts zs specs (λ t p. sub t (rw old p)))
  | inr new ↦ (
    unfold contains in ground (arith, sub s.name (rw new (ground (arith, eq_refl s.name)))),
    provided ts zs specs (λ t p. sub t (rw new (unfold contains in ground arith))),
  )
]

to_create-nil :
    (ts : List String) (specs : List TopicSpec)
    → All (λ s. contains s.name ts ≡ true) specs
    → to_create ts specs ≡ []
unfolding to_create
to_create-nil ts [] all = refl
to_create-nil ts (s ∷ specs) (old, all) = rw old (to_create-nil ts specs all)

All-map {ℓ κ} :
    {A : Type ℓ} {P Q : A → Type κ} (xs : List A) → ((a : A) → P a → Q a) → All P xs → All Q xs
All-map [] f h = tt
All-map (x ∷ xs) f (p, h) = (f x p, All-map xs f h)

module _ {C : Type 0} (cluster : Cluster C) where
  plan-ok :
      (specs todo : List TopicSpec) (c : C)
      → plan cluster specs c ≡ ok todo
      → (ts : List String) × (cluster.read_partitions c ≡ ok ts) × (todo ≡ to_create ts specs)
  unfolding plan
  plan-ok specs todo c h = elim (Result-cases (cluster.read_partitions c)) [
    | inr (x, failed) ↦ absurd (ground arith)
    | inl (ts, read) ↦ (ts, read, ground arith)
  ]

  create_at-none :
      (r : Result (Unit {0})) (specs : List TopicSpec) (c c' : C)
      → create_at cluster r specs c ≡ (none, c')
      → cluster.create_topics specs c ≡ (none, c')
  create_at-none (err x) specs c c' h = cc
  create_at-none (ok u) specs c c' h = ground arith

  execute-none :
      (todo : List TopicSpec) (c c' : C)
      → execute cluster (ok todo) c ≡ (none, c')
      → ((todo ≡ []) × (c ≡ c')) ⊎ (cluster.create_topics todo c ≡ (none, c'))
  execute-none [] c c' h = inl (refl, cc)
  execute-none (s ∷ todo) c c' h =
      inr (create_at-none (reach_controller cluster c) (s ∷ todo) c c' h)

  retry-none :
      (r : Option Error × C) (cancelled : Option Error) (waited w : ℕ) (c' : C)
      (next : Error → Option Error × C × ℕ)
      → retry cluster r cancelled waited next ≡ (none, c', w)
      → (r ≡ (none, c')) ⊎ ((x : Error) × (next x ≡ (none, c', w)))
  retry-none (none, c) cancelled waited w c' next h = inl (ground arith)
  retry-none (some x, c) (some done) waited w c' next h = cc
  retry-none (some x, c) none waited w c' next h = inr (x, h)

  module _ (exists : C → String → Bool) (serves : Serves cluster exists) where
    abbrev pub Provisioned : List TopicSpec → C → Type 0
    Provisioned specs c = All (λ s. exists c s.name ≡ true) specs

    exists-execute :
        (todo : List TopicSpec) (c c' : C)
        → execute cluster (ok todo) c ≡ (none, c')
        → (t : String) → exists c' t ≡ (exists c t || contains t (names_of todo))
    unfolding contains
    exists-execute todo c c' h t = elim (execute-none todo c c' h) [
      | inl (nothing, same) ↦ rw (nothing, ← same) (ground arith)
      | inr made ↦ serves.creates todo c c' made t
    ]

    execute-Provisioned :
        (ts : List String) (specs : List TopicSpec) (c c' : C)
        → cluster.read_partitions c ≡ ok ts
        → execute cluster (ok (to_create ts specs)) c ≡ (none, c')
        → Provisioned specs c'
    execute-Provisioned ts specs c c' read h =
        All-map specs
          (λ s p. ground (
            arith,
            serves.lists c ts read s.name,
            exists-execute (to_create ts specs) c c' h s.name,
          ))
          (provided ts (names_of (to_create ts specs)) specs (λ t p. p))

    try_ensure_topics-Provisioned :
        (specs : List TopicSpec) (c c' : C)
        → try_ensure_topics cluster specs c ≡ (none, c')
        → Provisioned specs c'
    unfolding try_ensure_topics
    try_ensure_topics-Provisioned specs c c' h = elim (Result-cases (plan cluster specs c)) [
      | inr (x, failed) ↦ cc (rw failed at h)
      | inl (todo, planned) ↦
          let (ts, read, same) = plan-ok specs todo c planned in
          execute-Provisioned ts specs c c' read (rw (planned, same) at h)
    ]

    try_ensure_topics_again :
        (specs : List TopicSpec) (c : C)
        → Provisioned specs c
        → (try_ensure_topics cluster specs c).1 ≡ c
    unfolding try_ensure_topics
    try_ensure_topics_again specs c all = elim (Result-cases (plan cluster specs c)) [
      | inr (x, failed) ↦ rw failed refl
      | inl (todo, planned) ↦
          let (ts, read, same) = plan-ok specs todo c planned in
          let none_left =
            to_create-nil ts specs (All-map specs (λ s p. serves.lists c ts read s.name ∙ p) all) in
          rw (planned, same, none_left) refl
    ]

    ensure_from-Provisioned :
        (specs : List TopicSpec) (between : ℕ → C → C) (cancelled : ℕ → Option Error)
        (left attempt : ℕ) (last : Error) (c c' : C) (waited w : ℕ)
        → ensure_from cluster specs between cancelled left attempt last c waited ≡ (none, c', w)
        → Provisioned specs c'
    unfolding ensure_from
    ensure_from-Provisioned specs between cancelled zero attempt last c c' waited w h = cc
    ensure_from-Provisioned specs between cancelled (suc left) attempt last c c' waited w h =
        let d : C = (try_ensure_topics cluster specs c).1 in
        elim (retry-none (try_ensure_topics cluster specs c) (cancelled attempt) waited w c'
          (λ x.
            ensure_from cluster specs between cancelled left (attempt + 1) x (between attempt d)
              (waited + attempt * 2))
          h) [
            | inl done ↦ try_ensure_topics-Provisioned specs c c' done
            | inr (x, later) ↦
                ensure_from-Provisioned specs between cancelled left (attempt + 1) x
                  (between attempt d) c' (waited + attempt * 2) w later
          ]

    -- On a cluster that lists the topics that exist and adds those that it is given: when EnsureTopics
    -- succeeds, the topic of every spec exists; and a later attempt, whether it
    -- reaches the cluster or not, then changes nothing: no topic is created again.
    pub ensure_topics-Provisioned :
        (specs : List TopicSpec) (between : ℕ → C → C) (cancelled : ℕ → Option Error) (c c' : C)
        (w : ℕ)
        → ensure_topics cluster specs between cancelled c ≡ (none, c', w)
        → Provisioned specs c' × ((try_ensure_topics cluster specs c').1 ≡ c')
    unfolding ensure_topics
    ensure_topics-Provisioned specs between cancelled c c' w h =
        let all = ensure_from-Provisioned specs between cancelled 5 1 (text "") c c' 0 w h in
        (all, try_ensure_topics_again specs c' all)
