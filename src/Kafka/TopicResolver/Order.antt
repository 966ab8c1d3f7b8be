-- ===== src/Kafka/TopicResolver/Order.antt =====
-- Go iterates over a map in any order, so Topics may list the topics in any order.
use mathlib.Core.Path.{subst}
use mathlib.Core.Quot
use mathlib.Core.Quot.{Quot}
use event_streaming_and_audi.Config.Routes.{IsMap, IsNew}
use event_streaming_and_audi.Kafka.TopicResolver.{
  contains, collect, lookup, topics_of, resolve, prefix, route, domain_of,
}
use event_streaming_and_audi.Kafka.TopicResolver.Provisioned.{contains-append}
use event_streaming_and_audi.Prelude.{
  String, List, ℕ, ◌≡◌, ◌++◌, ◌∷◌, if◌then◌else◌, false, Bool, ◌||◌, some, true, ◌==◌, [],
  Bool-cases, arith, ◌+◌, inl, eq_iff, eq_refl, inr, ap, refl, ◌∙◌, sym, ◌≤◌, Option, none,
}
use event_streaming_and_audi.Event.{StringMap, Event}

-- Lists of topics up to their order.
abbrev pub occurrences : String → List String → ℕ
occurrences t [] = 0
occurrences t (u ∷ us) = (if u == t then 1 else 0) + occurrences t us

abbrev pub IsReordered : List String → List String → Type 0
IsReordered ts us = (t : String) → occurrences t ts ≡ occurrences t us

abbrev pub Unordered : Type 0
Unordered = Quot IsReordered

abbrev pub unordered : List String → Unordered
unordered = Quot.mk

occurrences-append :
    (t u : String) (ts : List String)
    → occurrences t (ts ++ u ∷ []) ≡ occurrences t ts + (if u == t then 1 else 0)
occurrences-append t u [] = omega arith
occurrences-append t u (x ∷ ts) = omega (arith, occurrences-append t u ts)

-- Each topic of the list stands there once.
abbrev OnceEach : List String → Type 0
OnceEach ts = (t : String) → occurrences t ts ≡ (if contains t ts then 1 else 0)

OnceEach-append :
    (u : String) (ts : List String) → OnceEach ts → contains u ts ≡ false → OnceEach (ts ++ u ∷ [])
OnceEach-append u ts once new t = elim (Bool-cases (u == t)) [
  | inl same ↦
      let here : contains t ts ≡ false =
        subst (λ w. contains w ts ≡ false) ((eq_iff u t).0 same) new in
      rw (occurrences-append t u ts, contains-append t u ts, once t, here, same) refl
  | inr other ↦ rw (occurrences-append t u ts, contains-append t u ts, once t, other) (ground arith)
]

collect-OnceEach :
    (routes : StringMap) (ts : List String) → OnceEach ts → OnceEach (collect routes ts)
unfolding collect
collect-OnceEach [] ts once = once
collect-OnceEach ((k, u) ∷ routes) ts once = elim (Bool-cases (contains u ts)) [
  | inl old ↦ rw old (collect-OnceEach routes ts once)
  | inr new ↦ rw new (collect-OnceEach routes (ts ++ u ∷ []) (OnceEach-append u ts once new))
]

-- Some route leads to the topic.
unfoldable leads : String → StringMap → Bool
leads t [] = false
leads t ((k, u) ∷ routes) = u == t || leads t routes

contains-collect :
    (t : String) (routes : StringMap) (ts : List String)
    → contains t (collect routes ts) ≡ (contains t ts || leads t routes)
unfolding collect leads
contains-collect t [] ts = ground arith
contains-collect t ((k, u) ∷ routes) ts = elim (Bool-cases (contains u ts)) [
  | inl old ↦
      rw (old, contains-collect t routes ts)
        (elim (Bool-cases (u == t)) [
          | inl same ↦
              let here : contains t ts ≡ true =
                subst (λ w. contains w ts ≡ true) ((eq_iff u t).0 same) old in
              rw here refl
          | inr other ↦ rw other refl
        ])
  | inr new ↦
      rw (new, contains-collect t routes (ts ++ u ∷ []), contains-append t u ts) (ground arith)
]

lookup-leads :
    (k t : String) (routes : StringMap) → lookup k routes ≡ some t → leads t routes ≡ true
unfolding lookup leads
lookup-leads k t [] h = cc
lookup-leads k t ((j, u) ∷ routes) h = elim (Bool-cases (j == k)) [
  | inl here ↦ let same : u ≡ t = cc (rw here at h) in ground (arith, eq_iff u t)
  | inr later ↦ ground (arith, lookup-leads k t routes (rw later at h))
]

lookup-IsNew :
    (k j t : String) (routes : StringMap)
    → IsNew k routes
    → lookup j routes ≡ some t
    → (k == j) ≡ false
unfolding lookup
lookup-IsNew k j t [] new h = cc
lookup-IsNew k j t ((i, u) ∷ routes) (other, rest) h = elim (Bool-cases (i == j)) [
  | inl here ↦ ground (arith, eq_iff i j, eq_iff i k, eq_iff k j)
  | inr later ↦ lookup-IsNew k j t routes rest (rw later at h)
]

leads-lookup :
    (t : String) (routes : StringMap)
    → IsMap routes
    → leads t routes ≡ true
    → (k : String) × (lookup k routes ≡ some t)
unfolding lookup leads
leads-lookup t [] is_map h = cc
leads-lookup t ((k, u) ∷ routes) (new, is_map) h = elim (Bool-cases (u == t)) [
  | inl here ↦ (k, rw (eq_refl k) (ap some ((eq_iff u t).0 here)))
  | inr later ↦
      let (j, found) = leads-lookup t routes is_map (rw later at h) in
      (j, rw (lookup-IsNew k j t routes new found) found)
]

module _ (a b : StringMap) (a-IsMap : IsMap a) (b-IsMap : IsMap b)
    (same : (k : String) → lookup k a ≡ lookup k b) where
  leads-same : (t : String) → leads t a ≡ leads t b
  leads-same t = elim (Bool-cases (leads t a)) [
    | inl led ↦
        let (k, found) = leads-lookup t a a-IsMap led in
        led ∙ sym (lookup-leads k t b (sym (same k) ∙ found))
    | inr stray ↦ elim (Bool-cases (leads t b)) [
      | inr missed ↦ stray ∙ sym missed
      | inl led ↦
          let (k, found) = leads-lookup t b b-IsMap led in cc (lookup-leads k t a (same k ∙ found))
    ]
  ]

single-OnceEach : (t : String) → OnceEach (t ∷ [])
unfolding contains
single-OnceEach t u = ground arith

-- Whatever order Go's iteration over the map of the routes has: Topics lists the same topics, each
-- once, and Resolve sends each event to the same topic.
pub topics_of-Unordered :
    (a b : StringMap) (fallback : String)
    → IsMap a
    → IsMap b
    → ((k : String) → lookup k a ≡ lookup k b)
    → (unordered (topics_of (prefix a fallback)) ≡ unordered (topics_of (prefix b fallback)))
      × ((t : String) → occurrences t (topics_of (prefix a fallback)) ≤ 1)
      × ((e : Event) → resolve (prefix a fallback) e ≡ resolve (prefix b fallback) e)
unfolding topics_of resolve
topics_of-Unordered a b fallback a-IsMap b-IsMap same =
    let once : (m : StringMap) (t : String)
        → occurrences t (collect m (fallback ∷ []))
          ≡ (if contains t (fallback ∷ []) || leads t m then 1 else 0) =
      λ m t.
        collect-OnceEach m (fallback ∷ []) (single-OnceEach fallback) t
        ∙ ap (λ (y : Bool). if y then 1 else 0) (contains-collect t m (fallback ∷ [])) in
    (
      Quot.sound (λ t.
          once a t
          ∙ ap (λ y. if contains t (fallback ∷ []) || y then 1 else 0)
              (leads-same a b a-IsMap b-IsMap same t)
          ∙ sym (once b t)),
      λ t. at_most (contains t (fallback ∷ []) || leads t a) (once a t),
      λ e. route_same (domain_of e.stream_id),
    )
  where
    at_most : {n : ℕ} (y : Bool) → n ≡ (if y then 1 else 0) → n ≤ 1
    at_most true h = omega (arith, h)
    at_most false h = omega (arith, h)

    route_same : (o : Option String) → route a fallback o ≡ route b fallback o
    route_same none = refl
    route_same (some d) = rw (same d) refl
