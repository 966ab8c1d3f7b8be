-- ===== src/Kafka/TopicResolver/Domains.antt =====
-- What the domain of a stream and the route of a domain are, apart from how they are found
-- (internal/infrastructure/kafka/topic_resolver.go).
use Prim.Native.Char.{Char, code}
use Prim.Native.String.append
use event_streaming_and_audi.Config.Routes.{Free, ◌+++◌, cut-front}
use event_streaming_and_audi.Event.{StringMap}
use event_streaming_and_audi.Kafka.TopicResolver.{domain_of, lookup, non_empty}
use event_streaming_and_audi.Prelude.{
  push_front, String, Option, some, none, ◌≡◌, ◌≢◌, ◌⊎◌, inl, inr, refl, [], ◌∷◌, arith, eq_iff,
  Bool-cases, cut, nat_beq, ◌==◌, false, sym, ◌∙◌, ap,
}
use mathlib.Core.Option
use mathlib.Core.Path.{subst}
use text.Mathlib.TextEquality.{Char-path}

-- The routes map the domain to the topic.
abbrev pub Routed : String → String → StringMap → Type 0
Routed domain t [] = ⊥
Routed domain t ((k, u) ∷ routes) =
    ((k ≡ domain) × (u ≡ t)) ⊎ ((k ≢ domain) × Routed domain t routes)

pub lookup-Routed :
    (domain t : String) (routes : StringMap)
    → lookup domain routes ≡ some t
    → Routed domain t routes
unfolding lookup
lookup-Routed domain t [] h = cc
lookup-Routed domain t ((k, u) ∷ routes) h = elim (Bool-cases (k == domain)) [
  | inl same ↦ (let found : some u ≡ some t = rw same at h in inl ((eq_iff k domain).0 same, cc))
  | inr other ↦ inr (ground (arith, eq_iff k domain), lookup-Routed domain t routes (rw other at h))
]

pub Routed-lookup :
    (domain t : String) (routes : StringMap)
    → Routed domain t routes
    → lookup domain routes ≡ some t
unfolding lookup
Routed-lookup domain t [] h = elim h [ ]
Routed-lookup domain t ((k, u) ∷ routes) (inl (key, value)) =
    rw ((eq_iff k domain).1 key) (ap some value)
Routed-lookup domain t ((k, u) ∷ routes) (inr (other, rest)) =
    let differs : (k == domain) ≡ false = ground (arith, eq_iff k domain) in
    rw differs (Routed-lookup domain t routes rest)

-- What cut finds: the text is the parts around the first such character.
record Parts (s : String) (a b : String) : Type 0 where
  pub free : Free b':' a
  pub split : s ≡ a +++ String.◌∷◌ ":" b

Parts-later :
    (c : Char) (s a b : String)
    → nat_beq (code c) b':' ≡ false
    → (o : Option (String × String)) → Option.map (push_front c) o ≡ some (a, b)
    → ((a' b' : String) → o ≡ some (a', b') → Parts s a' b')
    → Parts (String.◌∷◌ c s) a b
Parts-later c s a b other none h parts = cc
Parts-later c s a b other (some (a', b')) h parts =
    let rest = parts a' b' refl in
    let first : String.◌∷◌ c a' ≡ a = cc in
    let second : b' ≡ b = cc in
    record {
      free = subst (Free b':') first (ground arith, rest.free);
      split =
          ap (String.◌∷◌ c) (rest.split ∙ ap (λ x. a' +++ String.◌∷◌ ":" x) second)
          ∙ sym (append.cons c a' (String.◌∷◌ ":" b))
          ∙ ap (λ x. x +++ String.◌∷◌ ":" b) first;
    }

cut-Parts : (s a b : String) → cut b':' s ≡ some (a, b) → Parts s a b
unfolding cut
cut-Parts String.[] a b h = cc
cut-Parts (String.◌∷◌ c s) a b h = elim (Bool-cases (nat_beq (code c) b':')) [
  | inl here ↦
      (let same : some (String.[], s) ≡ some (a, b) = rw here at h in
        let first : String.[] ≡ a = cc in
        let second : s ≡ b = cc in
        let colon : c ≡ ":" = Char-path c ":" (ground arith) in
        record {
          free = subst (Free b':') first tt;
          split =
              ap (λ d. String.◌∷◌ d s) colon
              ∙ ap (String.◌∷◌ ":") second
              ∙ sym (append.nil (String.◌∷◌ ":" b))
              ∙ ap (λ x. x +++ String.◌∷◌ ":" b) first;
        })
  | inr other ↦
      Parts-later c s a b other (cut b':' s) (rw other at h)
        (λ a' b' as_is. cut-Parts s a' b' as_is)
]

pub domain_of-front :
    (domain rest : String)
    → Free b':' domain
    → domain ≢ ""
    → domain_of (domain +++ String.◌∷◌ ":" rest) ≡ some domain
unfolding domain_of
domain_of-front domain rest free named =
    let given : (domain == "") ≡ false = ground (arith, eq_iff domain "") in
    rw (cut-front b':' ":" domain rest refl free) (rw given refl)

pub domain_of-some :
    (s domain : String)
    → domain_of s ≡ some domain
    → (rest : String) × (s ≡ domain +++ String.◌∷◌ ":" rest) × Free b':' domain × (domain ≢ "")
unfolding domain_of
domain_of-some s domain h = found (cut b':' s) refl h
  where
    found :
        (o : Option (String × String))
        → cut b':' s ≡ o
        → non_empty o ≡ some domain
        → (rest : String) × (s ≡ domain +++ String.◌∷◌ ":" rest) × Free b':' domain × (domain ≢ "")
    found none as_is k = cc
    found (some (a, b)) as_is k = elim (Bool-cases (a == "")) [
      | inl bare ↦ cc (rw bare at k)
      | inr named ↦
          (let same : some a ≡ some domain = rw named at k in
            let parts = cut-Parts s a b as_is in
            let eq : a ≡ domain = cc in
            (
              b,
              parts.split ∙ ap (λ x. x +++ String.◌∷◌ ":" b) eq,
              subst (Free b':') eq parts.free,
              ground (arith, eq_iff a ""),
            ))
    ]
