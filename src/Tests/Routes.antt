-- ===== src/Tests/Routes.antt =====
-- The text of topic routes, and what Topics makes of them.
use mathlib.Core.Path.{subst}
use Prim.Native.Char.{code}
use event_streaming_and_audi.Prelude.{
  is_space, nat_beq, ℕ, String, All, Bool, not, ◌∷◌, true, ◌≡◌, [], arith, ◌&&◌, eq_iff, refl,
  Bool-cases, ◌==◌, inl, ◌≤◌, inr,
}
use event_streaming_and_audi.Event.{StringMap, Event}
use event_streaming_and_audi.Config.{parse_topic_routes}
use event_streaming_and_audi.Config.Routes.{
  IsRoute, format_routes, Chars, Free, Tight, parse_topic_routes-format_routes,
}
use event_streaming_and_audi.Kafka.TopicResolver.{lookup, topics_of, prefix, resolve}
use event_streaming_and_audi.Kafka.TopicResolver.Order.{unordered, occurrences, topics_of-Unordered}

all_chars : (ℕ → Bool) → String → Bool
all_chars p String.[] = true
all_chars p (String.◌∷◌ c s) = p (code c) && all_chars p s

all_chars-Chars : (p : ℕ → Bool) (s : String) → all_chars p s ≡ true → Chars p s
unfolding all_chars
all_chars-Chars p String.[] h = tt
all_chars-Chars p (String.◌∷◌ c s) h =
    let (first, rest) = both (p (code c)) (all_chars p s) h in (first, all_chars-Chars p s rest)
  where
    both : (a b : Bool) → (a && b) ≡ true → (a ≡ true) × (b ≡ true)
    both a b k = (ground arith, ground arith)

free : (sep : ℕ) (s : String) → all_chars (λ c. not (nat_beq c sep)) s ≡ true → Free sep s
free sep s h = all_chars-Chars (λ c. not (nat_beq c sep)) s h

tight : (s : String) → all_chars (λ c. not (is_space c)) s ≡ true → Tight s
tight s h = all_chars-Chars (λ c. not (is_space c)) s h

-- One topic has a colon.
abbrev two_routes : StringMap
two_routes = ("order", "events:order") ∷ ("user", "users.v1") ∷ []

two_routes-IsRoute : All IsRoute two_routes
unfolding all_chars
two_routes-IsRoute = (
  record {
    prefix_named = ground (arith, eq_iff "order" "");
    topic_named = ground (arith, eq_iff "events:order" "");
    prefix_colon = free b':' "order" refl;
    prefix_comma = free b',' "order" refl;
    topic_comma = free b',' "events:order" refl;
    prefix_tight = tight "order" refl;
    topic_tight = tight "events:order" refl;
  },
  (
    record {
      prefix_named = ground (arith, eq_iff "user" "");
      topic_named = ground (arith, eq_iff "users.v1" "");
      prefix_colon = free b':' "user" refl;
      prefix_comma = free b',' "user" refl;
      topic_comma = free b',' "users.v1" refl;
      prefix_tight = tight "user" refl;
      topic_tight = tight "users.v1" refl;
    },
    tt,
  ),
)

parse_topic_routes-format_routes_example :
    parse_topic_routes (format_routes two_routes) ≡ two_routes
parse_topic_routes-format_routes_example =
    parse_topic_routes-format_routes two_routes two_routes-IsRoute ((refl, tt), (tt, tt))

abbrev other_order : StringMap
other_order = ("user", "users.v1") ∷ ("order", "events:order") ∷ []

same_lookups : (k : String) → lookup k two_routes ≡ lookup k other_order
unfolding lookup
same_lookups k = elim (Bool-cases ("order" == k)) [
  | inl first ↦
      subst (λ j. lookup j two_routes ≡ lookup j other_order) ((eq_iff "order" k).0 first) refl
  | inr other ↦ rw other refl
]

topics_of-Unordered_example :
    (unordered (topics_of (prefix two_routes "events.v1"))
      ≡ unordered (topics_of (prefix other_order "events.v1")))
    × ((t : String) → occurrences t (topics_of (prefix two_routes "events.v1")) ≤ 1)
    × ((e : Event)
        → resolve (prefix two_routes "events.v1") e ≡ resolve (prefix other_order "events.v1") e)
topics_of-Unordered_example =
    topics_of-Unordered two_routes other_order "events.v1" ((refl, tt), (tt, tt))
      ((refl, tt), (tt, tt)) same_lookups
