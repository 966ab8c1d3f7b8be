-- ===== src/Config/Routes.antt =====
-- The format of KAFKA_TOPIC_ROUTES: "prefix:topic,prefix:topic".
use Prim.Native.Char.{Char, code}
use Prim.Native.String
use Prim.Native.String.append
use mathlib.Core.List.{append_assoc, append-nil}
use event_streaming_and_audi.Prelude.{
  nat_beq, is_space, trim_left, trim_right, String, ℕ, split, cut, trim_space, Bool, ◌≢◌, not, ◌≡◌,
  true, ◌∷◌, false, [], arith, some, drop_if_last, refl, All, ◌++◌, ◌==◌, map, ◌||◌, eq_iff, ◌∙◌,
  sym, ap,
}
use event_streaming_and_audi.Event.{StringMap}
use event_streaming_and_audi.Config.{assign, add_routes, parse_topic_routes, add_route}

infixr 65 ◌+++◌
abbrev pub ◌+++◌ : String → String → String
a +++ b = String.◌++◌ a b

-- Each character of the text passes the test.
abbrev pub Chars : (ℕ → Bool) → String → Type 0
Chars p String.[] = Unit
Chars p (String.◌∷◌ c s) = (p (code c) ≡ true) × Chars p s

Chars-append : (p : ℕ → Bool) (a b : String) → Chars p a → Chars p b → Chars p (a +++ b)
Chars-append p String.[] b h k = rw (append.nil b) k
Chars-append p (String.◌∷◌ c a) b (first, rest) k =
    rw (append.cons c a b) (first, Chars-append p a b rest k)

append-cons_ne : (a b : String) (d : Char) → a +++ String.◌∷◌ d b ≢ ""
append-cons_ne String.[] b d = rw (append.nil (String.◌∷◌ d b)) (λ same. cc)
append-cons_ne (String.◌∷◌ c a) b d = rw (append.cons c a (String.◌∷◌ d b)) (λ same. cc)

-- The separator does not occur.
abbrev pub Free : ℕ → String → Type 0
Free sep s = Chars (λ c. not (nat_beq c sep)) s

-- No white space.
abbrev pub Tight : String → Type 0
Tight s = Chars (λ c. not (is_space c)) s

split-last : (sep : ℕ) (a : String) → Free sep a → split sep a ≡ a ∷ []
unfolding split
split-last sep String.[] h = refl
split-last sep (String.◌∷◌ c a) (first, rest) =
    let other : nat_beq (code c) sep ≡ false = ground arith in
    rw (other, split-last sep a rest) refl

split-front :
    (sep : ℕ) (d : Char) (a b : String)
    → nat_beq (code d) sep ≡ true
    → Free sep a
    → split sep (a +++ String.◌∷◌ d b) ≡ a ∷ split sep b
unfolding split
split-front sep d String.[] b here h = rw (append.nil (String.◌∷◌ d b), here) refl
split-front sep d (String.◌∷◌ c a) b here (first, rest) =
    let other : nat_beq (code c) sep ≡ false = ground arith in
    rw (append.cons c a (String.◌∷◌ d b), other, split-front sep d a b here rest) refl

pub cut-front :
    (sep : ℕ) (d : Char) (a b : String)
    → nat_beq (code d) sep ≡ true
    → Free sep a
    → cut sep (a +++ String.◌∷◌ d b) ≡ some (a, b)
unfolding cut
cut-front sep d String.[] b here h = rw (append.nil (String.◌∷◌ d b), here) refl
cut-front sep d (String.◌∷◌ c a) b here (first, rest) =
    let other : nat_beq (code c) sep ≡ false = ground arith in
    rw (append.cons c a (String.◌∷◌ d b), other, cut-front sep d a b here rest) refl

trim_right-Tight : (s : String) → Tight s → trim_right s ≡ s
unfolding trim_right
trim_right-Tight String.[] h = refl
trim_right-Tight (String.◌∷◌ c s) (first, rest) =
    rw (trim_right-Tight s rest) (kept c s (ground arith))
  where
    kept : (c : Char) (s : String) → is_space (code c) ≡ false → drop_if_last c s ≡ String.◌∷◌ c s
    kept c String.[] black = rw black refl
    kept c (String.◌∷◌ d s) black = refl

trim_space-Tight : (s : String) → Tight s → trim_space s ≡ s
unfolding trim_space trim_left
trim_space-Tight String.[] h = trim_right-Tight "" tt
trim_space-Tight (String.◌∷◌ c s) (first, rest) =
    let black : is_space (code c) ≡ false = ground arith in
    rw black (trim_right-Tight (String.◌∷◌ c s) (first, rest))

-- A prefix and a topic that the format can hold: a topic may have a colon, a prefix may not.
pub record IsRoute (r : String × String) : Type 0 where
  pub prefix_named : r.0 ≢ ""
  pub topic_named : r.1 ≢ ""
  pub prefix_colon : Free b':' r.0
  pub prefix_comma : Free b',' r.0
  pub topic_comma : Free b',' r.1
  pub prefix_tight : Tight r.0
  pub topic_tight : Tight r.1

-- The key is not among those of the entries.
abbrev pub IsNew : String → StringMap → Type 0
IsNew k m = All (λ r. (r.0 == k) ≡ false) m

-- No prefix twice.
abbrev pub IsMap : StringMap → Type 0
IsMap [] = Unit
IsMap ((k, v) ∷ m) = IsNew k m × IsMap m

-- The text of an entry, and of entries.
abbrev pub entry : String × String → String
entry r = r.0 +++ String.◌∷◌ ":" r.1

unfoldable pub format_routes : StringMap → String
format_routes [] = ""
format_routes (r ∷ []) = entry r
format_routes (r ∷ q ∷ m) = entry r +++ String.◌∷◌ "," (format_routes (q ∷ m))

entry-Free : (r : String × String) → IsRoute r → Free b',' (entry r)
entry-Free r h =
    Chars-append (λ c. not (nat_beq c b',')) r.0 (String.◌∷◌ ":" r.1) h.prefix_comma
      (refl, h.topic_comma)

entry-Tight : (r : String × String) → IsRoute r → Tight (entry r)
entry-Tight r h =
    Chars-append (λ c. not (is_space c)) r.0 (String.◌∷◌ ":" r.1) h.prefix_tight
      (refl, h.topic_tight)

split-format_routes :
    (r : String × String) (m : StringMap)
    → All IsRoute (r ∷ m)
    → split b',' (format_routes (r ∷ m)) ≡ map entry (r ∷ m)
unfolding format_routes
split-format_routes r [] (h, _) = split-last b',' (entry r) (entry-Free r h)
split-format_routes r (q ∷ m) (h, rest) =
    split-front b',' "," (entry r) (format_routes (q ∷ m)) refl (entry-Free r h)
    ∙ ap (λ l. entry r ∷ l) (split-format_routes q m rest)

format_routes_ne : (r : String × String) (m : StringMap) → format_routes (r ∷ m) ≢ ""
unfolding format_routes
format_routes_ne r [] = append-cons_ne r.0 r.1 ":"
format_routes_ne r (q ∷ m) = append-cons_ne (entry r) (format_routes (q ∷ m)) ","

assign-IsNew : (k v : String) (m : StringMap) → IsNew k m → assign k v m ≡ m ++ (k, v) ∷ []
unfolding assign
assign-IsNew k v [] h = refl
assign-IsNew k v ((j, w) ∷ m) (other, rest) = rw (other, assign-IsNew k v m rest) refl

add_route-entry :
    (r : String × String) (m : StringMap)
    → IsRoute r
    → IsNew r.0 m
    → add_route (cut b':' (trim_space (entry r))) m ≡ m ++ r ∷ []
add_route-entry r m h new =
    let tight : trim_space (entry r) ≡ entry r = trim_space-Tight (entry r) (entry-Tight r h) in
    let named : (r.0 == "" || r.1 == "") ≡ false =
      ground (arith, h.prefix_named, h.topic_named, eq_iff r.0 "", eq_iff r.1 "") in
    rw (tight, cut-front b':' ":" r.0 r.1 refl h.prefix_colon, named) (assign-IsNew r.0 r.1 m new)

IsNew-append :
    (k : String) (r : String × String) (m : StringMap)
    → IsNew k m
    → (r.0 == k) ≡ false
    → IsNew k (m ++ r ∷ [])
IsNew-append k r [] h other = (other, tt)
IsNew-append k r (q ∷ m) (first, rest) other = (first, IsNew-append k r m rest other)

-- The prefixes of the second entries are none of the first.
abbrev Apart : StringMap → StringMap → Type 0
Apart m new = All (λ r. IsNew r.0 m) new

Apart-append :
    (m : StringMap) (k v : String) (new : StringMap)
    → Apart m new
    → IsNew k new
    → Apart (m ++ (k, v) ∷ []) new
Apart-append m k v [] h other = tt
Apart-append m k v ((j, w) ∷ new) (first, rest) (other, others) = (
  IsNew-append j (k, v) m first (ground (arith, eq_iff j k, eq_iff k j)),
  Apart-append m k v new rest others,
)

add_routes-entries :
    (routes m : StringMap)
    → All IsRoute routes
    → IsMap routes
    → Apart m routes
    → add_routes (map entry routes) m ≡ m ++ routes
unfolding add_routes
add_routes-entries [] m all is_map apart = sym (append-nil m)
add_routes-entries ((k, v) ∷ routes) m (h, all) (new, is_map) (first, apart) =
    ap (add_routes (map entry routes)) (add_route-entry (k, v) m h first)
    ∙ add_routes-entries routes (m ++ (k, v) ∷ []) all is_map (Apart-append m k v routes apart new)
    ∙ append_assoc m ((k, v) ∷ []) routes

-- A map of routes whose prefixes and topics have no white space and no comma, and no prefix a colon,
-- is read back from its text, each prefix with its topic: also topics with a colon.
pub parse_topic_routes-format_routes :
    (routes : StringMap)
    → All IsRoute routes
    → IsMap routes
    → parse_topic_routes (format_routes routes) ≡ routes
unfolding parse_topic_routes
parse_topic_routes-format_routes [] all is_map = unfold format_routes in refl
parse_topic_routes-format_routes (r ∷ m) all is_map =
    let given : (format_routes (r ∷ m) == "") ≡ false =
      ground (arith, format_routes_ne r m, eq_iff (format_routes (r ∷ m)) "") in
    rw (given, split-format_routes r m all)
      (add_routes-entries (r ∷ m) [] all is_map (nothing (r ∷ m)))
  where
    nothing : (new : StringMap) → Apart [] new
    nothing [] = tt
    nothing (q ∷ new) = (tt, nothing new)
