-- ===== src/Prelude/Text.antt =====
-- The functions of Go's `strings` package that the program calls, over the characters of a text.
use Prim.Native.Nat.{ℕ, zero, suc, ◌+◌, ◌-◌, ◌*◌}
use Prim.Native.Char.{Char, code}
use Prim.Native.String.{String, [], ◌∷◌, compare}
use mathlib.Core.Bool.{Bool, true, false, ◌&&◌, ◌||◌}
use mathlib.Core.Option
use mathlib.Core.Option.{Option, none, some}
use mathlib.Core.List.{List}
use text.Mathlib.Text.{◌==◌, is_le}
use event_streaming_and_audi.Prelude.Tests.{ltb, leb, nat_beq, if◌then◌else◌}
use event_streaming_and_audi.Prelude.Int.{ℤ, pos, negsuc, two63}

abbrev pub push_front : Char → String × String → String × String
push_front c (a, b) = (c ∷ a, b)

-- The texts before and after the first character with code `sep`: strings.SplitN(s, sep, 2) has two
-- parts exactly when this is `some`, and strings.Index(s, sep) is the length of the first.
unfoldable pub cut : ℕ → String → Option (String × String)
cut sep [] = none
cut sep (c ∷ s) =
    if nat_beq (code c) sep then some ([], s) else Option.map (push_front c) (cut sep s)

abbrev cons_head : Char → List String → List String
cons_head c List.[] = List.◌∷◌ (c ∷ []) List.[]
cons_head c (List.◌∷◌ w ws) = List.◌∷◌ (c ∷ w) ws

-- strings.Split(s, sep) for a separator of one character.
unfoldable pub split : ℕ → String → List String
split sep [] = List.◌∷◌ [] List.[]
split sep (c ∷ s) =
    if nat_beq (code c) sep then List.◌∷◌ [] (split sep s) else cons_head c (split sep s)

abbrev is_digit : Char → Bool
is_digit c = leb b'0' (code c) && leb (code c) b'9'

-- The decimal number of a text of digits, after `acc`; `none` if another character is met.
unfoldable pub digits_from : ℕ → String → Option ℕ
digits_from acc [] = some acc
digits_from acc (c ∷ s) = if is_digit c then digits_from (acc * 10 + (code c - b'0')) s else none

-- A text of at least one digit.
unfoldable pub digits : String → Option ℕ
unfolding digits_from
digits [] = none
digits (c ∷ s) = digits_from 0 (c ∷ s)

abbrev in_range : ℤ → Option ℤ
in_range (pos n) = if ltb n two63 then some (pos n) else none
in_range (negsuc n) = if ltb n two63 then some (negsuc n) else none

abbrev negate : ℕ → ℤ
negate zero = pos 0
negate (suc n) = negsuc n

-- strconv.Atoi, where int has 64 bits: an optional sign and digits, within the range of int64.
unfoldable pub atoi : String → Option ℤ
unfolding digits
atoi [] = none
atoi (c ∷ s) =
    if nat_beq (code c) b'-'
    then Option.bind (digits s) (λ n. in_range (negate n))
    else if nat_beq (code c) b'+'
    then Option.bind (digits s) (λ n. in_range (pos n))
    else Option.bind (digits (c ∷ s)) (λ n. in_range (pos n))

-- unicode.IsSpace
abbrev pub is_space : ℕ → Bool
is_space c =
    (leb 9 c && leb c 13)
    || nat_beq c 0x20
    || nat_beq c 0x85
    || nat_beq c 0xA0
    || nat_beq c 0x1680
    || (leb 0x2000 c && leb c 0x200A)
    || nat_beq c 0x2028
    || nat_beq c 0x2029
    || nat_beq c 0x202F
    || nat_beq c 0x205F
    || nat_beq c 0x3000

unfoldable pub trim_left : String → String
trim_left [] = []
trim_left (c ∷ s) = if is_space (code c) then trim_left s else c ∷ s

abbrev pub drop_if_last : Char → String → String
drop_if_last c [] = if is_space (code c) then [] else c ∷ []
drop_if_last c (d ∷ s) = c ∷ d ∷ s

unfoldable pub trim_right : String → String
trim_right [] = []
trim_right (c ∷ s) = drop_if_last c (trim_right s)

-- strings.TrimSpace
unfoldable pub trim_space : String → String
unfolding trim_left trim_right
trim_space s = trim_right (trim_left s)

-- Beside the ASCII letters, U+017F folds to s and U+212A to k.
abbrev lower : ℕ → ℕ
lower c =
    if leb b'A' c && leb c b'Z'
    then c + 32
    else if nat_beq c 383
    then b's'
    else if nat_beq c 8490
    then b'k'
    else c

-- strings.EqualFold, and the folding of encoding/json's keys, against a text of ASCII characters: no
-- other character folds to one of these.
unfoldable pub equal_fold : String → String → Bool
equal_fold [] [] = true
equal_fold [] (d ∷ t) = false
equal_fold (c ∷ s) [] = false
equal_fold (c ∷ s) (d ∷ t) = nat_beq (lower (code c)) (lower (code d)) && equal_fold s t

-- strings.HasSuffix
unfoldable pub has_suffix : String → String → Bool
has_suffix [] suffix = [] == suffix
has_suffix (c ∷ s) suffix = c ∷ s == suffix || has_suffix s suffix

-- a <= b on texts, by code points: the order of their UTF-8 bytes.
abbrev pub str_le : String → String → Bool
str_le a b = is_le (compare a b)
