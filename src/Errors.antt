-- ===== src/Errors.antt =====
-- Go's `error` values as data, and the two results (value, error) of a fallible function.
use event_streaming_and_audi.Prelude.{◌≡◌, refl, ℤ, String, Option, none, some, ◌⊎◌, inl, inr, ℕ}

-- `text` is errors.New or a fmt.Errorf with no argument; `wrapped p e` is fmt.Errorf("p: %w", e);
-- `version_gap s m f p` is the error of validateContiguous for the stream `s`: version `m` is
-- missing, `f` was found after `p`. `attempts p n e` is "p after n attempts: e".
pub data Error : Type 0 where
  text : String → Error
  wrapped : String → Error → Error
  version_gap : String → ℤ → ℤ → ℤ → Error
  attempts : String → ℤ → Error → Error

pub data Result {ℓ} (V : Type ℓ) : Type ℓ where
  ok : V → Result V
  err : Error → Result V

-- `if err != nil { return …, fmt.Errorf("p: %w", err) }` around a call.
abbrev pub wrap {ℓ} : {A : Type ℓ} → String → Result A → Result A
wrap p (ok a) = ok a
wrap p (err e) = err (wrapped p e)

-- The same for a call that returns only an error.
abbrev pub wrap_error : String → Option Error → Option Error
wrap_error p none = none
wrap_error p (some e) = some (wrapped p e)

-- Of two calls in a row: an error of the first is the error of both.
infixl 5 ◌>>=◌ ◌>>◌
abbrev pub ◌>>=◌ {ℓ₁ ℓ₂} : {V : Type ℓ₁} {W : Type ℓ₂} → Result V → (next : V → Result W) → Result W
err failed >>= next = err failed
ok value >>= next = next value

-- The first of the calls has no value.
abbrev pub ◌>>◌ {ℓ} : {W : Type ℓ} → Result (Unit {0}) → Result W → Result W
first >> second = first >>= λ nothing. second

-- To split on a result and keep the equation.
pub Result-cases {ℓ} :
    {V : Type ℓ} (r : Result V) → ((v : V) × (r ≡ ok v)) ⊎ ((e : Error) × (r ≡ err e))
Result-cases (err e) = inr (e, refl)
Result-cases (ok v) = inl (v, refl)

-- How a main stands: it runs, or the process has ended with an exit code.
pub data Exit : Type 0 where
  running : Exit
  exited : ℕ → Exit
