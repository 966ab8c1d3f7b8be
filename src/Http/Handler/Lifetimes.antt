-- ===== src/Http/Handler/Lifetimes.antt =====
-- How long the tokens live that the handlers ask for.
use event_streaming_and_audi.Prelude.{
  if◌then◌else◌, ℕ, ℤ, ◌≡◌, ◌≤◌, pos, leb_ℤ, ltb_ℤ, int64_scale, negsuc, arith, Bool-cases, leb,
  inl, inr, ltb,
}
use event_streaming_and_audi.Http.Handler.{lifetime, second}

-- The lifetime is positive and at most the maximum.
abbrev pub IsLifetime : ℕ → ℤ → Type 0
IsLifetime max l = (k : ℕ) × (l ≡ pos k) × (1 ≤ k) × (k ≤ max)

chosen-IsLifetime :
    (default max : ℕ) (asked : ℤ)
    → 1 ≤ default
    → default ≤ max
    → IsLifetime max (
        let expires_in = if leb_ℤ asked (pos 0) then pos default else asked in
        if ltb_ℤ (pos max) expires_in then pos max else expires_in)
chosen-IsLifetime default max (negsuc n) low high = (default, ground arith, low, high)
chosen-IsLifetime default max (pos n) low high = elim (Bool-cases (leb n 0)) [
  | inl none_asked ↦ (default, ground arith, low, high)
  | inr some_asked ↦ elim (Bool-cases (ltb max n)) [
    | inl longer ↦ (max, ground arith, omega arith, omega arith)
    | inr fits ↦ (n, ground arith, ground arith, ground arith)
  ]
]

-- For a positive default of at most the maximum: whatever expires_in is, and though its product
-- with a second may wrap around, the lifetime that is asked of the issuer is positive and at most
-- the maximum.
pub lifetime-IsLifetime :
    (default max : ℕ) (n : ℤ)
    → 1 ≤ default
    → default ≤ max
    → IsLifetime max (lifetime (pos default) (pos max) n)
unfolding lifetime
lifetime-IsLifetime default max n low high =
    chosen-IsLifetime default max (int64_scale n second) low high
