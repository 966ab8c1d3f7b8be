-- ===== src/Auth.antt =====
-- internal/application/auth: the caller's identity in the request's context, and the issuer port.
use event_streaming_and_audi.Prelude.{
  ℤ, String, Option, none, some, List, if◌then◌else◌, ◌≡◌, ◌==◌, ◌↔◌, ◌≢◌, arith, eq_iff,
}
use event_streaming_and_audi.Errors.{Result}

pub record Identity : Type 0 where
  pub subject_id : String
  pub tenant_id : String
  pub roles : List String

-- Of a context.Context: the value under contextKey{}.
pub record Context : Type 0 where
  pub value : Option Identity

abbrev pub background : Context
background = record { value = none }

-- WithIdentity and IdentityFromContext; `none` is the zero value with `false`.
unfoldable pub with_identity : Context → Identity → Context
with_identity ctx id = record ctx { value = some id }

unfoldable pub identity_from_context : Context → Option Identity
identity_from_context ctx = ctx.value

-- The test that opens every service and query: `!ok || identity.TenantID == ""` leaves no identity.
abbrev named : Option Identity → Option Identity
named none = none
named (some identity) = if identity.tenant_id == "" then none else some identity

unfoldable pub tenant_identity : Context → Option Identity
tenant_identity ctx = named (identity_from_context ctx)

-- `expires_in` is a time.Duration: nanoseconds, as an int64.
pub record IssueCommand : Type 0 where
  pub identity : Identity
  pub expires_in : ℤ

pub record IssuedToken : Type 0 where
  pub token : String
  pub expires_at : ℤ

-- The port for minting tokens; the first argument is the clock's reading.
pub record Issuer : Type 0 where
  pub issue : ℤ → IssueCommand → Result IssuedToken

-- The identity that passes is the one in the context, and has a tenant.
pub tenant_identity_iff :
    (ctx : Context) (i : Identity)
    → (tenant_identity ctx ≡ some i) ↔ ((identity_from_context ctx ≡ some i) × (i.tenant_id ≢ ""))
unfolding tenant_identity identity_from_context
tenant_identity_iff ctx i = go ctx.value
  where
    go : (o : Option Identity) → (named o ≡ some i) ↔ ((o ≡ some i) × (i.tenant_id ≢ ""))
    go none = (λ h. cc, λ h. cc)
    go (some j) = (
      λ h. (ground (arith, eq_iff j.tenant_id ""), ground (arith, eq_iff j.tenant_id "")),
      λ h. ground (arith, eq_iff j.tenant_id "", eq_iff i.tenant_id ""),
    )
