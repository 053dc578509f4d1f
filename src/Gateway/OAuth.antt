-- ===== src/Gateway/OAuth.antt =====
-- apps/gateway/src/modules/auth/oauth: the contract of the OAuth verifiers, what they share, and
-- the hints of `AuthService.hintsFromCtx`. What `fetch` answers is an argument of each verifier.
pub mod Vk
pub mod Yandex
pub mod Factory
pub mod Contract
pub mod Retry
use nestjs_microservice_mono.Prelude.{
  ℕ, String, Bool, true, false, not, ◌≡◌, Option, none, some, List, [], ◌∷◌, ◌==◌, leb, template,
  truthy, or_else, if◌then◌else◌,
}
use nestjs_microservice_mono.Errors.Codes
use nestjs_microservice_mono.Errors.Defs.{
  Thrown, Outcome, ok, err, unauthorized_error, unavailable_error,
}
use nestjs_microservice_mono.Entities.{Platform}
use nestjs_microservice_mono.Trim.{trim}
use nestjs_microservice_mono.Gateway.Platforms.{parse_platform_from_user_agent}

pub record OAuthIdentity : Type 0 where
  pub provider_user_id : String
  pub email : Option String
  pub email_verified : Option Bool
  pub name : Option String

pub record OAuthVerifyHints : Type 0 where
  pub platform : Option Platform

unfoldable pub hints_from_ctx : Option String → OAuthVerifyHints
unfolding parse_platform_from_user_agent
hints_from_ctx user_agent = record { platform = parse_platform_from_user_agent user_agent }

-- `verify` of a verifier.
abbrev pub OAuthVerifier : Type 0
OAuthVerifier = String → OAuthVerifyHints → Outcome OAuthIdentity

-- How a `fetch` ends: it throws, or it answers with a status and what `json()` reads from the body,
-- `none` where that throws or is `null`.
pub data Fetched {ℓ} (B : Type ℓ) : Type ℓ where
  network : String → Fetched B
  response : ℕ → Option B → Fetched B

abbrev pub token_rejected : {A : Type 0} → String → Outcome A
token_rejected m = err (unauthorized_error Codes.token_invalid m)

abbrev pub upstream_unavailable : {A : Type 0} → String → Outcome A
upstream_unavailable m = err (unavailable_error "oauth_upstream_unavailable" m)

-- The answer that is used: one retry where the first attempt's status is 5xx, none where it throws.
abbrev pub retried : {B : Type 0} → String → Fetched B → Outcome (ℕ × Option B)
retried m (network _) = upstream_unavailable m
retried m (response s b) = ok (s, b)

abbrev pub attempted : {B : Type 0} → String → Fetched B → Fetched B → Outcome (ℕ × Option B)
attempted m (network _) again = upstream_unavailable m
attempted m (response s b) again = if leb 500 s then retried m again else ok (s, b)

-- `fetchWithRetry`. The argument answers the attempts by their number.
unfoldable pub fetch_with_retry : {B : Type 0} → String → (ℕ → Fetched B) → Outcome (ℕ × Option B)
fetch_with_retry m fetch = attempted m (fetch 0) (fetch 1)

-- The texts that are there and not empty: the `filter` of the names and of the app ids.
abbrev pub filled : List (Option String) → List String
filled [] = []
filled (none ∷ ps) = filled ps
filled (some s ∷ ps) = let rest = filled ps in if s == "" then rest else s ∷ rest

-- `.join(' ')`
abbrev pub join : List String → String
join [] = ""
join (s ∷ []) = s
join (s ∷ t ∷ ss) = template (s ∷ " " ∷ join (t ∷ ss) ∷ [])

-- `s || undefined`
abbrev pub present : String → Option String
present s = if s == "" then none else some s

-- `a || b` of two texts that may be undefined.
abbrev pub or_truthy : Option String → Option String → Option String
or_truthy a b = if truthy a then a else b
