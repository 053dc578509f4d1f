-- ===== src/Gateway/Tokens.antt =====
-- apps/gateway/src/modules/auth/strategies/*.ts, guards/jwt-*.guard.ts: the claims of a token, and
-- when a presented token is accepted. Signing and verifying are jsonwebtoken's.
use nestjs_microservice_mono.Prelude.{
  ℕ, String, Bool, true, false, not, ◌&&◌, ◌||◌, Option, none, some, truthy, or_else, ◌==◌,
  if◌then◌else◌,
}
use nestjs_microservice_mono.Errors.Codes
use nestjs_microservice_mono.Errors.Defs.{Thrown, Outcome, ok, err, unauthorized_error}
use nestjs_microservice_mono.Entities.{autoreg, registered, account_type_name}
use nestjs_microservice_mono.Gateway.TokenStore.{Redis, is_blacklisted}

-- The decoded payloads; a claim may be absent from a token.
pub record JwtPayload : Type 0 where
  pub sub : Option String
  pub type_name : Option String

pub record JwtRefreshPayload : Type 0 where
  pub sub : Option String
  pub type_name : Option String
  pub jti : Option String
  pub device_id : Option String
  pub tv : Option ℕ
  pub exp : Option ℕ

abbrev pub invalid_token : String → Thrown
invalid_token m = unauthorized_error Codes.token_invalid m

abbrev is_text : Option String → String → Bool
is_text none s = false
is_text (some t) s = t == s

-- JwtAccessStrategy.validate; the answer is `userId`.
unfoldable pub validate_access : JwtPayload → Outcome String
validate_access p =
    if not (truthy p.sub)
    then err (invalid_token "Missing subject")
    else if not (is_text p.type_name (account_type_name autoreg))
        && not (is_text p.type_name (account_type_name registered))
    then err (invalid_token "Wrong token type for this endpoint")
    else ok (or_else p.sub "")

unless_revoked : JwtRefreshPayload → Outcome Bool → Outcome JwtRefreshPayload
unless_revoked p (err e) = err e
unless_revoked p (ok true) = err (invalid_token "Token has been revoked")
unless_revoked p (ok false) = ok p

-- JwtRefreshStrategy.validate; `userId` is the payload's `sub`.
unfoldable pub validate_refresh :
    (r : Redis) → ℕ → JwtRefreshPayload → r.Store → Outcome JwtRefreshPayload
unfolding unless_revoked
validate_refresh r now p s =
    let check = unless_revoked p (is_blacklisted r now (or_else p.jti "") s) in
    if not (truthy p.sub) || not (truthy p.jti)
    then err (invalid_token "Invalid refresh token")
    else if not (truthy p.device_id)
    then err (invalid_token "Refresh token missing deviceId — re-login required")
    else check

-- JwtAccessGuard.handleRequest: passport's error, its user, and the name of `info`.
unfoldable pub handle_access : {A : Type 0} → Option Thrown → Option A → Option String → Outcome A
handle_access none (some u) info = ok u
handle_access e u info =
    if is_text info "TokenExpiredError"
    then err (unauthorized_error Codes.token_expired "Access token expired — refresh it")
    else err (invalid_token "Authentication required")

-- JwtAccessGuard.canActivate: a public handler is let through, any other is passport's to decide.
unfoldable pub can_activate : Bool → Bool → Bool
can_activate is_public passport = if is_public then true else passport

-- JwtRefreshGuard.handleRequest
unfoldable pub handle_refresh : {A : Type 0} → Option Thrown → Option A → Outcome A
handle_refresh none (some u) = ok u
handle_refresh e u = err (invalid_token "Invalid or expired refresh token")
