-- ===== src/Gateway/Session.antt =====
-- apps/gateway/src/modules/auth/auth.service.ts (`refresh`, `logout`, `issueTokenPair`) and the
-- `refresh` route of auth.controller.ts, over the token version that the user service reports.
pub mod Rotation
use nestjs_microservice_mono.Prelude.{
  ℕ, String, Bool, true, false, not, ◌||◌, Option, none, some, [], ◌∷◌, template, truthy, or_else,
  nat_eq, ◌==◌, if◌then◌else◌,
}
use nestjs_microservice_mono.Errors.Codes
use nestjs_microservice_mono.Errors.Defs.{
  Thrown, microservice, http, rpc, timeout, mongo, error, payload, envelope, other, Outcome, ok,
  err, HttpException, unauthorized_error, http_error,
}
use nestjs_microservice_mono.Errors.Client.{Reply, returns, throws}
use nestjs_microservice_mono.Entities.{AccountType}
use nestjs_microservice_mono.Trim.{trim}
use nestjs_microservice_mono.Gateway.TokenStore.{Redis, blacklist_refresh_token}
use nestjs_microservice_mono.Gateway.Tokens.{JwtRefreshPayload, invalid_token}

-- The claims that the gateway signs. A payload that was decoded may lack some of them.
pub record AccessClaims : Type 0 where
  pub sub : String
  pub type_name : String

pub record RefreshClaims : Type 0 where
  pub sub : String
  pub type_name : String
  pub jti : String
  pub device_id : String
  pub tv : ℕ

-- jsonwebtoken, with the clock as an argument: a secret, a lifetime such as `15m`, and the claims.
pub record Jwt : Type 0 where
  pub sign_access : ℕ → String → String → AccessClaims → String
  pub sign_refresh : ℕ → String → String → RefreshClaims → String
  pub verify_refresh : ℕ → String → String → Outcome JwtRefreshPayload

-- What ConfigService holds for the tokens.
pub record TokenConfig : Type 0 where
  pub access_secret : String
  pub refresh_secret : String
  pub access_expires_in : Option String
  pub refresh_expires_in : Option String

pub record TokenPair : Type 0 where
  pub access_token : String
  pub refresh_token : String

-- `jti` is the call's `randomUUID()`.
unfoldable pub issue_token_pair :
    Jwt → TokenConfig → ℕ → String → String → String → String → ℕ → TokenPair
issue_token_pair j c now jti uid type_name device_id tv = record {
  access_token =
      j.sign_access now c.access_secret (or_else c.access_expires_in "15m")
        (record { sub = uid; type_name = type_name });
  refresh_token =
      j.sign_refresh now c.refresh_secret (or_else c.refresh_expires_in "30d")
        (record { sub = uid; type_name = type_name; jti = jti; device_id = device_id; tv = tv });
}

abbrev pub revoked : Thrown
revoked = invalid_token "Refresh token has been revoked"

-- `err instanceof HttpException && err.getStatus() === 404`
unfoldable pub version_error : Thrown → Thrown
version_error (http h) = if nat_eq h.status 404 then revoked else http h
version_error e = e

-- What the refresh route hands to the service.
pub record RefreshRequest : Type 0 where
  pub user_id : String
  pub jti : String
  pub exp : ℕ
  pub device_id : String
  pub type_name : String
  pub tv : Option ℕ

module _ (r : Redis) where
  issue_after : TokenPair → r.Store → Outcome r.Store → Outcome TokenPair × r.Store
  issue_after pair s (ok s') = (ok pair, s')
  issue_after pair s (err e) = (err e, s)

  rotate :
      Jwt
      → TokenConfig
      → ℕ
      → String
      → RefreshRequest
      → Reply ℕ
      → r.Store
      → Outcome TokenPair × r.Store
  rotate j c now new_jti q (throws e) s = (err (version_error e), s)
  rotate j c now new_jti q (returns tv) s =
      if nat_eq (or_else q.tv 0) tv
      then issue_after (issue_token_pair j c now new_jti q.user_id q.type_name q.device_id tv) s
          (blacklist_refresh_token r now q.jti q.exp s)
      else (err revoked, s)

  -- `refresh`: the reply is that of GET_USER_TOKEN_VERSION.
  unfoldable pub refresh :
      Jwt
      → TokenConfig
      → ℕ
      → String
      → RefreshRequest
      → Reply ℕ
      → r.Store
      → Outcome TokenPair × r.Store
  unfolding rotate issue_after version_error
  refresh j c now new_jti q reply s = rotate j c now new_jti q reply s

  logged_out : r.Store → Outcome r.Store → r.Store
  logged_out s (ok s') = s'
  logged_out s (err e) = s

  forget : ℕ → Outcome JwtRefreshPayload → r.Store → r.Store
  forget now (err e) s = s
  forget now (ok p) s =
      let after =
        logged_out s (blacklist_refresh_token r now (or_else p.jti "") (or_else p.exp 0) s) in
      if truthy p.jti then (if nat_eq (or_else p.exp 0) 0 then s else after) else s

  -- `logout` answers `{ success: true }` in every case; this is what it leaves in the store.
  unfoldable pub logout : Jwt → TokenConfig → ℕ → String → r.Store → r.Store
  unfolding forget logged_out
  logout j c now token s = forget now (j.verify_refresh now c.refresh_secret token) s

-- `requireDeviceId`
unfoldable pub require_device_id : Option String → Outcome String
require_device_id header =
    if trim (or_else header "") == ""
    then err (http_error 400 "device_id_required" "x-device-id header is required")
    else ok (trim (or_else header ""))

abbrev pub device_mismatch : Thrown
device_mismatch =
    unauthorized_error "device_mismatch" "Refresh token does not belong to this device"

same_device : JwtRefreshPayload → Outcome String → Outcome RefreshRequest
same_device p (err e) = err e
same_device p (ok header) =
    if or_else p.device_id "" == header
    then ok (record {
      user_id = or_else p.sub "";
      jti = or_else p.jti "";
      exp = or_else p.exp 0;
      device_id = or_else p.device_id "";
      type_name = or_else p.type_name "";
      tv = p.tv;
    })
    else err device_mismatch

-- The `refresh` route: what it passes to the service for a validated payload and the header.
unfoldable pub refresh_request : JwtRefreshPayload → Option String → Outcome RefreshRequest
unfolding same_device
refresh_request p header =
    if not (truthy p.jti) || nat_eq (or_else p.exp 0) 0
    then err (invalid_token "Refresh token missing jti/exp")
    else same_device p (require_device_id header)
