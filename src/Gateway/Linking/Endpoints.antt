-- ===== src/Gateway/Linking/Endpoints.antt =====
-- The handlers of apps/gateway/src/modules/auth/auth.controller.ts in front of the service.
use nestjs_microservice_mono.Prelude.{String, Option, none, some}
use nestjs_microservice_mono.Errors.Defs.{Outcome, ok, err}
use nestjs_microservice_mono.Entities.{Database}
use nestjs_microservice_mono.Driver.{Driver}
use nestjs_microservice_mono.Users.Autoreg.{Fresh}
use nestjs_microservice_mono.Gateway.TokenStore.{Redis}
use nestjs_microservice_mono.Gateway.Tokens.{JwtRefreshPayload, validate_refresh, handle_refresh}
use nestjs_microservice_mono.Gateway.Session.{
  TokenPair, RefreshRequest, require_device_id, refresh_request,
}
use nestjs_microservice_mono.Gateway.Revocation.{refresh_with}
use nestjs_microservice_mono.Gateway.OAuth.Factory.{Verifiers}
use nestjs_microservice_mono.Gateway.Flows.{
  Session, AuthResponse, AutoregDto, autoreg_route, login_route, OAuthDto,
}
use nestjs_microservice_mono.Gateway.Linking.{oauth_login, UpgradeAccountDto, upgrade}

-- The session of a call with the device header that `requireDeviceId` read.
abbrev pub on_device : Session → String → Session
on_device s device = record s { device_id = device }

-- The argument `requireDeviceId(deviceId)` is evaluated before the service is called.
abbrev pub with_device :
    Outcome String
    → (String → Outcome AuthResponse × Database)
    → Database
    → Outcome AuthResponse × Database
with_device (err e) handler db = (err e, db)
with_device (ok device) handler db = handler device

module _ (s : Session) (d : Driver) where
  unfoldable pub autoreg_endpoint :
      Fresh
      → AutoregDto
      → Option String
      → Option String
      → Database
      → Outcome AuthResponse × Database
  unfolding require_device_id autoreg_route
  autoreg_endpoint f dto header client_ip db =
      with_device (require_device_id header)
        (λ device. autoreg_route (on_device s device) d f dto client_ip db) db

  unfoldable pub login_endpoint :
      String → String → Option String → Database → Outcome AuthResponse × Database
  unfolding require_device_id login_route
  login_endpoint email password header db =
      with_device (require_device_id header)
        (λ device. (login_route (on_device s device) d email password db, db)) db

  unfoldable pub upgrade_endpoint :
      Verifiers
      → String
      → String
      → UpgradeAccountDto
      → Option String
      → Option String
      → Database
      → Outcome AuthResponse × Database
  unfolding require_device_id upgrade
  upgrade_endpoint vs salt uid dto header user_agent db =
      with_device (require_device_id header)
        (λ device. upgrade (on_device s device) d vs salt uid dto user_agent db) db

  unfoldable pub oauth_endpoint :
      Verifiers
      → String
      → String
      → OAuthDto
      → Option String
      → Option String
      → Database
      → Outcome AuthResponse × Database
  unfolding require_device_id oauth_login
  oauth_endpoint vs new_id provider dto header user_agent db =
      with_device (require_device_id header)
        (λ device. oauth_login (on_device s device) d vs new_id provider dto user_agent db) db

module _ (r : Redis) (s : Session) where
  -- Passport's outcome of the strategy, given to `handleRequest`.
  abbrev after_strategy : Outcome JwtRefreshPayload → Outcome JwtRefreshPayload
  after_strategy (err e) = handle_refresh (some e) none
  after_strategy (ok p) = handle_refresh none (some p)

  abbrev after_signature : Outcome JwtRefreshPayload → r.Store → Outcome JwtRefreshPayload
  after_signature (err e) store = handle_refresh none none
  after_signature (ok p) store = after_strategy (validate_refresh r s.now p store)

  -- JwtRefreshGuard in front of the route: the signature, the strategy, the guard's answer.
  unfoldable pub guard_refresh : String → r.Store → Outcome JwtRefreshPayload
  unfolding validate_refresh handle_refresh
  guard_refresh token store =
      after_signature (s.jwt.verify_refresh s.now s.config.refresh_secret token) store

  abbrev pub requested :
      Driver → Outcome RefreshRequest → Database → r.Store → Outcome TokenPair × r.Store
  requested d (err e) db store = (err e, store)
  requested d (ok q) db store =
      refresh_with r d s.deliver s.trace s.jwt s.config s.now s.jti q db store

  abbrev pub guarded :
      Driver
      → Outcome JwtRefreshPayload
      → Option String
      → Database
      → r.Store
      → Outcome TokenPair × r.Store
  guarded d (err e) header db store = (err e, store)
  guarded d (ok p) header db store = requested d (refresh_request p header) db store

  unfoldable pub refresh_endpoint :
      Driver → String → Option String → Database → r.Store → Outcome TokenPair × r.Store
  unfolding guard_refresh refresh_request
  refresh_endpoint d token header db store = guarded d (guard_refresh token store) header db store
