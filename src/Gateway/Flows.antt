-- ===== src/Gateway/Flows.antt =====
-- apps/gateway/src/modules/auth/auth.service.ts (`autoreg`, `login`, `oauthLogin`, `resetPassword`)
-- together with the handlers of apps/user/src/modules/users/users.controller.ts that they call. The
-- token pair's clock and `jti` and what the OAuth verifier answers are arguments.
pub mod Routes
use nestjs_microservice_mono.Prelude.{
  ℕ, String, Bool, true, false, ◌&&◌, Option, none, some, truthy, or_else, or_option, if◌then◌else◌,
}
use nestjs_microservice_mono.Errors.Defs.{Thrown, error, Outcome, ok, err, bad_request}
use nestjs_microservice_mono.Errors.Filter.{rpc_catch}
use nestjs_microservice_mono.Errors.Client.{
  Observed, stream_error, completed, Reply, returns, throws, send,
}
use nestjs_microservice_mono.Entities.{
  AccountType, autoreg, registered, account_type_name, Platform, OAuthProvider, Database,
}
use nestjs_microservice_mono.Driver.{Driver}
use nestjs_microservice_mono.Users.Common.{Identity}
use nestjs_microservice_mono.Users.Autoreg.{
  AutoregPayload, AutoregResult, Fresh, create_autoreg_user,
}
use nestjs_microservice_mono.Users.Login.{login}
use nestjs_microservice_mono.Users.OAuth.{OAuthPayload, find_or_create_oauth_user}
use nestjs_microservice_mono.Users.Password.{reset_password}
use nestjs_microservice_mono.Gateway.OAuth.{OAuthIdentity}
use nestjs_microservice_mono.Gateway.Session.{Jwt, TokenConfig, TokenPair, issue_token_pair}
use nestjs_microservice_mono.Gateway.Revocation.{observe}

-- What a call of the gateway fixes: signing, the clock, the new `jti` and the device's header; how
-- the transport delivers an exception of the service, and the service's trace id.
pub record Session : Type 0 where
  pub jwt : Jwt
  pub config : TokenConfig
  pub now : ℕ
  pub jti : String
  pub device_id : String
  pub deliver : Thrown → Thrown
  pub trace : Option String

pub record AuthResponse : Type 0 where
  pub pair : TokenPair
  pub user_id : String
  pub account_type : AccountType

unfoldable pub respond : Session → AccountType → AccountType → String → ℕ → AuthResponse
unfolding issue_token_pair
respond s claimed shown uid tv = record {
  pair = issue_token_pair s.jwt s.config s.now s.jti uid (account_type_name claimed) s.device_id tv;
  user_id = uid;
  account_type = shown;
}

-- The awaited call: its value, or its exception.
unfoldable pub then_respond : {A : Type 0} → (A → AuthResponse) → Reply A → Outcome AuthResponse
then_respond f (returns a) = ok (f a)
then_respond f (throws e) = err e

-- A registered account's response claims the type `user`, whatever type it shows.
unfoldable pub respond_registered : Session → Identity → AuthResponse
unfolding respond
respond_registered s i = respond s registered i.account_type i.id i.token_version

unfoldable pub login_route : Session → Driver → String → String → Database → Outcome AuthResponse
login_route s d email password db =
    then_respond (respond_registered s)
      (send "user" (observe s.deliver s.trace (login d email password db)))

-- The body of `/auth/autoreg`.
pub record AutoregDto : Type 0 where
  pub device_fingerprint : String
  pub platform : Option Platform

unfoldable pub autoreg_payload : Driver → AutoregDto → Option String → AutoregPayload
autoreg_payload d dto client_ip = record {
  fingerprint = dto.device_fingerprint;
  platform = dto.platform;
  ip_hash = if truthy client_ip then some (d.sha256 (or_else client_ip "")) else none;
}

-- The controller refuses a payload without a fingerprint.
unfoldable pub handle_autoreg :
    Driver → Fresh → AutoregPayload → Database → Outcome AutoregResult × Database
handle_autoreg d f p db =
    if truthy (some p.fingerprint)
    then create_autoreg_user d f p db
    else (err (bad_request "fingerprint is required"), db)

unfoldable pub autoreg_route :
    Session
    → Driver
    → Fresh
    → AutoregDto
    → Option String
    → Database
    → Outcome AuthResponse × Database
autoreg_route s d f dto client_ip db =
    let (r, after) = handle_autoreg d f (autoreg_payload d dto client_ip) db in
    (
      then_respond (λ (a : AutoregResult). respond s autoreg autoreg a.id a.token_version)
          (send "user" (observe s.deliver s.trace r)),
      after,
    )

pub record OAuthDto : Type 0 where
  pub id_token : Option String
  pub access_token : Option String
  pub email : Option String
  pub name : Option String

-- The payload of FIND_OR_CREATE_OAUTH_USER: `!!email && emailVerified === true`.
unfoldable pub oauth_payload : OAuthProvider → OAuthIdentity → OAuthDto → OAuthPayload
oauth_payload provider v dto = record {
  provider = provider;
  provider_user_id = v.provider_user_id;
  email = or_option v.email dto.email;
  email_verified = some (truthy v.email && or_else v.email_verified false);
  name = or_option v.name dto.name;
}

-- `oauthLogin`, after the verifier accepted the token.
unfoldable pub oauth_route :
    Session
    → Driver
    → String
    → OAuthProvider
    → OAuthIdentity
    → OAuthDto
    → Database
    → Outcome AuthResponse × Database
oauth_route s d new_id provider v dto db =
    let (r, after) = find_or_create_oauth_user d s.now new_id (oauth_payload provider v dto) db in
    (then_respond (respond_registered s) (send "user" (observe s.deliver s.trace r)), after)

-- A handler that resolves to `undefined`: the client's stream completes with no value, on which
-- `firstValueFrom` rejects with an EmptyError.
unfoldable pub observe_undefined :
    (Thrown → Thrown) → Option String → Outcome (Unit {0}) → Observed (Unit {0})
observe_undefined deliver trace (ok _) = completed (error "no elements in sequence")
observe_undefined deliver trace (err e) = stream_error (deliver (rpc_catch trace e).answer)

unfoldable pub reset_route :
    Session → Driver → String → String → String → Database → Reply (Unit {0}) × Database
reset_route s d salt token password db =
    let (r, after) = reset_password d s.now salt token password db in
    (send "user" (observe_undefined s.deliver s.trace r), after)
