-- ===== src/Tests/Logins.antt =====
-- The theorems on the authentication routes at concrete inputs.
use nestjs_microservice_mono.Prelude.{◌≡◌, refl, none}
use nestjs_microservice_mono.Errors.Codes
use nestjs_microservice_mono.Errors.Defs.{http_error}
use nestjs_microservice_mono.Errors.Client.{throws}
use nestjs_microservice_mono.Users.Common.{Identity, identity}
use nestjs_microservice_mono.Users.Password.{reset_password}
use nestjs_microservice_mono.Gateway.Flows.{Session, AuthResponse, respond_registered, reset_route}
use nestjs_microservice_mono.Gateway.Flows.Routes.{reset_route-IsUnavailable}
use nestjs_microservice_mono.Tests.{driver, ann, database}
use nestjs_microservice_mono.Tests.Sessions.{jwt, config, plain}

abbrev pub session : Session
session = record {
  jwt = jwt;
  config = config;
  now = 800;
  jti = "t5";
  device_id = "install-1";
  deliver = plain;
  trace = none;
}

abbrev pub anns_response : AuthResponse
anns_response = respond_registered session (identity ann)

reset_route-IsUnavailable_example : reset_route session driver "salt" "reset" "fresh" database ≡ (
  throws (http_error 503 Codes.internal_error "Upstream service 'user' is unavailable"),
  (reset_password driver 800 "salt" "reset" "fresh" database).1,
)
unfolding reset_password ann nestjs_microservice_mono.Users.Password.has_expired
    nestjs_microservice_mono.Users.Common.after_flush
reset_route-IsUnavailable_example =
    reset_route-IsUnavailable session driver "salt" "reset" "fresh" database refl
