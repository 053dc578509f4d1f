-- ===== src/Gateway/Linking.antt =====
-- apps/gateway/src/modules/auth/auth.service.ts: `oauthLogin` and `upgrade`, which ask a provider who
-- the user is, and `forgotPassword`; and the handlers of auth.controller.ts in front of the service.
pub mod Attested
pub mod Endpoints
pub mod Cycle
use nestjs_microservice_mono.Prelude.{
  ℕ, String, Bool, true, false, Option, none, some, truthy, or_else, or_option, if◌then◌else◌,
}
use nestjs_microservice_mono.Errors.Defs.{Thrown, Outcome, ok, err}
use nestjs_microservice_mono.Errors.Client.{Reply, returns, throws, send}
use nestjs_microservice_mono.Entities.{
  User, registered, OAuthProvider, provider_name, Database, version,
}
use nestjs_microservice_mono.Driver.{Driver}
use nestjs_microservice_mono.Users.Upgrade.{
  UpgradeMethod, by_email, by_provider, UpgradePayload, upgrade_account,
}
use nestjs_microservice_mono.Users.Password.{Forgot, Mail, forgot_password}
use nestjs_microservice_mono.Gateway.OAuth.{OAuthIdentity, OAuthVerifyHints, hints_from_ctx}
use nestjs_microservice_mono.Gateway.OAuth.Factory.{Verifiers, verify_oauth_token}
use nestjs_microservice_mono.Gateway.Revocation.{observe}
use nestjs_microservice_mono.Gateway.Flows.{
  Session, AuthResponse, respond, then_respond, OAuthDto, oauth_route,
}

-- `dto.idToken ?? dto.accessToken ?? ''`
abbrev pub login_token : OAuthDto → String
login_token dto = or_else (or_option dto.id_token dto.access_token) ""

abbrev pub login_attested :
    Session
    → Driver
    → String
    → Outcome (OAuthProvider × OAuthIdentity)
    → OAuthDto
    → Database
    → Outcome AuthResponse × Database
login_attested s d new_id (err e) dto db = (err e, db)
login_attested s d new_id (ok (p, i)) dto db = oauth_route s d new_id p i dto db

unfoldable pub oauth_login :
    Session
    → Driver
    → Verifiers
    → String
    → String
    → OAuthDto
    → Option String
    → Database
    → Outcome AuthResponse × Database
unfolding oauth_route verify_oauth_token
oauth_login s d vs new_id provider dto user_agent db =
    login_attested s d new_id
      (verify_oauth_token vs provider (login_token dto) (hints_from_ctx user_agent)) dto db

-- The body of `/auth/upgrade`.
pub record UpgradeAccountDto : Type 0 where
  pub method : UpgradeMethod
  pub email : Option String
  pub password : Option String
  pub name : Option String
  pub oauth_token : Option String

abbrev pub method_name : UpgradeMethod → String
method_name by_email = "email"
method_name (by_provider p) = provider_name p

abbrev verified_id : Outcome (OAuthProvider × OAuthIdentity) → Outcome (Option String)
verified_id (err e) = err e
verified_id (ok (p, i)) = ok (some i.provider_user_id)

-- `dto.oauthToken ? await this.resolveOAuthProviderUserId(...) : undefined`
unfoldable pub resolve_oauth_provider_user_id :
    Verifiers → UpgradeAccountDto → Option String → Outcome (Option String)
unfolding verify_oauth_token
resolve_oauth_provider_user_id vs dto user_agent =
    if truthy dto.oauth_token
    then verified_id (
        verify_oauth_token vs (method_name dto.method) (or_else dto.oauth_token "")
          (hints_from_ctx user_agent))
    else ok none

unfoldable pub upgrade_payload : UpgradeAccountDto → Option String → UpgradePayload
upgrade_payload dto provider_user_id = record {
  method = dto.method;
  email = dto.email;
  password = dto.password;
  name = dto.name;
  provider_user_id = provider_user_id;
}

abbrev pub upgrade_resolved :
    Session
    → Driver
    → String
    → String
    → UpgradeAccountDto
    → Outcome (Option String)
    → Database
    → Outcome AuthResponse × Database
upgrade_resolved s d salt uid dto (err e) db = (err e, db)
upgrade_resolved s d salt uid dto (ok provider_user_id) db =
    let (r, after) = upgrade_account d s.now salt uid (upgrade_payload dto provider_user_id) db in
    (
      then_respond (λ (u : User). respond s registered registered uid (version u))
          (send "user" (observe s.deliver s.trace r)),
      after,
    )

unfoldable pub upgrade :
    Session
    → Driver
    → Verifiers
    → String
    → String
    → UpgradeAccountDto
    → Option String
    → Database
    → Outcome AuthResponse × Database
unfolding resolve_oauth_provider_user_id upgrade_account upgrade_payload then_respond
upgrade s d vs salt uid dto user_agent db =
    upgrade_resolved s d salt uid dto (resolve_oauth_provider_user_id vs dto user_agent) db

-- The awaited call, whose reply `{ success: true }` is given on.
abbrev then_acknowledge : Reply (Unit {0}) → Outcome (Unit {0})
then_acknowledge (returns a) = ok a
then_acknowledge (throws e) = err e

-- `forgotPassword`: the client's answer, and what the user service left and mailed.
unfoldable pub forgot_route :
    Session → Driver → String → String → Database → Outcome (Unit {0}) × Database × Option Mail
unfolding forgot_password
forgot_route s d token email db =
    let f = forgot_password d s.now token email db in
    (then_acknowledge (send "user" (observe s.deliver s.trace f.result)), f.db, f.mail)
