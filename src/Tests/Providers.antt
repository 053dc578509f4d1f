-- ===== src/Tests/Providers.antt =====
-- The theorems on OAuth logins, upgrades and the refresh endpoint at concrete inputs.
use nestjs_microservice_mono.Prelude.{
  ℕ, ◌/◌, ◌+◌, ◌<◌, ◌≡◌, ◌≢◌, refl, String, none, some, [], ◌∷◌, true, inl, inr, arith, or_else,
  ltb, ◌==◌, if◌then◌else◌, ◌⊎◌, ap, sym, ◌∙◌,
}
use nestjs_microservice_mono.Errors.Defs.{Thrown, ok, err, error}
use nestjs_microservice_mono.Entities.{User, registered, yandex, ios, OAuthProvider, provider_name}
use nestjs_microservice_mono.Users.Upgrade.{by_provider}
use nestjs_microservice_mono.Gateway.TokenStore.{Redis, store_unavailable}
use nestjs_microservice_mono.Gateway.Tokens.{JwtRefreshPayload, invalid_token}
use nestjs_microservice_mono.Gateway.Session.{Jwt, issue_token_pair}
use nestjs_microservice_mono.Gateway.OAuth.{
  OAuthIdentity, OAuthVerifyHints, Fetched, network, response, fetch_with_retry,
}
use nestjs_microservice_mono.Gateway.OAuth.Retry.{gave_up, fetch_with_retry-transient}
use nestjs_microservice_mono.Gateway.OAuth.Contract.{Verdict, HasVerifiedEmail}
use nestjs_microservice_mono.Gateway.OAuth.Vk.{
  VkVerifier, PublicInfo, number, vk_verify, verify_id_token, try_public_info, accepted, rejected,
  upstream,
}
use nestjs_microservice_mono.Gateway.OAuth.Vk.Attested.{Whitelisted, VkDown, VkAttests}
use nestjs_microservice_mono.Gateway.OAuth.Vk.Verdicts.{vk_verify-Verdict}
use nestjs_microservice_mono.Gateway.OAuth.Vk.Hints.{verify_id_token-same}
use nestjs_microservice_mono.Gateway.OAuth.Yandex.{YandexVerifier, YandexUser, yandex_verify}
use nestjs_microservice_mono.Gateway.OAuth.Yandex.Verdicts.{Attests, yandex_verify-Verdict}
use nestjs_microservice_mono.Gateway.OAuth.Factory.{Verifiers}
use nestjs_microservice_mono.Gateway.OAuth.Factory.Attestation.{Attested}
use nestjs_microservice_mono.Gateway.Flows.{
  Session, AuthResponse, respond, respond_registered, OAuthDto,
}
use nestjs_microservice_mono.Gateway.Flows.Routes.{Reached}
use nestjs_microservice_mono.Gateway.Linking.{login_token, oauth_login, UpgradeAccountDto, upgrade}
use nestjs_microservice_mono.Gateway.Linking.Attested.{
  oauth_login-Reached, Upgraded, upgrade-Upgraded,
}
use nestjs_microservice_mono.Gateway.Linking.Endpoints.{refresh_endpoint}
use nestjs_microservice_mono.Gateway.Linking.Cycle.{
  Verifies, claims_of, at_time, refresh_endpoint-issued, refresh_endpoint-outage,
}
use nestjs_microservice_mono.Tests.{driver, first-IsQuery, ann, database}
use nestjs_microservice_mono.Tests.Sessions.{redis, config}
use nestjs_microservice_mono.Tests.Logins.{session, anns_response}

-- VK knows the token "h.p.s", for the iOS app only; every header names an algorithm.
abbrev vk_user : PublicInfo
vk_user = record {
  user = some (record {
    user_id = some (number 77);
    first_name = some "Ann";
    last_name = none;
    email = some "ann@vk.com";
    verified = some true;
  });
  error = none;
  error_description = none;
}

abbrev vk_refusal : PublicInfo
vk_refusal = record { user = none; error = some "invalid_token"; error_description = none }

abbrev vk_answers : String → String → Fetched PublicInfo
vk_answers client token =
    if client == "ios-app" then response 200 (some vk_user) else response 401 (some vk_refusal)

abbrev vk_verifier : VkVerifier
vk_verifier = record {
  android_id = some "android-app";
  ios_id = some "ios-app";
  header_alg = λ h. some "RS256";
  public_info = vk_answers;
  user_info = λ token n. network "refused";
}

-- Yandex answers 502 and then 200.
abbrev yandex_user : YandexUser
yandex_user = record {
  id = some "88";
  default_email = some "kim@ya.ru";
  real_name = none;
  first_name = some "Kim";
  last_name = none;
  login = some "kim";
}

abbrev yandex_answers : ℕ → Fetched YandexUser
yandex_answers n = if ltb 0 n then response 200 (some yandex_user) else response 502 none

abbrev yandex_verifier : YandexVerifier
yandex_verifier = record { user_info = λ token n. yandex_answers n }

abbrev verifiers : Verifiers
verifiers = record { vk_verifier = vk_verifier; yandex_verifier = yandex_verifier }

abbrev no_hints : OAuthVerifyHints
no_hints = record { platform = none }

abbrev ios_hints : OAuthVerifyHints
ios_hints = record { platform = some ios }

vk_verify-Verdict_example :
    Verdict
      (VkDown vk_verifier "h.p.s")
      (VkAttests vk_verifier "h.p.s")
      (vk_verify vk_verifier "h.p.s" no_hints)
vk_verify-Verdict_example = vk_verify-Verdict vk_verifier "h.p.s" no_hints

yandex_verify-Verdict_example :
    Verdict
      (gave_up (yandex_answers 0) (yandex_answers 1) ≡ true)
      (Attests (yandex_answers 0) (yandex_answers 1))
      (yandex_verify yandex_verifier "token" no_hints)
yandex_verify-Verdict_example = yandex_verify-Verdict yandex_verifier "token" no_hints

fetch_with_retry-transient_example :
    fetch_with_retry "down" yandex_answers
    ≡ fetch_with_retry "down" (λ n. response 200 (some yandex_user))
fetch_with_retry-transient_example =
    fetch_with_retry-transient "down" yandex_answers (λ n. response 200 (some yandex_user)) 502 200
      none (some yandex_user) refl refl refl refl refl

abbrev vk_identity : OAuthIdentity
vk_identity = record {
  provider_user_id = "77";
  email = some "ann@vk.com";
  email_verified = some true;
  name = some "Ann";
}

vk_says :
    (c : String)
    → Whitelisted vk_verifier c
    → ((m : String) × (try_public_info vk_verifier c "h.p.s" ≡ rejected m))
      ⊎ (try_public_info vk_verifier c "h.p.s" ≡ accepted vk_identity)
unfolding try_public_info
vk_says c (inl e) =
    inl ("client_id=android-app: invalid_token", rw (← ap (λ o. or_else o "") e) refl)
vk_says c (inr e) = inr (rw (← ap (λ o. or_else o "") e) refl)

vk_not_down :
    (c m : String) → Whitelisted vk_verifier c → try_public_info vk_verifier c "h.p.s" ≢ upstream m
vk_not_down c m ours e = elim (vk_says c ours) [ inl (m', refused) ↦ cc | inr known ↦ cc ]

accepted-identity :
    (c : String) (i : OAuthIdentity)
    → Whitelisted vk_verifier c
    → try_public_info vk_verifier c "h.p.s" ≡ accepted i
    → i ≡ vk_identity
accepted-identity c i ours e = elim (vk_says c ours) [ inl (m', refused) ↦ cc | inr known ↦ cc ]

vk_agrees :
    (c d : String) (i j : OAuthIdentity)
    → Whitelisted vk_verifier c
    → Whitelisted vk_verifier d
    → try_public_info vk_verifier c "h.p.s" ≡ accepted i
    → try_public_info vk_verifier d "h.p.s" ≡ accepted j
    → i ≡ j
vk_agrees c d i j ours ours' e e' =
    accepted-identity c i ours e ∙ sym (accepted-identity d j ours' e')

verify_id_token-same_example :
    verify_id_token vk_verifier "h.p.s" no_hints ≡ verify_id_token vk_verifier "h.p.s" ios_hints
verify_id_token-same_example =
    verify_id_token-same vk_verifier "h.p.s" no_hints ios_hints vk_not_down vk_agrees

abbrev body : OAuthDto
body = record { id_token = some "h.p.s"; access_token = none; email = none; name = none }

oauth_login-Reached_example :
    (p : OAuthProvider) × (i : OAuthIdentity) × ("vk" ≡ provider_name p)
    × Attested verifiers (login_token body) p i
    × HasVerifiedEmail i
    × Reached session "u5" p i body database anns_response
unfolding oauth_login nestjs_microservice_mono.Gateway.OAuth.hints_from_ctx
    nestjs_microservice_mono.Gateway.Flows.then_respond nestjs_microservice_mono.Errors.Client.send
    nestjs_microservice_mono.Gateway.Revocation.observe
    nestjs_microservice_mono.Users.OAuth.find_or_create_oauth_user ann
    nestjs_microservice_mono.Gateway.Flows.oauth_payload
oauth_login-Reached_example =
    oauth_login-Reached session driver verifiers "u5" "vk" body none database anns_response
      (first-IsQuery User) refl

abbrev upgrade_body : UpgradeAccountDto
upgrade_body = record {
  method = by_provider yandex;
  email = none;
  password = none;
  name = none;
  oauth_token = some "token";
}

abbrev upgraded_response : AuthResponse
upgraded_response = respond session registered registered "u2" 1

upgrade-Upgraded_example :
    Upgraded session driver verifiers "u2" upgrade_body yandex upgraded_response database
      (upgrade session driver verifiers "salt" "u2" upgrade_body none database).1
unfolding upgrade nestjs_microservice_mono.Errors.Client.send
    nestjs_microservice_mono.Gateway.Revocation.observe
    nestjs_microservice_mono.Users.Common.find_by_id ann
    nestjs_microservice_mono.Users.Upgrade.attach nestjs_microservice_mono.Users.Upgrade.promote
upgrade-Upgraded_example =
    upgrade-Upgraded session driver verifiers "salt" "u2" upgrade_body none yandex database
      upgraded_response (first-IsQuery User) refl refl

-- A token of the session "t5", which verifies for 60 seconds.
abbrev genuine : JwtRefreshPayload
genuine = record {
  sub = some "u1";
  type_name = some "user";
  jti = some "t5";
  device_id = some "install-1";
  tv = some 3;
  exp = some 60;
}

abbrev expired : Thrown
expired = error "jwt expired"

abbrev one_token : Jwt
one_token = record {
  sign_access = λ now secret life claims. "access";
  sign_refresh = λ now secret life claims. "refresh";
  verify_refresh = λ now secret token. if ltb (now / 1000) 60 then ok genuine else err expired;
}

abbrev phone_session : Session
phone_session = record session { jwt = one_token }

one_token-Verifies : Verifies one_token 800 "r" "30d" (claims_of phone_session registered "u1" 3) 60
one_token-Verifies = record { signed = signed }
  where
    signed :
        (later : ℕ)
        → later / 1000 < 800 / 1000 + 60
        → (if ltb (later / 1000) 60 then ok genuine else err expired) ≡ ok genuine
    signed later early = ground arith

refresh_endpoint-issued_example :
    refresh_endpoint redis
      (at_time phone_session 5000 "t6")
      driver
      (respond phone_session registered registered "u1" 3).pair.refresh_token
      (some "install-1")
      database
      []
    ≡ (
      ok (issue_token_pair one_token config 5000 "t6" "u1" "user" "install-1" 3),
      record { key = "blacklist:rt:t5"; content = "1"; until = 60 } ∷ [],
    )
unfolding nestjs_microservice_mono.Gateway.Session.require_device_id
    nestjs_microservice_mono.Trim.trim nestjs_microservice_mono.Gateway.TokenStore.is_blacklisted
    nestjs_microservice_mono.Gateway.Revocation.get_user_token_version
    nestjs_microservice_mono.Users.Common.find_by_id ann
    nestjs_microservice_mono.Gateway.TokenStore.blacklist_refresh_token
refresh_endpoint-issued_example =
    refresh_endpoint-issued redis driver phone_session 60 registered registered "u1" 3 5000 "t6"
      (some "install-1") database []
      (record { key = "blacklist:rt:t5"; content = "1"; until = 60 } ∷ []) one_token-Verifies
      (omega arith) refl refl refl refl refl refl refl

-- A store whose reads fail.
abbrev lost : Thrown
lost = error "connection lost"

abbrev broken_redis : Redis
broken_redis = record { Store = redis.Store; set_ex = redis.set_ex; get = λ now k s. err lost }

refresh_endpoint-outage_example :
    refresh_endpoint broken_redis phone_session driver "refresh" (some "install-1") database []
    ≡ (err (invalid_token "Invalid or expired refresh token"), [])
unfolding nestjs_microservice_mono.Gateway.TokenStore.is_blacklisted
refresh_endpoint-outage_example =
    refresh_endpoint-outage broken_redis driver phone_session "refresh" (some "install-1") database
      [] genuine store_unavailable refl refl refl refl refl
