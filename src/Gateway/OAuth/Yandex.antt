-- ===== src/Gateway/OAuth/Yandex.antt =====
-- apps/gateway/src/modules/auth/oauth/yandex-oauth-verifier.service.ts
pub mod Verdicts
use nestjs_microservice_mono.Prelude.{
  ℕ, String, Bool, true, false, not, ◌&&◌, ◌||◌, Option, none, some, List, [], ◌∷◌, leb, nat_eq,
  template, truthy, or_else, decimal, if◌then◌else◌,
}
use nestjs_microservice_mono.Errors.Defs.{Outcome, ok, err}
use nestjs_microservice_mono.Gateway.OAuth.{
  OAuthIdentity, OAuthVerifyHints, Fetched, token_rejected, upstream_unavailable, fetch_with_retry,
  filled, join, present, or_truthy,
}

-- The body of the user-info endpoint, as the source's cast types it.
pub record YandexUser : Type 0 where
  pub id : Option String
  pub default_email : Option String
  pub real_name : Option String
  pub first_name : Option String
  pub last_name : Option String
  pub login : Option String

-- Yandex's answers by token and attempt.
pub record YandexVerifier : Type 0 where
  pub user_info : String → ℕ → Fetched YandexUser

unfoldable pub identity_of_yandex : String → YandexUser → OAuthIdentity
identity_of_yandex i b =
    let composed = join (filled (b.first_name ∷ b.last_name ∷ [])) in
    record {
      provider_user_id = i;
      email = b.default_email;
      email_verified = some (truthy b.default_email);
      name = present (or_else (or_truthy b.real_name (or_truthy (some composed) b.login)) "");
    }

abbrev read_yandex : Option YandexUser → Outcome OAuthIdentity
read_yandex none = token_rejected "Yandex returned an unexpected payload"
read_yandex (some b) =
    if truthy b.id
    then ok (identity_of_yandex (or_else b.id "") b)
    else token_rejected "Yandex returned an unexpected payload"

unfoldable pub classify : Outcome (ℕ × Option YandexUser) → Outcome OAuthIdentity
unfolding identity_of_yandex decimal
classify (err e) = err e
classify (ok (status, body)) =
    if nat_eq status 401 || nat_eq status 403
    then token_rejected "Yandex rejected the token"
    else if leb 500 status
    then upstream_unavailable (template ("Yandex returned " ∷ decimal status ∷ []))
    else if not (leb 200 status && leb status 299)
    then token_rejected (template ("Yandex returned " ∷ decimal status ∷ []))
    else read_yandex body

unfoldable pub yandex_verify : YandexVerifier → String → OAuthVerifyHints → Outcome OAuthIdentity
unfolding fetch_with_retry classify
yandex_verify v token _ =
    if not (truthy (some token))
    then token_rejected "Yandex token required"
    else classify (fetch_with_retry "Yandex ID is temporarily unavailable" (v.user_info token))
