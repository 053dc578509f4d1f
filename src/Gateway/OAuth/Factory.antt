-- ===== src/Gateway/OAuth/Factory.antt =====
-- apps/gateway/src/modules/auth/oauth/oauth-verifier.factory.ts, and `AuthService.verifyOAuthToken`.
pub mod Attestation
use nestjs_microservice_mono.Prelude.{
  String, Bool, not, Option, none, some, List, [], ◌∷◌, ◌==◌, any, template, truthy, if◌then◌else◌,
}
use nestjs_microservice_mono.Errors.Defs.{Outcome, ok, err, error}
use nestjs_microservice_mono.Entities.{OAuthProvider, vk, yandex}
use nestjs_microservice_mono.Gateway.OAuth.{
  OAuthIdentity, OAuthVerifyHints, OAuthVerifier, token_rejected,
}
use nestjs_microservice_mono.Gateway.OAuth.Vk.{VkVerifier, vk_verify}
use nestjs_microservice_mono.Gateway.OAuth.Yandex.{YandexVerifier, yandex_verify}

pub record Verifiers : Type 0 where
  pub vk_verifier : VkVerifier
  pub yandex_verifier : YandexVerifier

-- What a property read of the literal `{ vk, yandex }` finds: a verifier, or a member that every
-- object has from `Object.prototype`, or nothing.
pub data Entry : Type 0 where
  wired : OAuthProvider → OAuthVerifier → Entry
  inherited : Entry
  missing : Entry

abbrev pub prototype_members : List String
prototype_members =
    "constructor" ∷ "hasOwnProperty" ∷ "isPrototypeOf" ∷ "propertyIsEnumerable" ∷ "toLocaleString"
    ∷ "toString" ∷ "valueOf" ∷ "__proto__" ∷ "__defineGetter__" ∷ "__defineSetter__"
    ∷ "__lookupGetter__" ∷ "__lookupSetter__" ∷ []

unfoldable pub verifier_for : Verifiers → String → Entry
unfolding vk_verify yandex_verify
verifier_for v provider =
    if provider == "vk"
    then wired vk (vk_verify v.vk_verifier)
    else if provider == "yandex"
    then wired yandex (yandex_verify v.yandex_verifier)
    else if any (λ m. provider == m) prototype_members
    then inherited
    else missing

abbrev attest : OAuthProvider → Outcome OAuthIdentity → Outcome (OAuthProvider × OAuthIdentity)
attest p (ok i) = ok (p, i)
attest p (err e) = err e

-- `for(provider).verify(token, hints)`. An inherited member is truthy and has no `verify`.
abbrev call_verify :
    String → Entry → String → OAuthVerifyHints → Outcome (OAuthProvider × OAuthIdentity)
call_verify provider (wired p verify) token hints = attest p (verify token hints)
call_verify provider inherited token hints =
    err (error "this.oauthFactory.for(...).verify is not a function")
call_verify provider missing token hints =
    token_rejected (template ("OAuth provider '" ∷ provider ∷ "' not supported on the server" ∷ []))

unfoldable pub verify_oauth_token :
    Verifiers → String → String → OAuthVerifyHints → Outcome (OAuthProvider × OAuthIdentity)
unfolding verifier_for
verify_oauth_token v provider token hints =
    if not (truthy (some token))
    then token_rejected "OAuth token required"
    else call_verify provider (verifier_for v provider) token hints
