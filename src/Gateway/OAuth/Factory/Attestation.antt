-- ===== src/Gateway/OAuth/Factory/Attestation.antt =====
-- Which identities `AuthService.verifyOAuthToken` lets through.
use mathlib.Core.Path.{subst}
use nestjs_microservice_mono.Prelude.{
  String, ◌≡◌, sym, ap, ◌∙◌, some, any, truthy, eq_iff, ◌==◌, Bool-cases, inl, inr,
}
use nestjs_microservice_mono.Errors.Defs.{Outcome, ok}
use nestjs_microservice_mono.Entities.{OAuthProvider, vk, yandex, provider_name}
use nestjs_microservice_mono.Users.Common.{ok-injective}
use nestjs_microservice_mono.Gateway.OAuth.{OAuthIdentity, OAuthVerifyHints}
use nestjs_microservice_mono.Gateway.OAuth.Contract.{
  Verdict, refused, unavailable, identified, HasVerifiedEmail,
}
use nestjs_microservice_mono.Gateway.OAuth.Vk.Attested.{VkAttests}
use nestjs_microservice_mono.Gateway.OAuth.Vk.Verdicts.{vk_verify-Verdict}
use nestjs_microservice_mono.Gateway.OAuth.Yandex.Verdicts.{Attests, yandex_verify-Verdict}
use nestjs_microservice_mono.Gateway.OAuth.Factory.{
  Verifiers, prototype_members, verifier_for, attest, call_verify, verify_oauth_token,
}

-- The provider named in the request attests the identity.
pub data Attested (v : Verifiers) (token : String) (p : OAuthProvider) (i : OAuthIdentity)
    : Type 0 where
  by_vk : p ≡ vk → VkAttests v.vk_verifier token i → Attested v token p i
  by_yandex :
      p ≡ yandex
      → Attests (v.yandex_verifier.user_info token 0) (v.yandex_verifier.user_info token 1) i
      → Attested v token p i

module _ {Down : Type 0} {Says : OAuthIdentity → Type 0} where
  identified-ok :
      (p q : OAuthProvider) (i : OAuthIdentity) (r : Outcome OAuthIdentity)
      → Verdict Down Says r
      → attest p r ≡ ok (q, i)
      → (p ≡ q) × Says i × HasVerifiedEmail i
  identified-ok p q i r (refused m e) h = cc (rw e at h)
  identified-ok p q i r (unavailable m gone e) h = cc (rw e at h)
  identified-ok p q i r (identified j says safe e) h =
      let same : (p, j) ≡ (q, i) = ok-injective (p, j) (q, i) (rw e at h) in
      let whose : j ≡ i = ap (λ (x : OAuthProvider × OAuthIdentity). x.1) same in
      (
        ap (λ (x : OAuthProvider × OAuthIdentity). x.0) same,
        subst Says whose says,
        subst HasVerifiedEmail whose safe,
      )

wired-Attested :
    (v : Verifiers) (provider token : String) (hints : OAuthVerifyHints) (p : OAuthProvider)
    (i : OAuthIdentity)
    → call_verify provider (verifier_for v provider) token hints ≡ ok (p, i)
    → (provider ≡ provider_name p) × Attested v token p i × HasVerifiedEmail i
unfolding verifier_for
wired-Attested v provider token hints p i h = elim (Bool-cases (provider == "vk")) [
  | inl is_vk ↦
      let (same, says, safe) =
        identified-ok vk p i _ (vk_verify-Verdict v.vk_verifier token hints) (rw is_vk at h) in
      ((eq_iff provider "vk").0 is_vk ∙ ap provider_name same, by_vk (sym same) says, safe)
  | inr not_vk ↦ elim (Bool-cases (provider == "yandex")) [
    | inl is_yandex ↦
        let (same, says, safe) =
          identified-ok yandex p i _ (yandex_verify-Verdict v.yandex_verifier token hints)
            (rw (not_vk, is_yandex) at h) in
        (
          (eq_iff provider "yandex").0 is_yandex ∙ ap provider_name same,
          by_yandex (sym same) says,
          safe,
        )
    | inr unknown ↦ elim (Bool-cases (any (λ m. provider == m) prototype_members)) [
      | inl member ↦ cc (rw (not_vk, unknown, member) at h)
      | inr nothing ↦ cc (rw (not_vk, unknown, nothing) at h)
    ]
  ]
]

-- A token passes only where the provider that the request names is VK or Yandex and attests the
-- identity, whose e-mail is marked as verified only where there is one.
pub verify_oauth_token-Attested :
    (v : Verifiers) (provider token : String) (hints : OAuthVerifyHints) (p : OAuthProvider)
    (i : OAuthIdentity)
    → verify_oauth_token v provider token hints ≡ ok (p, i)
    → (provider ≡ provider_name p) × Attested v token p i × HasVerifiedEmail i
unfolding verify_oauth_token
verify_oauth_token-Attested v provider token hints p i h = elim (Bool-cases (truthy (some token))) [
  | inl there ↦ wired-Attested v provider token hints p i (rw there at h)
  | inr empty ↦ cc (rw empty at h)
]
