-- ===== src/Gateway/OAuth/Yandex/Verdicts.antt =====
-- `YandexOAuthVerifierService.verify` keeps the contract of the verifiers.
use mathlib.Core.Bool.{false≢true}
use nestjs_microservice_mono.Prelude.{
  ℕ, String, ◌≡◌, refl, sym, ap, ◌∙◌, Bool, true, false, not, ◌&&◌, ◌||◌, Option, none, some, leb,
  nat_eq, truthy, or_else, truthy-some, ◌⊎◌, inl, inr, Bool-cases, if◌then◌else◌,
}
use nestjs_microservice_mono.Errors.Defs.{Outcome}
use nestjs_microservice_mono.Gateway.OAuth.{
  OAuthIdentity, OAuthVerifyHints, Fetched, response, token_rejected, upstream_unavailable,
  fetch_with_retry,
}
use nestjs_microservice_mono.Gateway.OAuth.Retry.{
  gave_up, Ended, down, failing, answered, attempted-Ended,
}
use nestjs_microservice_mono.Gateway.OAuth.Contract.{
  Verdict, refused, unavailable, identified, HasVerifiedEmail,
}
use nestjs_microservice_mono.Gateway.OAuth.Yandex.{
  YandexUser, YandexVerifier, identity_of_yandex, read_yandex, classify, yandex_verify,
}

-- One of the two attempts answered 2xx with a body of the identity's id and e-mail.
pub data Attests (first again : Fetched YandexUser) (i : OAuthIdentity) : Type 0 where
  user_info :
      (s : ℕ) (b : YandexUser)
      → (first ≡ response s (some b)) ⊎ (again ≡ response s (some b))
      → leb 200 s && leb s 299 ≡ true
      → b.id ≡ some i.provider_user_id
      → truthy b.id ≡ true
      → i.email ≡ b.default_email
      → Attests first again i

verified_email : (i : String) (b : YandexUser) → HasVerifiedEmail (identity_of_yandex i b)
unfolding identity_of_yandex
verified_email i b = elim (Bool-cases (truthy b.default_email)) [
  | inl there ↦ inl there
  | inr absent ↦ inr (λ e. false≢true (sym absent ∙ ap (λ o. or_else o true) e))
]

module _ (first again : Fetched YandexUser) where
  Judged : Outcome OAuthIdentity → Type 0
  Judged = Verdict (gave_up first again ≡ true) (Attests first again)

  read_yandex-Verdict :
      (s : ℕ) (b : Option YandexUser)
      → (first ≡ response s b) ⊎ (again ≡ response s b)
      → leb 200 s && leb s 299 ≡ true
      → Judged (read_yandex b)
  unfolding Judged identity_of_yandex
  read_yandex-Verdict s none from fine = refused "Yandex returned an unexpected payload" refl
  read_yandex-Verdict s (some b) from fine = elim (Bool-cases (truthy b.id)) [
    | inl there ↦
        identified (identity_of_yandex (or_else b.id "") b)
          (user_info s b from fine (truthy-some b.id there) there refl)
          (verified_email (or_else b.id "") b) (rw there refl)
    | inr absent ↦ refused "Yandex returned an unexpected payload" (rw absent refl)
  ]

  -- The tests on the status, one after the other.
  by_status :
      (rejected broken success : Bool) (m1 m2 m3 : String) (r : Outcome OAuthIdentity)
      → (broken ≡ true → gave_up first again ≡ true)
      → (broken ≡ false → success ≡ true → Judged r)
      → Judged (
          if rejected
          then token_rejected m1
          else if broken
          then upstream_unavailable m2
          else if not success
          then token_rejected m3
          else r)
  unfolding Judged
  by_status true broken success m1 m2 m3 r gone read = refused m1 refl
  by_status false true success m1 m2 m3 r gone read = unavailable m2 (gone refl) refl
  by_status false false true m1 m2 m3 r gone read = read refl refl
  by_status false false false m1 m2 m3 r gone read = refused m3 refl

  classify-Verdict :
      (m : String) (r : Outcome (ℕ × Option YandexUser))
      → Ended m first again r
      → Judged (classify r)
  unfolding Judged classify
  classify-Verdict m r (down gone e) = rw e (unavailable m gone refl)
  classify-Verdict m r (failing s b gone broken e) = rw e (
      by_status (nat_eq s 401 || nat_eq s 403) (leb 500 s) (leb 200 s && leb s 299) _ _ _
        (read_yandex b) (λ _. gone) (λ fine _. cc))
  classify-Verdict m r (answered s b from fine e) = rw e (
      by_status (nat_eq s 401 || nat_eq s 403) (leb 500 s) (leb 200 s && leb s 299) _ _ _
        (read_yandex b) (λ broken. cc) (λ _ success. read_yandex-Verdict s b from success))

-- Yandex's verifier keeps the contract: it refuses with 401 `token_invalid`, or with 503 only where
-- the provider is down, or returns an identity that an attempt's 2xx answer carries as its id and
-- e-mail, and which says that an e-mail is verified only where there is one.
pub yandex_verify-Verdict :
    (v : YandexVerifier) (token : String) (hints : OAuthVerifyHints)
    → Verdict
        (gave_up (v.user_info token 0) (v.user_info token 1) ≡ true)
        (Attests (v.user_info token 0) (v.user_info token 1))
        (yandex_verify v token hints)
unfolding yandex_verify fetch_with_retry Judged
yandex_verify-Verdict v token hints =
    let judged =
      classify-Verdict (v.user_info token 0) (v.user_info token 1)
        "Yandex ID is temporarily unavailable" _ (attempted-Ended _ _ _) in
    elim (Bool-cases (truthy (some token))) [
      | inl there ↦ rw there judged
      | inr empty ↦ refused "Yandex token required" (rw empty refl)
    ]
