-- ===== src/Gateway/OAuth/Vk/Verdicts.antt =====
-- `VkOAuthVerifierService.verify` keeps the contract of the verifiers.
use nestjs_microservice_mono.Prelude.{
  ℕ, String, ◌≡◌, refl, true, false, Option, none, some, List, [], ◌∷◌, All, nat_eq, truthy, ◌⊎◌,
  inl, inr, ◌==◌, Bool-cases, Option-cases,
}
use nestjs_microservice_mono.Errors.Defs.{Outcome}
use nestjs_microservice_mono.Gateway.OAuth.{
  filled, OAuthIdentity, OAuthVerifyHints, response, fetch_with_retry,
}
use nestjs_microservice_mono.Gateway.OAuth.Retry.{Ended, down, failing, answered, attempted-Ended}
use nestjs_microservice_mono.Gateway.OAuth.Contract.{Verdict, refused, unavailable, identified}
use nestjs_microservice_mono.Gateway.OAuth.Vk.{
  VkProfile, UserInfo, VkVerifier, looks_like_jwt, hints_ios, ordered_client_ids, PublicInfoResult,
  identity_of_user, try_public_info, after_attempt, try_clients, try_all, verify_id_token,
  response_profile, identity_of_profile, read_profile, read_user_info, after_fetch,
  verify_access_token, vk_verify,
}
use nestjs_microservice_mono.Gateway.OAuth.Vk.Attested.{
  Whitelisted, VkDown, public_info_down, user_info_down, VkAttests, by_public_info, by_user_info,
  verified_email, identity_of_user-IsOf, Meaning, is_upstream, is_rejected, is_accepted,
  public_info_result-Meaning,
}

module _ (v : VkVerifier) (token : String) where
  Judged : Outcome OAuthIdentity → Type 0
  Judged = Verdict (VkDown v token) (VkAttests v token)

  after_attempt-Verdict :
      (c : String) (r : PublicInfoResult) (rest : Outcome OAuthIdentity)
      → looks_like_jwt v token ≡ true
      → Whitelisted v c
      → Meaning (v.public_info c token) r
      → Judged rest
      → Judged (after_attempt r rest)
  unfolding Judged
  after_attempt-Verdict c r rest jwt ours (is_upstream m broken e) judged =
      rw e (unavailable m (public_info_down c ours broken) refl)
  after_attempt-Verdict c r rest jwt ours (is_rejected m e) judged = rw e judged
  after_attempt-Verdict c r rest jwt ours (is_accepted s p u uid answer clean who present there e)
        judged =
      rw e (
        identified (identity_of_user uid u)
          (by_public_info c s p u uid ours jwt answer clean who present there
            (identity_of_user-IsOf uid u))
          (verified_email uid u) refl)

  try_clients-Verdict :
      (cs : List String)
      → looks_like_jwt v token ≡ true
      → All (Whitelisted v) cs
      → Judged (try_clients (λ c. try_public_info v c token) cs)
  unfolding Judged try_clients try_public_info
  try_clients-Verdict [] jwt ours = refused "VK rejected the token" refl
  try_clients-Verdict (c ∷ cs) jwt (our, ours) =
      after_attempt-Verdict c (try_public_info v c token) _ jwt our
        (public_info_result-Meaning c (v.public_info c token)) (try_clients-Verdict cs jwt ours)

  try_all-Verdict :
      (cs : List String)
      → looks_like_jwt v token ≡ true
      → All (Whitelisted v) cs
      → Judged (try_all (λ c. try_public_info v c token) cs)
  unfolding Judged
  try_all-Verdict [] jwt ours = refused _ refl
  try_all-Verdict (c ∷ cs) jwt ours = try_clients-Verdict (c ∷ cs) jwt ours

module _ (v : VkVerifier) where
  filled-Whitelisted :
      (os : List (Option String))
      → All (λ o. (v.android_id ≡ o) ⊎ (v.ios_id ≡ o)) os
      → All (Whitelisted v) (filled os)
  filled-Whitelisted [] ours = tt
  filled-Whitelisted (none ∷ os) (our, ours) = filled-Whitelisted os ours
  filled-Whitelisted (some c ∷ os) (our, ours) =
      let rest = filled-Whitelisted os ours in
      elim (Bool-cases (c == "")) [ inl empty ↦ rw empty rest | inr named ↦ rw named (our, rest) ]

  ordered_client_ids-Whitelisted :
      (hints : OAuthVerifyHints) → All (Whitelisted v) (ordered_client_ids v hints)
  unfolding ordered_client_ids
  ordered_client_ids-Whitelisted hints = elim (Bool-cases (hints_ios hints.platform)) [
    | inl apple ↦
        rw apple (filled-Whitelisted (v.ios_id ∷ v.android_id ∷ []) (inr refl, (inl refl, tt)))
    | inr other ↦
        rw other (filled-Whitelisted (v.android_id ∷ v.ios_id ∷ []) (inl refl, (inr refl, tt)))
  ]

module _ (v : VkVerifier) (token : String) (opaque : looks_like_jwt v token ≡ false) where
  From : ℕ → Option UserInfo → Type 0
  From s b = (v.user_info token 0 ≡ response s b) ⊎ (v.user_info token 1 ≡ response s b)

  read_profile-Verdict :
      (s : ℕ) (b : UserInfo) (p : VkProfile)
      → From s (some b)
      → b.error ≡ none
      → response_profile b.response ≡ some p
      → Judged v token (read_profile p)
  unfolding Judged From
  read_profile-Verdict s b p from clean who = elim (Option-cases p.id) [
    | inl absent ↦ rw absent (refused "VK rejected the token" refl)
    | inr (uid, present) ↦ elim (Bool-cases (nat_eq uid 0)) [
      | inl zeroed ↦ rw (present, zeroed) (refused "VK rejected the token" refl)
      | inr there ↦
          identified (identity_of_profile uid p)
            (by_user_info s b p uid from opaque clean who present there refl refl (λ e. cc))
            (inr (λ e. cc)) (rw (present, there) refl)
    ]
  ]

  read_user_info-Verdict :
      (s : ℕ) (b : Option UserInfo) → From s b → Judged v token (read_user_info b)
  unfolding Judged read_user_info
  read_user_info-Verdict s none from = refused "VK rejected the token" refl
  read_user_info-Verdict s (some b) from = elim (Option-cases b.error) [
    | inr (x, failed) ↦ rw failed (refused "VK rejected the token" refl)
    | inl clean ↦ elim (Option-cases (response_profile b.response)) [
      | inl absent ↦ rw (clean, absent) (refused "VK rejected the token" refl)
      | inr (p, who) ↦ simp (clean, who) (read_profile-Verdict s b p from clean who)
    ]
  ]

  after_fetch-Verdict :
      (m : String) (r : Outcome (ℕ × Option UserInfo))
      → Ended m (v.user_info token 0) (v.user_info token 1) r
      → Judged v token (after_fetch r)
  unfolding Judged after_fetch From
  after_fetch-Verdict m r (down gone e) = rw e (unavailable m (user_info_down gone) refl)
  after_fetch-Verdict m r (failing s b gone broken e) =
      rw (e, broken) (unavailable _ (user_info_down gone) refl)
  after_fetch-Verdict m r (answered s b from fine e) =
      rw (e, fine) (read_user_info-Verdict s b from)

-- VK's verifier keeps the contract: it refuses with 401 `token_invalid`, or with 503 only where VK
-- fails for one of the configured app ids or gives up users.get, or returns an identity that VK
-- attests, and which says that an e-mail is verified only where there is one. VK attests through
-- public_info for a token of the shape of a JWT and one of the configured app ids: the identity has the
-- id and the e-mail of the answer, and its e-mail is verified exactly if VK says so. For any other token
-- VK attests through users.get: the identity has the id of the answer and no e-mail.
pub vk_verify-Verdict :
    (v : VkVerifier) (token : String) (hints : OAuthVerifyHints)
    → Verdict (VkDown v token) (VkAttests v token) (vk_verify v token hints)
unfolding vk_verify verify_id_token verify_access_token fetch_with_retry Judged
vk_verify-Verdict v token hints = elim (Bool-cases (truthy (some token))) [
  | inr empty ↦ refused "VK token required" (rw empty refl)
  | inl there ↦ elim (Bool-cases (looks_like_jwt v token)) [
    | inl jwt ↦
        rw (there, jwt)
          (try_all-Verdict v token (ordered_client_ids v hints) jwt
            (ordered_client_ids-Whitelisted v hints))
    | inr other ↦
        rw (there, other)
          (after_fetch-Verdict v token other "VK is temporarily unavailable" _
            (attempted-Ended _ _ _))
  ]
]
