-- ===== src/Gateway/OAuth/Vk/Hints.antt =====
-- The platform hint only orders VK's attempts.
use nestjs_microservice_mono.Prelude.{
  String, ◌≡◌, refl, sym, ap, Option, none, some, [], ◌∷◌, ◌⊎◌, inl, inr, ◌≢◌, ◌==◌, Bool-cases,
}
use nestjs_microservice_mono.Errors.Defs.{Outcome, ok}
use nestjs_microservice_mono.Gateway.OAuth.{filled, OAuthIdentity, OAuthVerifyHints}
use nestjs_microservice_mono.Gateway.OAuth.Vk.{
  VkVerifier, hints_ios, ordered_client_ids, PublicInfoResult, accepted, rejected, upstream,
  try_public_info, after_attempt, try_clients, try_all, verify_id_token,
}
use nestjs_microservice_mono.Gateway.OAuth.Vk.Attested.{Whitelisted}

-- Two answers of the loop, in either order.
swap_attempts :
    (r r' : PublicInfoResult) (rest : Outcome OAuthIdentity)
    → ((m : String) → r ≢ upstream m)
    → ((m : String) → r' ≢ upstream m)
    → ((i j : OAuthIdentity) → r ≡ accepted i → r' ≡ accepted j → i ≡ j)
    → after_attempt r (after_attempt r' rest) ≡ after_attempt r' (after_attempt r rest)
swap_attempts (upstream m) r' rest up up' agree = absurd (up m refl)
swap_attempts r (upstream m) rest up up' agree = absurd (up' m refl)
swap_attempts (accepted i) (accepted j) rest up up' agree = ap ok (agree i j refl refl)
swap_attempts (accepted i) (rejected m) rest up up' agree = refl
swap_attempts (rejected m) (accepted i) rest up up' agree = refl
swap_attempts (rejected m) (rejected n) rest up up' agree = refl

module _ (try : String → PublicInfoResult) where
  swap_clients :
      (a b : Option String)
      → ((c : String) (m : String) → (a ≡ some c) ⊎ (b ≡ some c) → try c ≢ upstream m)
      → ((c d : String) (i j : OAuthIdentity)
          → (a ≡ some c) ⊎ (b ≡ some c)
          → (a ≡ some d) ⊎ (b ≡ some d)
          → try c ≡ accepted i
          → try d ≡ accepted j
          → i ≡ j)
      → try_all try (filled (a ∷ b ∷ [])) ≡ try_all try (filled (b ∷ a ∷ []))
  unfolding try_clients
  swap_clients none none up agree = refl
  swap_clients none (some d) up agree = refl
  swap_clients (some c) none up agree = refl
  swap_clients (some c) (some d) up agree = elim (Bool-cases (c == "")) [
    | inl empty ↦ rw empty refl
    | inr named ↦ elim (Bool-cases (d == "")) [
      | inl empty ↦ rw (named, empty) refl
      | inr named' ↦
          rw (named, named')
            (swap_attempts (try c) (try d) _ (λ m. up c m (inl refl)) (λ m. up d m (inr refl))
              (λ i j. agree c d i j (inl refl) (inr refl)))
    ]
  ]

-- Where VK fails for none of the configured app ids, and the app ids that it accepts the token for
-- agree on the identity, the hints do not change what an id token is verified as.
pub verify_id_token-same :
    (v : VkVerifier) (token : String) (h h' : OAuthVerifyHints)
    → ((c : String) (m : String) → Whitelisted v c → try_public_info v c token ≢ upstream m)
    → ((c d : String) (i j : OAuthIdentity)
        → Whitelisted v c
        → Whitelisted v d
        → try_public_info v c token ≡ accepted i
        → try_public_info v d token ≡ accepted j
        → i ≡ j)
    → verify_id_token v token h ≡ verify_id_token v token h'
unfolding verify_id_token ordered_client_ids
verify_id_token-same v token h h' up agree =
    let same = swap_clients (λ c. try_public_info v c token) v.android_id v.ios_id up agree in
    elim (Bool-cases (hints_ios h.platform)) [
      | inl apple ↦ elim (Bool-cases (hints_ios h'.platform)) [
        | inl apple' ↦ rw (apple, apple') refl
        | inr other ↦ rw (apple, other) (sym same)
      ]
      | inr other ↦ elim (Bool-cases (hints_ios h'.platform)) [
        | inl apple ↦ rw (other, apple) same
        | inr other' ↦ rw (other, other') refl
      ]
    ]
