-- ===== src/Gateway/Linking/Attested.antt =====
-- A login or an upgrade through a provider needs what the provider attests.
use nestjs_microservice_mono.Prelude.{
  ◌+◌, String, ◌≡◌, refl, sym, ap, ◌∙◌, true, Option, none, some, In, truthy, or_else, ◌==◌,
  Bool-cases, inl, inr, if◌then◌else◌,
}
use mathlib.Core.Bool.{false≢true}
use mathlib.Core.Path.{subst}
use nestjs_microservice_mono.Errors.Defs.{Outcome, ok, err}
use nestjs_microservice_mono.Entities.{
  User, registered, OAuthProvider, google, apple, vk, yandex, provider_name, Database, has_link,
  version,
}
use nestjs_microservice_mono.Driver.{Driver, IsQuery}
use nestjs_microservice_mono.Users.Common.{err-ne-ok, find_by_id-eq-ok}
use nestjs_microservice_mono.Users.Upgrade.{by_provider}
use nestjs_microservice_mono.Users.Upgrade.Effects.{upgrade_account-Effects}
use nestjs_microservice_mono.Users.Upgrade.Links.{upgrade_account-Linked}
use nestjs_microservice_mono.Gateway.OAuth.{OAuthIdentity, hints_from_ctx}
use nestjs_microservice_mono.Gateway.OAuth.Contract.{HasVerifiedEmail}
use nestjs_microservice_mono.Gateway.OAuth.Factory.{Verifiers, verify_oauth_token}
use nestjs_microservice_mono.Gateway.OAuth.Factory.Attestation.{
  Attested, verify_oauth_token-Attested,
}
use nestjs_microservice_mono.Gateway.Flows.{Session, AuthResponse, respond, OAuthDto}
use nestjs_microservice_mono.Gateway.Flows.Routes.{Reached, oauth_route-Reached, then_respond-eq-ok}
use nestjs_microservice_mono.Gateway.Linking.{
  login_token, login_attested, oauth_login, UpgradeAccountDto, method_name, verified_id,
  resolve_oauth_provider_user_id, upgrade_payload, upgrade_resolved, upgrade,
}

provider_of : String → Option OAuthProvider
provider_of s =
    if s == "google"
    then some google
    else if s == "apple"
    then some apple
    else if s == "vk"
    then some vk
    else some yandex

provider_of-provider_name : (p : OAuthProvider) → provider_of (provider_name p) ≡ some p
unfolding provider_of
provider_of-provider_name google = refl
provider_of-provider_name apple = refl
provider_of-provider_name vk = refl
provider_of-provider_name yandex = refl

provider_name_injective : (p q : OAuthProvider) → provider_name p ≡ provider_name q → p ≡ q
provider_name_injective p q e =
    ap (λ o. or_else o p)
      (sym (provider_of-provider_name p) ∙ ap provider_of e ∙ provider_of-provider_name q)

-- An OAuth login that succeeds was for VK or Yandex, the provider that the request names attests
-- an identity for the presented token, and the login reaches an account through that identity.
pub oauth_login-Reached :
    (s : Session) (d : Driver) (vs : Verifiers) (new_id provider : String) (dto : OAuthDto)
    (user_agent : Option String) (db : Database) (r : AuthResponse)
    → IsQuery d.find_user
    → (oauth_login s d vs new_id provider dto user_agent db).0 ≡ ok r
    → (p : OAuthProvider) × (i : OAuthIdentity) × (provider ≡ provider_name p)
      × Attested vs (login_token dto) p i
      × HasVerifiedEmail i
      × Reached s new_id p i dto db r
unfolding oauth_login
oauth_login-Reached s d vs new_id provider dto user_agent db r q h =
    reach (verify_oauth_token vs provider (login_token dto) (hints_from_ctx user_agent)) refl h
  where
    reach :
        (o : Outcome (OAuthProvider × OAuthIdentity))
        → verify_oauth_token vs provider (login_token dto) (hints_from_ctx user_agent) ≡ o
        → (login_attested s d new_id o dto db).0 ≡ ok r
        → (p : OAuthProvider) × (i : OAuthIdentity) × (provider ≡ provider_name p)
          × Attested vs (login_token dto) p i
          × HasVerifiedEmail i
          × Reached s new_id p i dto db r
    reach (err e) seen done = absurd (err-ne-ok e r done)
    reach (ok (p, i)) seen done =
        let (named, says, safe) =
          verify_oauth_token-Attested vs provider (login_token dto) (hints_from_ctx user_agent) p i
            seen in
        (p, i, named, says, safe, oauth_route-Reached s d new_id p i dto db r q done)

-- The stored account that an upgrade through a provider answers for.
pub record Upgraded (s : Session) (d : Driver) (vs : Verifiers) (uid : String)
    (dto : UpgradeAccountDto) (p : OAuthProvider) (r : AuthResponse) (before after : Database)
    : Type 0 where
  pub identity : OAuthIdentity
  pub attested : Attested vs (or_else dto.oauth_token "") p identity
  pub account : User
  pub named : d.object_id uid ≡ ok account.id
  pub anonymous : User
  pub was : In anonymous before.users × (anonymous.id ≡ account.id)
  pub raised : version account ≡ version anonymous + 1
  pub stored : In account after.users
  pub linked : has_link p identity.provider_user_id account ≡ true
  pub answered : r ≡ respond s registered registered uid (version account)

module _ (s : Session) (d : Driver) (vs : Verifiers) (salt uid : String) (dto : UpgradeAccountDto)
    (p : OAuthProvider) (db : Database) (r : AuthResponse) where
  resolved-Upgraded :
      (i : OAuthIdentity)
      → IsQuery d.find_user
      → dto.method ≡ by_provider p
      → Attested vs (or_else dto.oauth_token "") p i
      → (upgrade_resolved s d salt uid dto (ok (some i.provider_user_id)) db).0 ≡ ok r
      → Upgraded s d vs uid dto p r db
          (upgrade_resolved s d salt uid dto (ok (some i.provider_user_id)) db).1
  unfolding upgrade_payload
  resolved-Upgraded i q m says h =
      let (v, done, answer) = then_respond-eq-ok _ s.deliver s.trace _ r h in
      let (u, found, listed, eff) = upgrade_account-Effects d s.now salt uid _ v db q done in
      let (_, _, parsed) = find_by_id-eq-ok d uid db u q found in
      record {
        identity = i;
        attested = says;
        account = v;
        named = parsed ∙ ap ok (sym eff.same);
        anonymous = u;
        was = (listed, sym eff.same);
        raised = eff.bumped;
        stored = eff.stored;
        linked = (upgrade_account-Linked d s.now salt uid p _ v db m done).1;
        answered = answer;
      }

  verified-Upgraded :
      (user_agent : Option String) (o : Outcome (OAuthProvider × OAuthIdentity))
      → IsQuery d.find_user
      → dto.method ≡ by_provider p
      → verify_oauth_token vs
          (method_name dto.method)
          (or_else dto.oauth_token "")
          (hints_from_ctx user_agent)
        ≡ o
      → (upgrade_resolved s d salt uid dto (verified_id o) db).0 ≡ ok r
      → Upgraded s d vs uid dto p r db (upgrade_resolved s d salt uid dto (verified_id o) db).1
  verified-Upgraded user_agent (err e) q m seen h = absurd (err-ne-ok e r h)
  verified-Upgraded user_agent (ok (p', i)) q m seen h =
      let (named, says, _) =
        verify_oauth_token-Attested vs (method_name dto.method) (or_else dto.oauth_token "")
          (hints_from_ctx user_agent) p' i seen in
      let same : p' ≡ p = sym (provider_name_injective p p' (sym (ap method_name m) ∙ named)) in
      resolved-Upgraded i q m (subst (λ x. Attested vs (or_else dto.oauth_token "") x i) same says)
        h

  -- Without a token the user service refuses, since it is given no identity.
  unresolved-absurd :
      dto.method ≡ by_provider p → (upgrade_resolved s d salt uid dto (ok none) db).0 ≡ ok r → ⊥
  unfolding upgrade_payload
  unresolved-absurd m h =
      let (v, done, _) = then_respond-eq-ok _ s.deliver s.trace _ r h in
      false≢true (upgrade_account-Linked d s.now salt uid p _ v db m done).0

-- An upgrade through a provider that succeeds was given an identity that this provider attests for
-- the presented token. The account it answers for is the one of the caller's id; it is stored with its
-- token version raised by one, has that identity linked, and its token version is the one in the
-- response's refresh token.
pub upgrade-Upgraded :
    (s : Session) (d : Driver) (vs : Verifiers) (salt uid : String) (dto : UpgradeAccountDto)
    (user_agent : Option String) (p : OAuthProvider) (db : Database) (r : AuthResponse)
    → IsQuery d.find_user
    → dto.method ≡ by_provider p
    → (upgrade s d vs salt uid dto user_agent db).0 ≡ ok r
    → Upgraded s d vs uid dto p r db (upgrade s d vs salt uid dto user_agent db).1
unfolding upgrade resolve_oauth_provider_user_id
upgrade-Upgraded s d vs salt uid dto user_agent p db r q m h =
    elim (Bool-cases (truthy dto.oauth_token)) [
      | inl given ↦
          rw given
            (verified-Upgraded s d vs salt uid dto p db r user_agent _ q m refl (rw given at h))
      | inr absent ↦ absurd (unresolved-absurd s d vs salt uid dto p db r m (rw absent at h))
    ]
