-- ===== src/History/Revoked.antt =====
-- What an upgrade, a reset or a deletion revokes stays revoked, whatever operations follow.
use nestjs_microservice_mono.Prelude.{
  ℕ, ◌<◌, ◌≤◌, String, ◌≡◌, sym, ap, ◌∙◌, ◌&&◌, Option, some, Bool-cases, inl, inr, arith, or_else,
}
use nestjs_microservice_mono.Errors.Defs.{Thrown, RpcErrorPayload, microservice, ok, err}
use nestjs_microservice_mono.Errors.Transport.{Carries}
use nestjs_microservice_mono.Entities.{User, Database, version, holds, is_live, save_user}
use nestjs_microservice_mono.Driver.{Driver, IsQuery}
use nestjs_microservice_mono.Users.Common.{
  find_by_id, replace_user_self, after_flush-eq-ok, err-ne-ok, ok-injective,
}
use nestjs_microservice_mono.Users.Upgrade.{UpgradePayload, upgrade_account}
use nestjs_microservice_mono.Users.Upgrade.Effects.{upgrade_account-Effects}
use nestjs_microservice_mono.Users.Password.{
  with_password, has_expired, invalid_reset_token, reset_found, reset_password,
}
use nestjs_microservice_mono.Users.Profile.{delete_user, delete_found, scrub}
use nestjs_microservice_mono.Gateway.TokenStore.{Redis}
use nestjs_microservice_mono.Gateway.Session.{Jwt, TokenConfig, RefreshRequest, revoked}
use nestjs_microservice_mono.Gateway.Revocation.{refresh_with, refresh-Outdated}
use nestjs_microservice_mono.History.{IsFlush, Reach}
use nestjs_microservice_mono.History.Holds.{Holds}
use nestjs_microservice_mono.History.Steps.{Reach-Holds}

-- Every document of the id has a token version above the given one.
abbrev Above : String → ℕ → Database → Type 0
Above i tv = Holds i (λ u. tv < version u)

-- An operation that revokes the account's tokens of the given version and below.
pub data Revokes (d : Driver) (i : String) (tv : ℕ) (a b : Database) : Type 0 where
  by_upgrade :
      (now : ℕ) (salt uid : String) (p : UpgradePayload) (u v : User)
      → find_by_id d uid a ≡ ok u
      → (upgrade_account d now salt uid p a).0 ≡ ok v
      → u.id ≡ i
      → tv ≤ version u
      → b ≡ (upgrade_account d now salt uid p a).1
      → Revokes d i tv a b
  by_reset :
      (now : ℕ) (salt token password : String) (u : User)
      → d.find_user (λ w. holds w.reset_password_token (d.sha256 token) && is_live w) a.users
        ≡ some u
      → (reset_password d now salt token password a).0 ≡ ok tt
      → u.id ≡ i
      → tv ≤ version u
      → b ≡ (reset_password d now salt token password a).1
      → Revokes d i tv a b
  by_deletion :
      (now : ℕ) (event_id uid : String) (u : User)
      → find_by_id d uid a ≡ ok u
      → (delete_user d now event_id uid a).0 ≡ ok tt
      → u.id ≡ i
      → tv ≤ version u
      → b ≡ (delete_user d now event_id uid a).1
      → Revokes d i tv a b

deleted-Above :
    (d : Driver) (now : ℕ) (event_id : String) (u : User) (tv : ℕ) (a : Database)
    → tv ≤ version u
    → (delete_found d now event_id (ok u) a).0 ≡ ok tt
    → Above u.id tv (delete_found d now event_id (ok u) a).1
unfolding delete_found save_user scrub
deleted-Above d now event_id u tv a old h w listed same =
    let (_, kept) = after_flush-eq-ok _ tt tt _ h in
    let stored = replace_user_self _ w _ (rw kept at listed) same in rw stored (omega arith)

reset-Above :
    (d : Driver) (now : ℕ) (salt password : String) (u : User) (tv : ℕ) (a : Database)
    → tv ≤ version u
    → (reset_found d now salt password (some u) a).0 ≡ ok tt
    → Above u.id tv (reset_found d now salt password (some u) a).1
unfolding reset_found save_user with_password
reset-Above d now salt password u tv a old h w listed same =
    elim (Bool-cases (has_expired u.reset_password_expiry now)) [
      | inl late ↦ absurd (err-ne-ok invalid_reset_token tt (rw late at h))
      | inr timely ↦
          let (_, kept) = after_flush-eq-ok _ tt tt _ (rw timely at h) in
          let stored = replace_user_self _ w a.users (rw (timely, kept) at listed) same in
          rw stored (omega arith)
    ]

upgrade-Above :
    (d : Driver) (now : ℕ) (salt uid : String) (p : UpgradePayload) (u v : User) (tv : ℕ)
    (a : Database)
    → IsQuery d.find_user
    → find_by_id d uid a ≡ ok u
    → (upgrade_account d now salt uid p a).0 ≡ ok v
    → tv ≤ version u
    → Above u.id tv (upgrade_account d now salt uid p a).1
upgrade-Above d now salt uid p u v tv a q found done old w listed same =
    let (x, found', _, eff) = upgrade_account-Effects d now salt uid p v a q done in
    let is_u : x ≡ u = ok-injective x u (sym found' ∙ found) in
    let old' : tv ≤ version x = rw is_u old in
    let raised = eff.bumped in
    let equal = eff.unique w listed (same ∙ sym (ap (λ (y : User). y.id) is_u) ∙ sym eff.same) in
    omega arith

Revokes-Above :
    (d : Driver) (i : String) (tv : ℕ) (a b : Database)
    → IsQuery d.find_user
    → Revokes d i tv a b
    → Above i tv b
unfolding delete_user reset_password
Revokes-Above d i tv a b q (by_upgrade now salt uid p x v found done whose older e) u listed same =
    upgrade-Above d now salt uid p x v tv a q found done older u (rw e at listed) (same ∙ sym whose)
Revokes-Above d i tv a b q (by_reset now salt token password x found done whose older e) u listed
      same =
    reset-Above d now salt password x tv a older (rw (found, reset_password) at done) u
      (rw (e, found, reset_password) at listed) (same ∙ sym whose)
Revokes-Above d i tv a b q (by_deletion now event_id uid x found done whose older e) u listed same =
    deleted-Above d now event_id x tv a older (rw (found, delete_user) at done) u
      (rw (e, found, delete_user) at listed) (same ∙ sym whose)

-- After an upgrade, a reset or a deletion of an account, and after any number of further operations
-- in any order, a refresh with a token of a version from before is refused with 401 token_invalid and
-- blacklists nothing, as long as no later account is given the same id.
pub refresh-stays_revoked :
    (r : Redis) (d : Driver) (deliver : Thrown → Thrown) (trace : Option String) (j : Jwt)
    (c : TokenConfig) (now : ℕ) (new_jti : String) (q : RefreshRequest) (i : String)
    (before after last : Database) (s : r.Store)
    → IsQuery d.find_user
    → IsFlush d.flush
    → ((p : RpcErrorPayload) → Carries p (deliver (microservice p)))
    → d.object_id q.user_id ≡ ok i
    → Revokes d i (or_else q.tv 0) before after
    → Reach d i after last
    → refresh_with r d deliver trace j c now new_jti q last s ≡ (err revoked, s)
refresh-stays_revoked r d deliver trace j c now new_jti q i before after last s query law carries
      parsed revoking history =
    let above =
      Reach-Holds d law i (λ u. or_else q.tv 0 < version u)
        (λ u v w old. let r = w.raises in omega arith) after last query history
        (Revokes-Above d i (or_else q.tv 0) before after query revoking) in
    refresh-Outdated r d deliver trace j c now new_jti q i last s query carries parsed
      (λ u listed same e. let newer = above u listed same in omega arith)
