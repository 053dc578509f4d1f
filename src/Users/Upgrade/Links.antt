-- ===== src/Users/Upgrade/Links.antt =====
-- What an upgrade by an OAuth provider links to the account.
use nestjs_microservice_mono.Prelude.{
  ℕ, String, ◌≡◌, refl, true, inl, inr, any-append, truthy, or_else, Bool-cases,
}
use text.Mathlib.TextPositions.{eq_refl}
use nestjs_microservice_mono.Errors.Defs.{Outcome, ok, err, conflict}
use nestjs_microservice_mono.Entities.{
  User, Database, OAuthProvider, provider_name, has_link, is_autoreg,
}
use nestjs_microservice_mono.Driver.{Driver, Flush, written, rejected}
use nestjs_microservice_mono.Users.Common.{err-ne-ok, ok-injective, find_by_id}
use nestjs_microservice_mono.Users.Upgrade.{
  UpgradePayload, by_provider, attach, attach_provider, promote, finish_upgrade, upgrade_with,
  upgrade_found, upgrade_account,
}
use nestjs_microservice_mono.Users.Upgrade.Effects.{clash_or-eq-ok, rejected-ne-ok}

-- The account has the identity that the payload names.
abbrev pub Linked : OAuthProvider → UpgradePayload → User → Type 0
Linked provider p v =
    (truthy p.provider_user_id ≡ true)
    × (has_link provider (or_else p.provider_user_id "") v ≡ true)

attach_provider-Linked :
    (d : Driver) (now : ℕ) (uid : String) (provider : OAuthProvider) (p : UpgradePayload)
    (u v : User) (db : Database)
    → attach_provider d now uid provider p u db ≡ ok v
    → Linked provider p v
unfolding attach_provider
attach_provider-Linked d now uid provider p u v db h =
    elim (Bool-cases (truthy p.provider_user_id)) [
      | inl given ↦
          let attached = ok-injective _ v (clash_or-eq-ok _ uid _ v (rw given at h)) in
          let i = or_else p.provider_user_id "" in
          (
            given,
            rw (← attached) (
                any-append _ u.oauth_links _
                  (rw (eq_refl (provider_name provider), eq_refl i) refl)),
          )
      | inr absent ↦ absurd (err-ne-ok _ v (rw absent at h))
    ]

finish_upgrade-Linked :
    (f : Flush) (now : ℕ) (provider : OAuthProvider) (p : UpgradePayload) (w v : User)
    (db : Database)
    → Linked provider p w
    → (finish_upgrade f now (promote now p w) db).0 ≡ ok v
    → Linked provider p v
unfolding finish_upgrade promote
finish_upgrade-Linked (rejected e left) now provider p w v db l h = absurd (rejected-ne-ok e v h)
finish_upgrade-Linked written now provider p w v db l h = rw (← ok-injective _ v h) l

upgrade_with-Linked :
    (d : Driver) (now : ℕ) (provider : OAuthProvider) (p : UpgradePayload) (v : User)
    (r : Outcome User) (db : Database)
    → ((w : User) → r ≡ ok w → Linked provider p w)
    → (upgrade_with d now p r db).0 ≡ ok v
    → Linked provider p v
unfolding upgrade_with
upgrade_with-Linked d now provider p v (err e) db l h = absurd (err-ne-ok e v h)
upgrade_with-Linked d now provider p v (ok w) db l h =
    finish_upgrade-Linked _ now provider p w v db (l w refl) h

-- An upgrade by a provider that succeeds links the identity of the payload, which is not empty.
pub upgrade_account-Linked :
    (d : Driver) (now : ℕ) (salt uid : String) (provider : OAuthProvider) (p : UpgradePayload)
    (v : User) (db : Database)
    → p.method ≡ by_provider provider
    → (upgrade_account d now salt uid p db).0 ≡ ok v
    → Linked provider p v
unfolding upgrade_account upgrade_found attach
upgrade_account-Linked d now salt uid provider p v db m h = found (find_by_id d uid db) h
  where
    found :
        (r : Outcome User) → (upgrade_found d now salt uid p r db).0 ≡ ok v → Linked provider p v
    found (err e) h' = absurd (err-ne-ok e v h')
    found (ok u) h' = elim (Bool-cases (is_autoreg u.account_type)) [
      | inl anon ↦
          upgrade_with-Linked d now provider p v _ db
            (λ w e. attach_provider-Linked d now uid provider p u w db (rw m at e)) (rw anon at h')
      | inr done ↦ absurd (err-ne-ok (conflict "Account already upgraded") v (rw done at h'))
    ]
