-- ===== src/Users/Upgrade/Effects.antt =====
-- What a successful upgrade leaves behind.
use nestjs_microservice_mono.Prelude.{
  ℕ, ◌+◌, String, ◌≡◌, ◌≢◌, refl, sym, ◌∙◌, true, not, Option, none, some, inl, inr, In, arith,
  ◌==◌, eq_iff, Bool-cases, if◌then◌else◌, truthy,
}
use nestjs_microservice_mono.Errors.Defs.{Thrown, Outcome, ok, err, conflict}
use nestjs_microservice_mono.Entities.{
  User, Device, Database, autoreg, registered, is_autoreg, version, save_user, delete_devices_of,
  OAuthProvider,
}
use nestjs_microservice_mono.Driver.{Driver, Flush, written, rejected, IsQuery}
use nestjs_microservice_mono.DuplicateKey.{is_duplicate_key_error}
use nestjs_microservice_mono.Users.Common.{
  err-ne-ok, ok-injective, is_autoreg-eq, find_by_id, find_by_id-eq-ok, email_taken,
  In-replace_user, replace_user_self, In-keep,
}
use nestjs_microservice_mono.Users.Upgrade.{
  UpgradePayload, UpgradeMethod, by_email, by_provider, attach, attach_email, attach_provider,
  clash_or, promote, finish_upgrade, upgrade_with, upgrade_found, upgrade_account,
}
use nestjs_microservice_mono.Users.Autoreg.{
  AutoregPayload, AutoregResult, Fresh, create_autoreg_user,
}
use nestjs_microservice_mono.Users.Autoreg.Accounts.{
  Origin, fresh, linked, create_autoreg_user-Origin,
}

-- What the upgrade keeps of the account while the identity is attached.
pub record Keeps (u v : User) : Type 0 where
  pub id : v.id ≡ u.id
  pub version : v.token_version ≡ u.token_version
  pub live : v.deleted_at ≡ u.deleted_at

ok-Keeps :
    (u w v : User)
    → (w.id ≡ u.id) × (w.token_version ≡ u.token_version) × (w.deleted_at ≡ u.deleted_at)
    → ok w ≡ ok v
    → Keeps u v
ok-Keeps u w v k h = rw (← ok-injective w v h) (record { id = k.0; version = k.1; live = k.2 })

attach_email-Keeps :
    (d : Driver) (salt uid : String) (p : UpgradePayload) (u v : User) (db : Database)
    → attach_email d salt uid p u db ≡ ok v
    → Keeps u v
unfolding attach_email
attach_email-Keeps d salt uid p u v db h = ground arith

pub clash_or-eq-ok :
    (o : Option User) (uid : String) (r : Outcome User) (v : User)
    → clash_or o uid r ≡ ok v
    → r ≡ ok v
unfolding clash_or
clash_or-eq-ok none uid r v h = h
clash_or-eq-ok (some w) uid r v h = ground arith

attach_provider-Keeps :
    (d : Driver) (now : ℕ) (uid : String) (provider : OAuthProvider) (p : UpgradePayload)
    (u v : User) (db : Database)
    → attach_provider d now uid provider p u db ≡ ok v
    → Keeps u v
unfolding attach_provider
attach_provider-Keeps d now uid provider p u v db h =
    elim (Bool-cases (truthy p.provider_user_id)) [
      | inl given ↦ ok-Keeps u _ v (refl, refl, refl) (clash_or-eq-ok _ uid _ v (rw given at h))
      | inr absent ↦ absurd (err-ne-ok _ v (rw absent at h))
    ]

pub attach-Keeps :
    (d : Driver) (now : ℕ) (salt uid : String) (m : UpgradeMethod) (p : UpgradePayload) (u v : User)
    (db : Database)
    → attach d now salt uid m p u db ≡ ok v
    → Keeps u v
unfolding attach
attach-Keeps d now salt uid by_email p u v db h = attach_email-Keeps d salt uid p u v db h
attach-Keeps d now salt uid (by_provider provider) p u v db h =
    attach_provider-Keeps d now uid provider p u v db h

pub rejected-ne-ok :
    (e : Thrown) (v : User)
    → (if is_duplicate_key_error e (some "email") then err email_taken else err e) ≡ ok v
    → ⊥
rejected-ne-ok e v h = elim (Bool-cases (is_duplicate_key_error e (some "email"))) [
  | inl taken ↦ err-ne-ok email_taken v (rw taken at h)
  | inr other ↦ err-ne-ok e v (rw other at h)
]

not_self : (a b : String) → not (a == b) ≡ true → a ≡ b → ⊥
not_self a b h e = ground (arith, eq_iff a b)

-- What holds of the account `u` before, the account `v` that is returned, and the database after.
pub record Effects (u v : User) (after : Database) : Type 0 where
  pub anonymous : u.account_type ≡ autoreg
  pub alive : u.deleted_at ≡ none
  pub same : v.id ≡ u.id
  pub registered_now : v.account_type ≡ registered
  pub bumped : version v ≡ version u + 1
  pub stored : In v after.users
  pub unique : (w : User) → In w after.users → w.id ≡ v.id → version w ≡ version v
  pub unlinked : (x : Device) → In x after.devices → x.user_id ≢ v.id

finish_upgrade-Effects :
    (f : Flush) (now : ℕ) (p : UpgradePayload) (u w v : User) (db : Database)
    → In u db.users
    → u.account_type ≡ autoreg
    → u.deleted_at ≡ none
    → Keeps u w
    → (finish_upgrade f now (promote now p w) db).0 ≡ ok v
    → Effects u v (finish_upgrade f now (promote now p w) db).1
unfolding finish_upgrade promote save_user delete_devices_of
finish_upgrade-Effects (rejected e left) now p u w v db listed anon alive k h =
    absurd (rejected-ne-ok e v h)
finish_upgrade-Effects written now p u w v db listed anon alive k h =
    rw (← ok-injective _ v h) (record {
      anonymous = anon;
      alive = alive;
      same = k.id;
      registered_now = refl;
      bumped = rw k.version refl;
      stored = In-replace_user _ u db.users listed (sym k.id);
      unique = λ x i same. rw (replace_user_self _ x db.users i same) refl;
      unlinked = λ x i same. not_self x.user_id w.id (In-keep _ x db.devices i) same;
    })

upgrade_with-Effects :
    (d : Driver) (now : ℕ) (p : UpgradePayload) (u v : User) (r : Outcome User) (db : Database)
    → In u db.users
    → u.account_type ≡ autoreg
    → u.deleted_at ≡ none
    → ((w : User) → r ≡ ok w → Keeps u w)
    → (upgrade_with d now p r db).0 ≡ ok v
    → Effects u v (upgrade_with d now p r db).1
unfolding upgrade_with
upgrade_with-Effects d now p u v (err e) db listed anon alive k h = absurd (err-ne-ok e v h)
upgrade_with-Effects d now p u v (ok w) db listed anon alive k h =
    finish_upgrade-Effects _ now p u w v db listed anon alive (k w refl) h

upgrade_found-Effects :
    (d : Driver) (now : ℕ) (salt uid : String) (p : UpgradePayload) (v : User) (r : Outcome User)
    (db : Database)
    → ((u : User) → r ≡ ok u → In u db.users × (u.deleted_at ≡ none))
    → (upgrade_found d now salt uid p r db).0 ≡ ok v
    → (u : User) × (r ≡ ok u) × In u db.users × Effects u v (upgrade_found d now salt uid p r db).1
unfolding upgrade_found
upgrade_found-Effects d now salt uid p v (err e) db known h = absurd (err-ne-ok e v h)
upgrade_found-Effects d now salt uid p v (ok u) db known h =
    elim (Bool-cases (is_autoreg u.account_type)) [
      | inl anon ↦ (
        u,
        refl,
        (known u refl).0,
        rw anon (
            upgrade_with-Effects d now p u v _ db (known u refl).0
              (is_autoreg-eq u.account_type anon) (known u refl).1
              (λ w e. attach-Keeps d now salt uid p.method p u w db e) (rw anon at h)),
      )
      | inr done ↦ absurd (err-ne-ok (conflict "Account already upgraded") v (rw done at h))
    ]

-- An upgrade that succeeds was of a live anonymous account with the caller's id. The stored account
-- is registered under the same id with its token version raised by one, and no device is linked to
-- it any more.
pub upgrade_account-Effects :
    (d : Driver) (now : ℕ) (salt uid : String) (p : UpgradePayload) (v : User) (db : Database)
    → IsQuery d.find_user
    → (upgrade_account d now salt uid p db).0 ≡ ok v
    → (u : User) × (find_by_id d uid db ≡ ok u)
      × In u db.users
      × Effects u v (upgrade_account d now salt uid p db).1
unfolding upgrade_account
upgrade_account-Effects d now salt uid p v db q h =
    upgrade_found-Effects d now salt uid p v _ db
      (λ u e. let (listed, alive, _) = find_by_id-eq-ok d uid db u q e in (listed, alive)) h

-- After an upgrade no fingerprint leads back to the account: whatever device registers next,
-- with a fresh id other than the account's, gets another account.
pub upgrade-closes_fingerprint :
    (d e : Driver) (now : ℕ) (salt uid : String) (p : UpgradePayload) (v : User) (db : Database)
    (f : Fresh) (reg : AutoregPayload) (r : AutoregResult)
    → IsQuery d.find_user
    → IsQuery e.find_user
    → IsQuery e.find_device
    → (upgrade_account d now salt uid p db).0 ≡ ok v
    → f.user_id ≢ v.id
    → (create_autoreg_user e f reg (upgrade_account d now salt uid p db).1).0 ≡ ok r
    → r.id ≢ v.id
upgrade-closes_fingerprint d e now salt uid p v db f reg r q qu qd up ne h same =
    let (u, _, _, eff) = upgrade_account-Effects d now salt uid p v db q up in
    leads_elsewhere (create_autoreg_user-Origin e f reg _ r qu qd h) eff.unlinked
  where
    leads_elsewhere :
        {b a : Database}
        → Origin f reg b r a
        → ((x : Device) → In x b.devices → x.user_id ≢ v.id)
        → ⊥
    leads_elsewhere (fresh i _ _) un = ne (sym i ∙ same)
    leads_elsewhere (linked x w listed _ _ owner _ _ _ _ _) un = un x listed (owner ∙ same)
