-- ===== src/Users/Upgrade.antt =====
-- `upgradeAccount`: an anonymous account gets an email or an OAuth identity.
pub mod Effects
pub mod Links
use nestjs_microservice_mono.Prelude.{
  ℕ, ◌+◌, String, Bool, true, false, not, ◌&&◌, Option, none, some, [], ◌∷◌, ◌++◌, ◌==◌, truthy,
  or_else, or_option, if◌then◌else◌,
}
use nestjs_microservice_mono.Json.{Fields, str, field, end}
use nestjs_microservice_mono.Errors.Defs.{
  Thrown, Outcome, ok, err, conflict, bad_request, exception,
}
use nestjs_microservice_mono.Entities.{
  User, OAuthProvider, Database, registered, is_autoreg, version, holds, has_link, save_user,
  delete_devices_of,
}
use nestjs_microservice_mono.Driver.{Driver, Flush, written, rejected}
use nestjs_microservice_mono.DuplicateKey.{is_duplicate_key_error}
use nestjs_microservice_mono.Users.Common.{email_taken, find_by_id}

-- `method: 'email' | 'google' | 'apple' | 'vk' | 'yandex'`
pub data UpgradeMethod : Type 0 where
  by_email : UpgradeMethod
  by_provider : OAuthProvider → UpgradeMethod

pub record UpgradePayload : Type 0 where
  pub method : UpgradeMethod
  pub email : Option String
  pub password : Option String
  pub name : Option String
  pub provider_user_id : Option String

abbrev pub oauth_collision : User → Thrown
oauth_collision clash =
    exception 409 "oauth_collision" "OAuth identity already linked to another account"
      (some (field "conflictingUserId" (str clash.id) end))

-- `existing && existing.id !== userId`
abbrev pub is_other : Option User → String → Bool
is_other none uid = false
is_other (some v) uid = not (v.id == uid)

pub clash_or : Option User → String → Outcome User → Outcome User
clash_or none uid r = r
clash_or (some v) uid r = if not (v.id == uid) then err (oauth_collision v) else r

unfoldable pub attach_email :
    Driver → String → String → UpgradePayload → User → Database → Outcome User
attach_email d salt uid p u db =
    if truthy p.email && truthy p.password
    then (if is_other (d.find_user (λ v. holds v.email (or_else p.email "")) db.users) uid
        then err email_taken
        else ok (record u {
          email = p.email;
          password_hash = some (d.hash salt (or_else p.password ""));
        }))
    else err (bad_request "Email and password required")

unfoldable pub attach_provider :
    Driver → ℕ → String → OAuthProvider → UpgradePayload → User → Database → Outcome User
unfolding clash_or
attach_provider d now uid provider p u db =
    if truthy p.provider_user_id
    then clash_or (d.find_user (has_link provider (or_else p.provider_user_id "")) db.users) uid (
        ok (record u {
          email = or_option p.email u.email;
          oauth_links =
              u.oauth_links
              ++ record {
                provider = provider;
                provider_user_id = or_else p.provider_user_id "";
                email = p.email;
                linked_at = now;
              }
                ∷ [];
        }))
    else err (bad_request "providerUserId required for OAuth upgrade")

unfoldable pub attach :
    Driver → ℕ → String → String → UpgradeMethod → UpgradePayload → User → Database → Outcome User
unfolding attach_email attach_provider
attach d now salt uid by_email p u db = attach_email d salt uid p u db
attach d now salt uid (by_provider provider) p u db = attach_provider d now uid provider p u db

-- The fields that every upgrade sets.
unfoldable pub promote : ℕ → UpgradePayload → User → User
promote now p u = record u {
  name = if truthy p.name then p.name else u.name;
  account_type = registered;
  upgraded_at = some now;
  token_version = some (version u + 1);
}

-- The flush, with a violated email index told as 409, and the devices' removal after it.
unfoldable pub finish_upgrade : Flush → ℕ → User → Database → Outcome User × Database
finish_upgrade (rejected e left) now u db =
    (if is_duplicate_key_error e (some "email") then err email_taken else err e, left)
finish_upgrade written now u db =
    (ok (record u { updated_at = now }), delete_devices_of u.id (save_user now u db))

unfoldable pub upgrade_with :
    Driver → ℕ → UpgradePayload → Outcome User → Database → Outcome User × Database
upgrade_with d now p (err e) db = (err e, db)
upgrade_with d now p (ok u) db =
    let v = promote now p u in finish_upgrade (d.flush db (save_user now v db)) now v db

unfoldable pub upgrade_found :
    Driver
    → ℕ
    → String
    → String
    → UpgradePayload
    → Outcome User
    → Database
    → Outcome User × Database
upgrade_found d now salt uid p (err e) db = (err e, db)
upgrade_found d now salt uid p (ok u) db =
    if is_autoreg u.account_type
    then upgrade_with d now p (attach d now salt uid p.method p u db) db
    else (err (conflict "Account already upgraded"), db)

unfoldable pub upgrade_account :
    Driver → ℕ → String → String → UpgradePayload → Database → Outcome User × Database
unfolding upgrade_found upgrade_with finish_upgrade
upgrade_account d now salt uid p db = upgrade_found d now salt uid p (find_by_id d uid db) db
