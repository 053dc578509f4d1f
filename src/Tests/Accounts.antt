-- ===== src/Tests/Accounts.antt =====
-- The user service's theorems at concrete inputs.
use nestjs_microservice_mono.Prelude.{
  ◌≡◌, ◌≢◌, refl, true, none, some, [], ◌∷◌, inl, inr, In, arith, sym, ap, ◌∙◌, differ-absurd,
}
use nestjs_microservice_mono.Json.{num, str, field, end}
use nestjs_microservice_mono.Errors.Defs.{ok, err}
use nestjs_microservice_mono.Entities.{
  User, Device, Database, registered, OutboxEvent, save_user, delete_devices_of, vk, autoreg,
}
use nestjs_microservice_mono.Users.Common.{identity, after_flush, find_by_id, user_not_found}
use nestjs_microservice_mono.Users.Autoreg.{
  AutoregPayload, AutoregResult, Fresh, create_autoreg_user, use_device, use_linked, return_account,
  create_account,
}
use nestjs_microservice_mono.Users.Autoreg.Accounts.{Origin, create_autoreg_user-Origin}
use nestjs_microservice_mono.Users.Autoreg.DeadEnds.{LeftBehind, create_autoreg_user-IsDeadEnd}
use nestjs_microservice_mono.Users.Login.{
  login, admit, password_valid, find_login, invalid_credentials,
}
use nestjs_microservice_mono.Users.Login.Verdicts.{Admitted, login-Admitted, login-refusal}
use nestjs_microservice_mono.Users.Upgrade.{UpgradePayload, by_email, upgrade_account}
use nestjs_microservice_mono.Users.Upgrade.Effects.{
  Effects, upgrade_account-Effects, upgrade-closes_fingerprint,
}
use nestjs_microservice_mono.Users.OAuth.{OAuthPayload, find_or_create_oauth_user}
use nestjs_microservice_mono.Users.OAuth.Ownership.{Owner, find_or_create_oauth_user-Owner}
use nestjs_microservice_mono.Users.Password.{reset_password, invalid_reset_token}
use nestjs_microservice_mono.Users.Password.Reset.{
  WasReset, reset_password-WasReset, reset_password-IsSingleUse,
}
use nestjs_microservice_mono.Users.Profile.{
  UpdateUserInput, UserDto, update_user, delete_user, to_dto,
}
use nestjs_microservice_mono.Users.Profile.Update.{WasUpdated, update_user-WasUpdated}
use nestjs_microservice_mono.Users.Profile.Deletion.{IsDeleted, WasDeleted, delete_user-WasDeleted}
use nestjs_microservice_mono.Tests.{driver, first-IsQuery, ann, anonymous, phone, database}

abbrev fresh_ids : Fresh
fresh_ids = record { now = 10; user_id = "u3"; device_id = "d3" }

abbrev registration : AutoregPayload
registration = record { fingerprint = "print-2"; platform = none; ip_hash = none }

abbrev returned : AutoregResult
returned = record { id = "u2"; device_record_id = "d2"; token_version = 0 }

create_autoreg_user-Origin_example :
    Origin fresh_ids registration database returned
      (create_autoreg_user driver fresh_ids registration database).1
unfolding create_autoreg_user use_device use_linked return_account after_flush phone ann
create_autoreg_user-Origin_example =
    create_autoreg_user-Origin driver fresh_ids registration database returned (first-IsQuery User)
      (first-IsQuery Device) refl

abbrev blocked_phone : Device
blocked_phone = record phone { is_blocked = true }

abbrev with_blocked : Database
with_blocked = record database { devices = blocked_phone ∷ [] }

only_blocked :
    (w : Device) → In w with_blocked.devices → w.fingerprint ≡ "print-2" → w.is_blocked ≡ true
only_blocked w (inl e) h = rw e refl
only_blocked w (inr i) h = elim i [ ]

login-Admitted_example : Admitted driver "ann@example.com" "secret" database (identity ann)
unfolding login admit password_valid find_login ann
login-Admitted_example =
    login-Admitted driver "ann@example.com" "secret" database (identity ann) (first-IsQuery User)
      refl

login-refusal_example : invalid_credentials ≡ invalid_credentials
unfolding login admit password_valid find_login ann
login-refusal_example =
    login-refusal driver "ann@example.com" "guess" database invalid_credentials refl

abbrev pub to_email : UpgradePayload
to_email = record {
  method = by_email;
  email = some "bob@example.com";
  password = some "word";
  name = none;
  provider_user_id = none;
}

abbrev pub bob : User
bob = record anonymous {
  updated_at = 20;
  account_type = registered;
  email = some "bob@example.com";
  password_hash = some "word";
  upgraded_at = some 20;
  token_version = some 1;
}

upgrade_account-Effects_example :
    (u : User) × (find_by_id driver "u2" database ≡ ok u)
    × In u database.users
    × Effects u bob (upgrade_account driver 20 "salt" "u2" to_email database).1
unfolding upgrade_account find_by_id ann nestjs_microservice_mono.Users.Upgrade.attach
    nestjs_microservice_mono.Users.Upgrade.promote
upgrade_account-Effects_example =
    upgrade_account-Effects driver 20 "salt" "u2" to_email bob database (first-IsQuery User) refl

abbrev again : AutoregResult
again = record { id = "u3"; device_record_id = "d3"; token_version = 0 }

upgrade-closes_fingerprint_example : again.id ≢ bob.id
unfolding upgrade_account find_by_id ann nestjs_microservice_mono.Users.Upgrade.attach
    nestjs_microservice_mono.Users.Upgrade.promote create_autoreg_user use_device delete_devices_of
    save_user phone create_account
upgrade-closes_fingerprint_example =
    upgrade-closes_fingerprint driver driver 20 "salt" "u2" to_email bob database fresh_ids
      registration again (first-IsQuery User) (first-IsQuery User) (first-IsQuery Device) refl
      (differ-absurd "u3" "u2" refl) refl

abbrev identity_77 : OAuthPayload
identity_77 = record {
  provider = vk;
  provider_user_id = "77";
  email = some "eve@example.com";
  email_verified = some true;
  name = none;
}

find_or_create_oauth_user-Owner_example :
    Owner "u4" identity_77 database
      (identity ann)
      (find_or_create_oauth_user driver 20 "u4" identity_77 database).1
unfolding find_or_create_oauth_user ann
find_or_create_oauth_user-Owner_example =
    find_or_create_oauth_user-Owner driver 20 "u4" identity_77 database (identity ann)
      (first-IsQuery User) refl

reset_password-WasReset_example :
    WasReset driver 800 "salt" "reset" "fresh" database
      (reset_password driver 800 "salt" "reset" "fresh" database).1
unfolding reset_password ann nestjs_microservice_mono.Users.Password.has_expired after_flush
reset_password-WasReset_example =
    reset_password-WasReset driver 800 "salt" "reset" "fresh" database (first-IsQuery User) refl

only_ann : (v : User) → In v database.users → v.reset_password_token ≡ some "reset" → v.id ≡ "u1"
unfolding ann
only_ann v (inl e) h = rw e refl
only_ann v (inr (inl e)) h = absurd (ground arith)
only_ann v (inr (inr i)) h = elim i [ ]

reset_password-IsSingleUse_example :
    reset_password driver 850 "salt" "reset" "another"
      (reset_password driver 800 "salt" "reset" "fresh" database).1
    ≡ (err invalid_reset_token, (reset_password driver 800 "salt" "reset" "fresh" database).1)
unfolding reset_password ann nestjs_microservice_mono.Users.Password.has_expired after_flush
reset_password-IsSingleUse_example =
    reset_password-IsSingleUse driver driver 800 850 "salt" "salt" "reset" "fresh" "another" "u1"
      database (first-IsQuery User) (first-IsQuery User) refl only_ann refl

abbrev to_moscow : UpdateUserInput
to_moscow = record {
  name = some none;
  tz = some "Europe/Moscow";
  locale = none;
  avatar_url = none;
  onboarding_completed = some true;
  rest = field "tokenVersion" (num 0) (field "passwordHash" (str "x") end);
}

abbrev moved : User
moved = record ann {
  updated_at = 30;
  name = none;
  tz = "Europe/Moscow";
  onboarding_completed = true;
}

update_user-WasUpdated_example :
    WasUpdated driver 30 "u1" to_moscow
      (to_dto moved)
      database
      (update_user driver 30 "u1" to_moscow database).1
unfolding update_user find_by_id ann after_flush nestjs_microservice_mono.Users.Profile.apply_update
    nestjs_microservice_mono.Users.Profile.update_stamp
update_user-WasUpdated_example =
    update_user-WasUpdated driver 30 "u1" to_moscow (to_dto moved) database (first-IsQuery User)
      refl

delete_user-WasDeleted_example :
    (u : User) × (find_by_id driver "u2" database ≡ ok u)
    × WasDeleted 40 u database (delete_user driver 40 "e2" "u2" database).1
unfolding delete_user find_by_id ann after_flush
delete_user-WasDeleted_example =
    delete_user-WasDeleted driver 40 "e2" "u2" database (first-IsQuery User)
      (first-IsQuery OutboxEvent) refl

abbrev gone : User
gone = record anonymous { deleted_at = some 40 }

abbrev after_deletion : Database
after_deletion = record database { users = ann ∷ gone ∷ [] }

not_ann : (w : User) → w ≡ ann → w.id ≡ "u2" → ⊥
unfolding ann
not_ann w e h = differ-absurd "u1" "u2" refl (sym (ap (λ (u : User). u.id) e) ∙ h)

left_behind : LeftBehind "print-2" phone gone after_deletion
unfolding ann anonymous phone
left_behind = record {
  listed = inl refl;
  known = refl;
  only = only;
  free = refl;
  stored = inr (inl refl);
  owner = refl;
  anonymous = still;
  gone = marked;
}
  where
    only : (w : Device) → In w after_deletion.devices → w.fingerprint ≡ "print-2" → w ≡ phone
    only w (inl e) h = e
    only w (inr i) h = elim i [ ]

    still : (w : User) → In w after_deletion.users → w.id ≡ "u2" → w.account_type ≡ autoreg
    still w (inl e) h = absurd (not_ann w e h)
    still w (inr (inl e)) h = rw e refl
    still w (inr (inr i)) h = elim i [ ]

    marked : IsDeleted "u2" after_deletion
    marked w (inl e) h = absurd (not_ann w e h)
    marked w (inr (inl e)) h = rw e (λ x. cc)
    marked w (inr (inr i)) h = elim i [ ]

create_autoreg_user-IsDeadEnd_example :
    (returned.id ≡ phone.user_id)
    × (find_by_id driver "u2" (create_autoreg_user driver fresh_ids registration after_deletion).1
        ≡ err user_not_found)
unfolding create_autoreg_user use_device phone use_linked ann return_account
create_autoreg_user-IsDeadEnd_example =
    create_autoreg_user-IsDeadEnd driver fresh_ids registration phone gone after_deletion returned
      (first-IsQuery User) (first-IsQuery Device) left_behind refl refl
