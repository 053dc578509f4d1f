-- ===== src/Tests/Histories.antt =====
-- The theorem on histories of operations at a concrete history.
use nestjs_microservice_mono.Prelude.{
  String, ◌≡◌, refl, ap, eq_iff, or_else, Option, none, some, [], inl, inr, In, arith, ◌⊎◌,
}
use mathlib.Core.Bool.{false≢true}
use nestjs_microservice_mono.Json.{end}
use nestjs_microservice_mono.Errors.Defs.{Thrown, ok, err}
use nestjs_microservice_mono.Errors.Transport.{bare}
use nestjs_microservice_mono.Entities.{User, OutboxEvent, Database}
use nestjs_microservice_mono.Driver.{rejected}
use nestjs_microservice_mono.Users.Password.{forgot_password, reset_password}
use nestjs_microservice_mono.Users.Password.Cycle.{IsUnused, reset_password-mailed}
use nestjs_microservice_mono.Users.Common.{find_by_id, user_not_found}
use nestjs_microservice_mono.Users.Upgrade.{UpgradePayload, by_email, upgrade_account}
use nestjs_microservice_mono.Users.Profile.{UpdateUserInput, update_user, delete_user}
use nestjs_microservice_mono.Gateway.Session.{RefreshRequest, revoked}
use nestjs_microservice_mono.Gateway.Revocation.{refresh_with}
use nestjs_microservice_mono.History.{IsFlush, forgot, delete, here, and_then}
use nestjs_microservice_mono.History.Revoked.{by_reset, refresh-stays_revoked}
use nestjs_microservice_mono.History.Deleted.{delete_user-stays_deleted}
use nestjs_microservice_mono.Tests.{driver, first-IsQuery, ann, anonymous, database}
use nestjs_microservice_mono.Tests.Sessions.{redis, jwt, config, plain}

flush-IsFlush : IsFlush driver.flush
flush-IsFlush = record { partial = partial }
  where
    partial :
        (before after left : Database) (e : Thrown) (u : User)
        → driver.flush before after ≡ rejected e left
        → In u left.users
        → In u before.users ⊎ In u after.users
    partial before after left e u h listed = cc

abbrev reset_database : Database
reset_database = (reset_password driver 800 "salt" "reset" "fresh" database).1

abbrev asked_again : Database
asked_again = (forgot_password driver 810 "again" "ann@example.com" reset_database).db

abbrev deleted : Database
deleted = (delete_user driver 820 "e2" "u1" asked_again).1

abbrev stolen : RefreshRequest
stolen = record {
  user_id = "u1";
  jti = "t1";
  exp = 60;
  device_id = "install-1";
  type_name = "user";
  tv = some 3;
}

refresh-stays_revoked_example :
    refresh_with redis driver plain none jwt config 1000 "t2" stolen deleted [] ≡ (err revoked, [])
unfolding ann nestjs_microservice_mono.Entities.save_user reset_password
    nestjs_microservice_mono.Users.Password.has_expired
    nestjs_microservice_mono.Users.Common.after_flush
refresh-stays_revoked_example =
    refresh-stays_revoked redis driver plain none jwt config 1000 "t2" stolen "u1" database
      reset_database deleted [] (first-IsQuery User) flush-IsFlush (λ p. bare refl) refl
      (by_reset 800 "salt" "reset" "fresh" ann refl refl refl (omega arith) refl)
      (and_then asked_again deleted
        (and_then reset_database asked_again here (forgot 810 "again" "ann@example.com" refl))
        (delete 820 "e2" "u1" refl))

abbrev gone : Database
gone = (delete_user driver 820 "e2" "u1" database).1

abbrev forgotten : Database
forgotten = (forgot_password driver 830 "again" "ann@example.com" gone).db

abbrev renaming : UpdateUserInput
renaming = record {
  name = some (some "Ann");
  tz = none;
  locale = none;
  avatar_url = none;
  onboarding_completed = none;
  rest = end;
}

abbrev by_mail : UpgradePayload
by_mail = record {
  method = by_email;
  email = some "new@example.com";
  password = some "secret";
  name = none;
  provider_user_id = none;
}

delete_user-stays_deleted_example :
    (find_by_id driver "u1" forgotten ≡ err user_not_found)
    × (update_user driver 840 "u1" renaming forgotten ≡ (err user_not_found, forgotten))
    × (delete_user driver 840 "e3" "u1" forgotten ≡ (err user_not_found, forgotten))
    × (upgrade_account driver 840 "salt" "u1" by_mail forgotten ≡ (err user_not_found, forgotten))
unfolding delete_user find_by_id ann nestjs_microservice_mono.Users.Common.after_flush
delete_user-stays_deleted_example =
    delete_user-stays_deleted driver 820 "e2" "u1" "u1" database forgotten 840 "salt" "e3" renaming
      by_mail (first-IsQuery User) (first-IsQuery OutboxEvent) flush-IsFlush refl refl
      (and_then gone forgotten here (forgot 830 "again" "ann@example.com" refl))

database-IsUnused : IsUnused driver "fresh" database
unfolding ann anonymous
database-IsUnused u (inl e) =
    rw e (λ h. false≢true ((eq_iff "reset" "fresh").1 (ap (λ (o : Option String). or_else o "") h)))
database-IsUnused u (inr (inl e)) = rw e (λ h. cc)
database-IsUnused u (inr (inr i)) = elim i [ ]

reset_password-mailed_example :
    (reset_password driver 1000 "salt" "fresh" "renewed"
      (forgot_password driver 700 "fresh" "ann@example.com" database).db).0
    ≡ ok tt
unfolding forgot_password ann
reset_password-mailed_example =
    reset_password-mailed driver 700 1000 "salt" "fresh" "ann@example.com" "renewed" database
      (record { to = "ann@example.com"; token = "fresh" }) (first-IsQuery User) database-IsUnused
      (λ a. refl) refl (omega arith)
