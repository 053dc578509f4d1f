-- ===== src/History/Accounts.antt =====
-- Registration, OAuth and the upgrade keep a stable property of an account's documents.
use nestjs_microservice_mono.Prelude.{
  ℕ, String, ◌≡◌, ◌≢◌, refl, ap, Bool, false, ◌&&◌, Option, none, some, In, inl, inr, arith, truthy,
  or_else, Bool-cases,
}
use nestjs_microservice_mono.Errors.Defs.{Outcome, ok, err}
use nestjs_microservice_mono.Entities.{
  User, Device, Database, version, new_user, save_user, save_device, delete_device,
  delete_devices_of, is_autoreg, is_live,
}
use nestjs_microservice_mono.Driver.{Driver, Flush, written, rejected, IsQuery}
use nestjs_microservice_mono.Users.Common.{is_live-eq, and-true}
use nestjs_microservice_mono.Users.Autoreg.{
  Fresh, AutoregPayload, with_new_account, create_account, use_device, use_linked, return_account,
}
use nestjs_microservice_mono.Users.Upgrade.{
  UpgradePayload, upgrade_found, upgrade_with, finish_upgrade, promote,
}
use nestjs_microservice_mono.Users.Upgrade.Effects.{Keeps, attach-Keeps}
use nestjs_microservice_mono.Users.OAuth.{
  OAuthPayload, create_oauth_user, new_oauth_user, with_oauth_user, store_created, merged,
  merge_or_create, linked_or,
}
use nestjs_microservice_mono.History.{IsFlush}
use nestjs_microservice_mono.History.Holds.{
  Holds, Write, IsStable, Holds-flush, Holds-after_flush, Holds-save_user, Holds-append,
}

promote-Write :
    (now : ℕ) (p : UpgradePayload) (u w : User)
    → u.deleted_at ≡ none
    → Keeps u w
    → Write u (promote now p w)
unfolding promote
promote-Write now p u w alive k =
    let e : version w ≡ version u = ap (λ o. or_else o 0) k.version in
    record { id = k.id; live = alive; raises = omega arith }

-- What a query for live accounts finds is stored, and live.
pub live_found :
    (d : Driver)
    → IsQuery d.find_user
    → (f : User → Bool) (db : Database) (u : User)
    → d.find_user (λ v. f v && is_live v) db.users ≡ some u
    → In u db.users × (u.deleted_at ≡ none)
live_found d q f db u e =
    let (listed, match) = q.found _ db.users u e in
    (listed, is_live-eq u (and-true (f u) (is_live u) match).1)

module _ (d : Driver) (law : IsFlush d.flush) (i : String) (P : User → Type 0)
    (stable : IsStable P) where
  -- Registration.
  create_account-Holds :
      (f : Fresh) (p : AutoregPayload) (db : Database)
      → f.user_id ≢ i
      → Holds i P db
      → Holds i P (create_account d f p db).1
  unfolding create_account with_new_account new_user
  create_account-Holds f p db other old =
      Holds-after_flush i P d.flush db _ _ _ law refl old
        (Holds-append i P _ db.users (with_new_account f p db) refl other old)

  use_linked-Holds :
      (f : Fresh) (p : AutoregPayload) (v : Device) (o : Option User) (db : Database)
      → f.user_id ≢ i
      → Holds i P db
      → Holds i P (use_linked d f p v o db).1
  unfolding use_linked return_account save_device delete_device
  use_linked-Holds f p v none db other old =
      create_account-Holds f p (delete_device v.id db) other old
  use_linked-Holds f p v (some u) db other old = elim (Bool-cases (is_autoreg u.account_type)) [
    | inl anon ↦ rw anon (Holds-after_flush i P d.flush db _ _ _ law refl old old)
    | inr done ↦ rw done (create_account-Holds f p (delete_device v.id db) other old)
  ]

  pub use_device-Holds :
      (f : Fresh) (p : AutoregPayload) (o : Option Device) (db : Database)
      → f.user_id ≢ i
      → Holds i P db
      → Holds i P (use_device d f p o db).1
  unfolding use_device
  use_device-Holds f p none db other old = create_account-Holds f p db other old
  use_device-Holds f p (some v) db other old = elim (Bool-cases v.is_blocked) [
    | inl blocked ↦ simp blocked old
    | inr free ↦ simp free (use_linked-Holds f p v _ db other old)
  ]

  -- OAuth.
  store_created-Holds :
      (f : Flush) (u : User) (before after : Database)
      → d.flush before after ≡ f
      → Holds i P before
      → Holds i P after
      → Holds i P (store_created f u after).1
  unfolding store_created
  store_created-Holds written u before after h old new = new
  store_created-Holds (rejected e left) u before after h old new =
      Holds-flush i P d.flush before after left e law h old new

  create_oauth_user-Holds :
      (now : ℕ) (new_id : String) (p : OAuthPayload) (db : Database)
      → new_id ≢ i
      → Holds i P db
      → Holds i P (create_oauth_user d now new_id p db).1
  unfolding create_oauth_user with_oauth_user new_oauth_user new_user
  create_oauth_user-Holds now new_id p db other old =
      store_created-Holds _ _ db _ refl old
        (Holds-append i P _ db.users (with_oauth_user now new_id p db) refl other old)

  merge_or_create-Holds :
      (now : ℕ) (new_id : String) (p : OAuthPayload) (o : Option User) (db : Database)
      → new_id ≢ i
      → ((u : User) → o ≡ some u → In u db.users × (u.deleted_at ≡ none))
      → Holds i P db
      → Holds i P (merge_or_create d now new_id p o db).1
  unfolding merge_or_create
  merge_or_create-Holds now new_id p none db other known old =
      create_oauth_user-Holds now new_id p db other old
  merge_or_create-Holds now new_id p (some u) db other known old =
      Holds-after_flush i P d.flush db _ _ _ law refl old (
        Holds-save_user i P now u (merged now p u) db stable (known u refl).0
          (unfold merged in record { id = refl; live = (known u refl).1; raises = omega arith })
          old)

  pub linked_or-Holds :
      (now : ℕ) (new_id : String) (p : OAuthPayload) (o : Option User) (db : Database)
      → IsQuery d.find_user
      → new_id ≢ i
      → Holds i P db
      → Holds i P (linked_or d now new_id p o db).1
  unfolding linked_or
  linked_or-Holds now new_id p (some u) db q other old = old
  linked_or-Holds now new_id p none db q other old =
      elim (Bool-cases (truthy p.email && or_else p.email_verified false)) [
        | inl sure ↦
            rw sure (merge_or_create-Holds now new_id p _ db other (live_found d q _ db) old)
        | inr unsure ↦ rw unsure (create_oauth_user-Holds now new_id p db other old)
      ]

  -- The upgrade.
  finish_upgrade-Holds :
      (f : Flush) (now : ℕ) (u v : User) (db : Database)
      → d.flush db (save_user now v db) ≡ f
      → In u db.users
      → Write u v
      → Holds i P db
      → Holds i P (finish_upgrade f now v db).1
  unfolding finish_upgrade delete_devices_of
  finish_upgrade-Holds written now u v db h listed kept old =
      Holds-save_user i P now u v db stable listed kept old
  finish_upgrade-Holds (rejected e left) now u v db h listed kept old =
      Holds-flush i P d.flush db _ left e law h old
        (Holds-save_user i P now u v db stable listed kept old)

  upgrade_with-Holds :
      (now : ℕ) (p : UpgradePayload) (u : User) (r : Outcome User) (db : Database)
      → In u db.users
      → u.deleted_at ≡ none
      → ((w : User) → r ≡ ok w → Keeps u w)
      → Holds i P db
      → Holds i P (upgrade_with d now p r db).1
  unfolding upgrade_with
  upgrade_with-Holds now p u (err e) db listed alive keeps old = old
  upgrade_with-Holds now p u (ok w) db listed alive keeps old =
      finish_upgrade-Holds _ now u (promote now p w) db refl listed
        (promote-Write now p u w alive (keeps w refl)) old

  pub upgrade_found-Holds :
      (now : ℕ) (salt uid : String) (p : UpgradePayload) (r : Outcome User) (db : Database)
      → ((u : User) → r ≡ ok u → In u db.users × (u.deleted_at ≡ none))
      → Holds i P db
      → Holds i P (upgrade_found d now salt uid p r db).1
  unfolding upgrade_found
  upgrade_found-Holds now salt uid p (err e) db known old = old
  upgrade_found-Holds now salt uid p (ok u) db known old =
      elim (Bool-cases (is_autoreg u.account_type)) [
        | inl anon ↦ rw anon (
            upgrade_with-Holds now p u _ db (known u refl).0 (known u refl).1
              (λ w e. attach-Keeps d now salt uid p.method p u w db e) old)
        | inr done ↦ rw done old
      ]
