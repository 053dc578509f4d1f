-- ===== src/Users/Autoreg.antt =====
-- `createAutoregUser`: the anonymous account of a device's fingerprint.
pub mod Accounts
pub mod DeadEnds
use nestjs_microservice_mono.Prelude.{
  ℕ, String, Bool, true, false, Option, none, some, [], ◌∷◌, ◌++◌, ◌==◌, truthy, or_else,
  if◌then◌else◌,
}
use nestjs_microservice_mono.Json.{Fields, str, field, end}
use nestjs_microservice_mono.Errors.Defs.{Thrown, Outcome, ok, err, exception}
use nestjs_microservice_mono.Entities.{
  User, Device, Database, Platform, android, is_autoreg, version, new_user, new_device, save_device,
  delete_device,
}
use nestjs_microservice_mono.Driver.{Driver}
use nestjs_microservice_mono.Users.Common.{after_flush}

pub record AutoregPayload : Type 0 where
  pub fingerprint : String
  pub platform : Option Platform
  pub ip_hash : Option String

pub record AutoregResult : Type 0 where
  pub id : String
  pub device_record_id : String
  pub token_version : ℕ

-- The clock and the ObjectIds that the call generates.
pub record Fresh : Type 0 where
  pub now : ℕ
  pub user_id : String
  pub device_id : String

abbrev pub device_blocked : Device → Thrown
device_blocked v =
    exception 403 "device_blocked" "This device is blocked"
      (some (field "reason" (str (or_else v.blocked_reason "policy_violation")) end))

unfoldable pub with_new_account : Fresh → AutoregPayload → Database → Database
unfolding new_user new_device
with_new_account f p db = record db {
  users = db.users ++ new_user f.user_id f.now ∷ [];
  devices =
      db.devices
      ++ new_device f.device_id p.fingerprint (or_else p.platform android) f.user_id p.ip_hash f.now
        ∷ [];
}

-- The end of the method: a fresh user with its device.
unfoldable pub create_account :
    Driver → Fresh → AutoregPayload → Database → Outcome AutoregResult × Database
unfolding after_flush
create_account d f p db =
    after_flush (d.flush db (with_new_account f p db))
      (record { id = f.user_id; device_record_id = f.device_id; token_version = 0 })
      (with_new_account f p db)

-- `existing.lastSeenAt = new Date(); if (payload.ipHash) existing.lastIpHash = payload.ipHash;`
unfoldable pub seen : Fresh → AutoregPayload → Device → Device
seen f p v = record v {
  last_seen_at = f.now;
  last_ip_hash = if truthy p.ip_hash then p.ip_hash else v.last_ip_hash;
}

unfoldable pub return_account :
    Driver → Fresh → AutoregPayload → Device → User → Database → Outcome AutoregResult × Database
unfolding after_flush save_device seen
return_account d f p v u db =
    after_flush (d.flush db (save_device f.now (seen f p v) db))
      (record { id = v.user_id; device_record_id = v.id; token_version = version u })
      (save_device f.now (seen f p v) db)

-- A device row that points at no user, or at an upgraded one, is stale.
unfoldable pub use_linked :
    Driver
    → Fresh
    → AutoregPayload
    → Device
    → Option User
    → Database
    → Outcome AutoregResult × Database
use_linked d f p v none db = create_account d f p (delete_device v.id db)
use_linked d f p v (some u) db =
    if is_autoreg u.account_type
    then return_account d f p v u db
    else create_account d f p (delete_device v.id db)

unfoldable pub use_device :
    Driver → Fresh → AutoregPayload → Option Device → Database → Outcome AutoregResult × Database
use_device d f p none db = create_account d f p db
use_device d f p (some v) db =
    if v.is_blocked
    then (err (device_blocked v), db)
    else use_linked d f p v (d.find_user (λ u. u.id == v.user_id) db.users) db

unfoldable pub create_autoreg_user :
    Driver → Fresh → AutoregPayload → Database → Outcome AutoregResult × Database
create_autoreg_user d f p db =
    use_device d f p (d.find_device (λ v. v.fingerprint == p.fingerprint) db.devices) db
