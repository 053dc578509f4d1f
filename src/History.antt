-- ===== src/History.antt =====
-- The operations on the database, one after the other in any order: those of
-- apps/user/src/modules/users/users.service.ts, the sweep of the outbox, and the purge task.
pub mod Holds
pub mod Accounts
pub mod Steps
pub mod Revoked
pub mod Deleted
use nestjs_microservice_mono.Prelude.{ℕ, String, Bool, ◌≡◌, ◌≢◌, ◌⊎◌, List, In}
use nestjs_microservice_mono.Errors.Defs.{Thrown, Outcome}
use nestjs_microservice_mono.Entities.{User, OutboxEvent, Database}
use nestjs_microservice_mono.Driver.{Driver, Flush, rejected}
use nestjs_microservice_mono.Users.Autoreg.{Fresh, AutoregPayload, create_autoreg_user}
use nestjs_microservice_mono.Users.Upgrade.{UpgradePayload, upgrade_account}
use nestjs_microservice_mono.Users.OAuth.{OAuthPayload, find_or_create_oauth_user}
use nestjs_microservice_mono.Users.Password.{forgot_password, reset_password}
use nestjs_microservice_mono.Users.Profile.{UpdateUserInput, update_user, delete_user}
use nestjs_microservice_mono.Outbox.{Dispatcher, sweep}
use nestjs_microservice_mono.Purge.{Deletes, IsFind, purge_users}

-- A flush that rejects leaves each document as it was or as it was to be.
pub record IsFlush (flush : Database → Database → Flush) : Type 0 where
  pub partial :
      (before after left : Database) (e : Thrown) (u : User)
      → flush before after ≡ rejected e left
      → In u left.users
      → In u before.users ⊎ In u after.users

-- One operation, where no new account gets the given id.
pub data Step (d : Driver) (i : String) (a b : Database) : Type 0 where
  register :
      (f : Fresh) (p : AutoregPayload)
      → f.user_id ≢ i
      → b ≡ (create_autoreg_user d f p a).1
      → Step d i a b
  promotion :
      (now : ℕ) (salt uid : String) (p : UpgradePayload)
      → b ≡ (upgrade_account d now salt uid p a).1
      → Step d i a b
  oauth :
      (now : ℕ) (new_id : String) (p : OAuthPayload)
      → new_id ≢ i
      → b ≡ (find_or_create_oauth_user d now new_id p a).1
      → Step d i a b
  forgot :
      (now : ℕ) (token email : String) → b ≡ (forgot_password d now token email a).db → Step d i a b
  reset :
      (now : ℕ) (salt token password : String)
      → b ≡ (reset_password d now salt token password a).1
      → Step d i a b
  update :
      (now : ℕ) (uid : String) (input : UpdateUserInput)
      → b ≡ (update_user d now uid input a).1
      → Step d i a b
  delete :
      (now : ℕ) (event_id uid : String) → b ≡ (delete_user d now event_id uid a).1 → Step d i a b
  dispatch :
      (find : List OutboxEvent → List OutboxEvent) (now : ℕ)
      (publish : OutboxEvent → Outcome (Unit {0})) (self : Dispatcher)
      → b ≡ (sweep d find now publish a self).1
      → Step d i a b
  purge :
      (find : (User → Bool) → List User → List User) (sub_days : ℕ → ℕ → ℕ)
      (fate : String → Deletes) (now : ℕ)
      → b ≡ (purge_users find sub_days fate now a).1
      → Step d i a b

-- Any number of operations.
pub data Reach (d : Driver) (i : String) (a : Database) : Database → Type 0 where
  here : Reach d i a a
  and_then : (b c : Database) → Reach d i a b → Step d i b c → Reach d i a c
