-- ===== src/Entities.antt =====
-- libs/database/src/entities/*.ts and libs/common/src/enums/index.ts: the stored documents. A date
-- is its number of milliseconds, `undefined` is `none`, and `_id` and `id` are one text.
use nestjs_microservice_mono.Prelude.{
  ℕ, String, Bool, false, true, Option, none, some, List, [], ◌∷◌, ◌==◌, any, ◌&&◌, keep, not,
  if◌then◌else◌, or_else,
}
use nestjs_microservice_mono.Json.{Fields}

pub data AccountType : Type 0 where
  autoreg registered : AccountType

pub data Locale : Type 0 where
  ru en : Locale

pub data OAuthProvider : Type 0 where
  google apple vk yandex : OAuthProvider

pub data Platform : Type 0 where
  android ios : Platform

-- The values of the string enums.
abbrev pub provider_name : OAuthProvider → String
provider_name google = "google"
provider_name apple = "apple"
provider_name vk = "vk"
provider_name yandex = "yandex"

abbrev pub account_type_name : AccountType → String
account_type_name autoreg = "autoreg"
account_type_name registered = "user"

pub record OAuthLink : Type 0 where
  pub provider : OAuthProvider
  pub provider_user_id : String
  pub email : Option String
  pub linked_at : ℕ

pub record User : Type 0 where
  pub id : String
  pub created_at : ℕ
  pub updated_at : ℕ
  pub account_type : AccountType
  pub name : Option String
  pub email : Option String
  pub password_hash : Option String
  pub tz : String
  pub locale : Locale
  pub avatar_url : Option String
  pub token_version : Option ℕ
  pub onboarding_completed : Bool
  pub oauth_links : List OAuthLink
  pub upgraded_at : Option ℕ
  pub reset_password_token : Option String
  pub reset_password_expiry : Option ℕ
  pub deleted_at : Option ℕ

pub record Device : Type 0 where
  pub id : String
  pub created_at : ℕ
  pub updated_at : ℕ
  pub fingerprint : String
  pub platform : Platform
  pub user_id : String
  pub last_seen_at : ℕ
  pub last_ip_hash : Option String
  pub attestation_failures : ℕ
  pub is_blocked : Bool
  pub blocked_reason : Option String
  pub blocked_at : Option ℕ

pub data OutboxEventStatus : Type 0 where
  pending sent failed : OutboxEventStatus

pub record OutboxEvent : Type 0 where
  pub id : String
  pub created_at : ℕ
  pub target : String
  pub pattern_key : String
  pub payload : Fields
  pub idempotency_key : String
  pub status : OutboxEventStatus
  pub last_attempt_at : Option ℕ
  pub attempts : ℕ
  pub last_error : Option String

-- The three collections.
pub record Database : Type 0 where
  pub users : List User
  pub devices : List Device
  pub outbox : List OutboxEvent

-- A new User document with the defaults of the entity's properties.
unfoldable pub new_user : String → ℕ → User
new_user i now = record {
  id = i;
  created_at = now;
  updated_at = now;
  account_type = autoreg;
  name = none;
  email = none;
  password_hash = none;
  tz = "UTC";
  locale = ru;
  avatar_url = none;
  token_version = some 0;
  onboarding_completed = false;
  oauth_links = [];
  upgraded_at = none;
  reset_password_token = none;
  reset_password_expiry = none;
  deleted_at = none;
}

-- A new Device document with the defaults of the entity's properties.
unfoldable pub new_device : String → String → Platform → String → Option String → ℕ → Device
new_device i fp platform uid ip_hash now = record {
  id = i;
  created_at = now;
  updated_at = now;
  fingerprint = fp;
  platform = platform;
  user_id = uid;
  last_seen_at = now;
  last_ip_hash = ip_hash;
  attestation_failures = 0;
  is_blocked = false;
  blocked_reason = none;
  blocked_at = none;
}

abbrev pub is_autoreg : AccountType → Bool
is_autoreg autoreg = true
is_autoreg registered = false

abbrev pub is_some {ℓ} : {A : Type ℓ} → Option A → Bool
is_some none = false
is_some (some a) = true

-- `user.tokenVersion ?? 0`
abbrev pub version : User → ℕ
version u = or_else u.token_version 0

-- Filters of the queries: `{ email }`, `{ oauthLinks: { $elemMatch: … } }`, `{ deletedAt: null }`,
-- `{ resetPasswordToken }`.
abbrev pub holds : Option String → String → Bool
holds none t = false
holds (some s) t = s == t

abbrev pub has_link : OAuthProvider → String → User → Bool
has_link p i u =
    any (λ l. (provider_name l.provider == provider_name p) && l.provider_user_id == i)
      u.oauth_links

abbrev pub is_live : User → Bool
is_live u = not (is_some u.deleted_at)

-- The collection with every document of the entity's `_id` written as the entity is.
module _ where
  unfoldable pub replace_user : User → List User → List User
  replace_user u [] = []
  replace_user u (v ∷ vs) = (if v.id == u.id then u else v) ∷ replace_user u vs

  unfoldable pub replace_device : Device → List Device → List Device
  replace_device d [] = []
  replace_device d (x ∷ xs) = (if x.id == d.id then d else x) ∷ replace_device d xs

  unfoldable pub replace_event : OutboxEvent → List OutboxEvent → List OutboxEvent
  replace_event r [] = []
  replace_event r (x ∷ xs) = (if x.id == r.id then r else x) ∷ replace_event r xs

-- `em.flush()` of a changed User: the `onUpdate` hook stamps `updatedAt`. Where the change set may be
-- empty, as in `updateUser`, the caller passes the stamp that the document has; every other caller
-- changes a field.
unfoldable pub save_user : ℕ → User → Database → Database
save_user now u db = record db { users = replace_user (record u { updated_at = now }) db.users }

unfoldable pub save_device : ℕ → Device → Database → Database
save_device now d db = record db {
  devices = replace_device (record d { updated_at = now }) db.devices;
}

-- `em.nativeDelete(Device, { userId })` and `em.nativeDelete(Device, { _id })`.
unfoldable pub delete_devices_of : String → Database → Database
delete_devices_of uid db = record db { devices = keep (λ d. not (d.user_id == uid)) db.devices }

unfoldable pub delete_device : String → Database → Database
delete_device i db = record db { devices = keep (λ d. not (d.id == i)) db.devices }

-- `em.nativeDelete(User, { _id })`
unfoldable pub delete_user_row : String → Database → Database
delete_user_row uid db = record db { users = keep (λ u. not (u.id == uid)) db.users }
