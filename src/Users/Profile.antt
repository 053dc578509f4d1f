-- ===== src/Users/Profile.antt =====
-- `updateUser`, `deleteUser` and `toDto`.
pub mod Deletion
pub mod Update
use nestjs_microservice_mono.Prelude.{
  ℕ, ◌+◌, String, Bool, true, false, not, ◌&&◌, ◌==◌, Option, none, some, [], ◌∷◌, template,
  or_else, if◌then◌else◌,
}
use nestjs_microservice_mono.Json.{Fields, str, field, end}
use nestjs_microservice_mono.Errors.Defs.{Thrown, Outcome, ok, err}
use nestjs_microservice_mono.Entities.{
  User, Database, AccountType, Locale, ru, en, version, save_user,
}
use nestjs_microservice_mono.Driver.{Driver}
use nestjs_microservice_mono.Outbox.{StageParams, stage_outbox_event}
use nestjs_microservice_mono.Users.Common.{after_flush, find_by_id}

-- The payload's fields, with what else it carries: the handler passes on every key that it does not
-- take out itself. `name?: string | null`: not given, null, or a text.
pub record UpdateUserInput : Type 0 where
  pub name : Option (Option String)
  pub tz : Option String
  pub locale : Option Locale
  pub avatar_url : Option (Option String)
  pub onboarding_completed : Option Bool
  pub rest : Fields

pub record UserDto : Type 0 where
  pub id : String
  pub account_type : AccountType
  pub email : Option String
  pub name : String
  pub tz : String
  pub locale : Locale
  pub avatar_url : Option String
  pub onboarding_completed : Bool
  pub created_at : ℕ
  pub updated_at : ℕ

unfoldable pub to_dto : User → UserDto
to_dto u = record {
  id = u.id;
  account_type = u.account_type;
  email = u.email;
  name = or_else u.name "";
  tz = u.tz;
  locale = u.locale;
  avatar_url = u.avatar_url;
  onboarding_completed = u.onboarding_completed;
  created_at = u.created_at;
  updated_at = u.updated_at;
}

unfoldable pub apply_update : UpdateUserInput → User → User
apply_update i u = record u {
  name = or_else i.name u.name;
  tz = or_else i.tz u.tz;
  locale = or_else i.locale u.locale;
  avatar_url = or_else i.avatar_url u.avatar_url;
  onboarding_completed = or_else i.onboarding_completed u.onboarding_completed;
}

equal_text : Option String → Option String → Bool
equal_text none none = true
equal_text none (some t) = false
equal_text (some s) none = false
equal_text (some s) (some t) = s == t

equal_locale : Locale → Locale → Bool
equal_locale ru ru = true
equal_locale ru en = false
equal_locale en ru = false
equal_locale en en = true

equal_flag : Bool → Bool → Bool
equal_flag b c = if b then c else not c

-- Whether the unit of work has a change set for the document: the fields that an update can write.
unfoldable pub is_unchanged : User → User → Bool
unfolding equal_text equal_locale equal_flag
is_unchanged u v =
    equal_text u.name v.name
    && (u.tz == v.tz
        && (equal_locale u.locale v.locale
            && (equal_text u.avatar_url v.avatar_url
                && equal_flag u.onboarding_completed v.onboarding_completed)))

-- `onUpdate` runs for a change set that is not empty.
unfoldable pub update_stamp : ℕ → User → User → ℕ
unfolding is_unchanged
update_stamp now u v = if is_unchanged u v then u.updated_at else now

-- The entity keeps the stamp that the flush gave it.
unfoldable pub update_found :
    Driver → ℕ → UpdateUserInput → Outcome User → Database → Outcome UserDto × Database
update_found d now i (err e) db = (err e, db)
update_found d now i (ok u) db =
    let at = update_stamp now u (apply_update i u) in
    let after = save_user at (apply_update i u) db in
    after_flush (d.flush db after) (to_dto (record (apply_update i u) { updated_at = at })) after

unfoldable pub update_user :
    Driver → ℕ → String → UpdateUserInput → Database → Outcome UserDto × Database
unfolding update_found
update_user d now uid i db = update_found d now i (find_by_id d uid db) db

-- The soft-deleted document.
unfoldable pub scrub : ℕ → User → User
scrub now u = record u {
  deleted_at = some now;
  email = none;
  password_hash = none;
  reset_password_token = none;
  reset_password_expiry = none;
  token_version = some (version u + 1);
}

unfoldable pub user_deleted : User → StageParams
user_deleted u = record {
  target = "user";
  pattern_key = "user.deleted";
  payload = field "userId" (str u.id) end;
  idempotency_key = template ("user.deleted:" ∷ u.id ∷ []);
}

unfoldable pub delete_found :
    Driver → ℕ → String → Outcome User → Database → Outcome (Unit {0}) × Database
delete_found d now event_id (err e) db = (err e, db)
delete_found d now event_id (ok u) db =
    let staged = (stage_outbox_event d now event_id (user_deleted u) db).1 in
    let after = save_user now (scrub now u) staged in after_flush (d.flush db after) tt after

unfoldable pub delete_user : Driver → ℕ → String → String → Database → Outcome (Unit {0}) × Database
unfolding delete_found
delete_user d now event_id uid db = delete_found d now event_id (find_by_id d uid db) db
