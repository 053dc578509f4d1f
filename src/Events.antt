-- ===== src/Events.antt =====
-- libs/common/src/events/schemas.ts: the guard of the `user.deleted` payload.
pub mod Typed
use nestjs_microservice_mono.Prelude.{
  String, ◌≡◌, refl, true, Option, none, some, ◌==◌, or_else, truthy, Bool-cases, inl, inr,
}
use nestjs_microservice_mono.Json.{Json, undefined, obj, property, nonempty_string}
use nestjs_microservice_mono.Entities.{User}
use nestjs_microservice_mono.Users.Profile.{user_deleted}

-- `parseUserDeleted`: an array or a Buffer, a Date or an Error is an object without the property.
unfoldable pub parse_user_deleted : Json → Option String
parse_user_deleted (obj fs) = nonempty_string (or_else (property "userId" fs) undefined)
parse_user_deleted _ = none

-- The payload that `deleteUser` stages is the event of the account's id, if that is not empty.
pub parse_user_deleted-user_deleted :
    (u : User)
    → truthy (some u.id) ≡ true
    → parse_user_deleted (obj (user_deleted u).payload) ≡ some u.id
unfolding parse_user_deleted user_deleted
parse_user_deleted-user_deleted u named = elim (Bool-cases (u.id == "")) [
  | inl empty ↦ cc (rw empty at named)
  | inr other ↦ rw other refl
]
