-- ===== src/Gateway/Profile.antt =====
-- apps/gateway/src/modules/users/users.controller.ts over the handlers of
-- apps/user/src/modules/users/users.controller.ts that it calls.
pub mod Reads
use nestjs_microservice_mono.Prelude.{ℕ, String, Option}
use nestjs_microservice_mono.Errors.Defs.{Thrown, Outcome, ok, err}
use nestjs_microservice_mono.Errors.Client.{Reply, returns, throws, send}
use nestjs_microservice_mono.Entities.{User, Database}
use nestjs_microservice_mono.Driver.{Driver}
use nestjs_microservice_mono.Users.Common.{find_by_id}
use nestjs_microservice_mono.Users.Profile.{
  UpdateUserInput, UserDto, to_dto, update_user, delete_user,
}
use nestjs_microservice_mono.Gateway.Revocation.{observe}
use nestjs_microservice_mono.Gateway.Flows.{Session}

-- `getUserById`
abbrev pub dto_or_error : Outcome User → Outcome UserDto
dto_or_error (ok u) = ok (to_dto u)
dto_or_error (err e) = err e

unfoldable pub get_user_by_id : Driver → String → Database → Outcome UserDto
get_user_by_id d uid db = dto_or_error (find_by_id d uid db)

-- The awaited call.
abbrev pub await : {A : Type 0} → Reply A → Outcome A
await (returns a) = ok a
await (throws e) = err e

abbrev pub call : {A : Type 0} → Session → Outcome A → Outcome A
call s o = await (send "user" (observe s.deliver s.trace o))

unfoldable pub get_me : Session → Driver → String → Database → Outcome UserDto
unfolding get_user_by_id
get_me s d uid db = call s (get_user_by_id d uid db)

-- `updateUser` passes on the body without its e-mail, passwords and token.
unfoldable pub update_me :
    Session → Driver → String → UpdateUserInput → Database → Outcome UserDto × Database
unfolding update_user
update_me s d uid input db = let (r, after) = update_user d s.now uid input db in (call s r, after)

-- `deleteUser` answers `{ success: true }`.
unfoldable pub delete_me :
    Session → Driver → String → String → Database → Outcome (Unit {0}) × Database
unfolding delete_user
delete_me s d event_id uid db =
    let (r, after) = delete_user d s.now event_id uid db in (call s r, after)
