-- ===== src/Users/Login.antt =====
-- `login`: email and password.
pub mod Verdicts
use nestjs_microservice_mono.Prelude.{
  ℕ, String, Bool, true, false, not, ◌&&◌, ◌||◌, Option, none, some, truthy, or_else, if◌then◌else◌,
}
use nestjs_microservice_mono.Errors.Codes
use nestjs_microservice_mono.Errors.Defs.{Thrown, Outcome, ok, err, exception}
use nestjs_microservice_mono.Entities.{User, Database, holds, is_live}
use nestjs_microservice_mono.Driver.{Driver}
use nestjs_microservice_mono.Users.Common.{Identity, identity}

abbrev pub dummy_argon2_hash : String
dummy_argon2_hash =
    "$argon2id$v=19$m=65536,t=3,p=4$B1s61iTQ08nOuxDcmd0vuA$rmWDDrZq9l6brSGdOr5p34voo0slFj31ajurPq49ETI"

abbrev pub invalid_credentials : Thrown
invalid_credentials = exception 401 Codes.token_invalid "Invalid credentials" none

-- `user?.passwordHash`
abbrev pub hash_of : Option User → Option String
hash_of none = none
hash_of (some u) = u.password_hash

-- A verification that throws counts as failed.
unfoldable pub password_valid : Driver → Option User → String → Bool
password_valid d o password =
    or_else (d.verify (or_else (hash_of o) dummy_argon2_hash) password) false

unfoldable pub admit : Option User → Bool → Outcome Identity
admit none valid = err invalid_credentials
admit (some u) valid =
    if not (truthy u.password_hash) || not valid then err invalid_credentials else ok (identity u)

unfoldable pub find_login : Driver → String → Database → Option User
find_login d email db = d.find_user (λ u. holds u.email email && is_live u) db.users

unfoldable pub login : Driver → String → String → Database → Outcome Identity
unfolding admit password_valid find_login
login d email password db = let o = find_login d email db in admit o (password_valid d o password)
