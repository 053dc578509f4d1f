-- ===== src/Users/Password.antt =====
-- `forgotPassword` and `resetPassword`. The e-mail is an output; its dispatch never fails the call.
pub mod Reset
pub mod Cycle
use nestjs_microservice_mono.Prelude.{
  ℕ, ◌+◌, ◌*◌, String, Bool, true, false, ◌&&◌, Option, none, some, ltb, if◌then◌else◌,
}
use nestjs_microservice_mono.Errors.Codes
use nestjs_microservice_mono.Errors.Defs.{Thrown, Outcome, ok, err, exception}
use nestjs_microservice_mono.Entities.{User, Database, version, holds, is_live, save_user}
use nestjs_microservice_mono.Driver.{Driver, Flush, written, rejected}
use nestjs_microservice_mono.Users.Common.{after_flush}

-- `sendPasswordReset(email, token)`
pub record Mail : Type 0 where
  pub to : String
  pub token : String

-- 60 * 60 * 1000 ms
abbrev pub one_hour : ℕ
one_hour = 3600000

unfoldable pub with_reset_token : Driver → ℕ → String → User → User
with_reset_token d now token u = record u {
  reset_password_token = some (d.sha256 token);
  reset_password_expiry = some (now + one_hour);
}

pub record Forgot : Type 0 where
  pub result : Outcome (Unit {0})
  pub db : Database
  pub mail : Option Mail

unfoldable pub mail_after : Flush → String → String → Database → Forgot
mail_after written email token db = record {
  result = ok tt;
  db = db;
  mail = some (record { to = email; token = token });
}
mail_after (rejected e left) email token db = record { result = err e; db = left; mail = none }

unfoldable pub forgot_found : Driver → ℕ → String → String → Option User → Database → Forgot
forgot_found d now email token none db = record { result = ok tt; db = db; mail = none }
forgot_found d now email token (some u) db =
    let after = save_user now (with_reset_token d now token u) db in
    mail_after (d.flush db after) email token after

-- `token` is the text of the 32 random bytes.
unfoldable pub forgot_password : Driver → ℕ → String → String → Database → Forgot
unfolding mail_after forgot_found
forgot_password d now token email db =
    forgot_found d now email token (d.find_user (λ u. holds u.email email && is_live u) db.users) db

abbrev pub invalid_reset_token : Thrown
invalid_reset_token = exception 401 Codes.token_invalid "Invalid or expired reset token" none

-- `!user.resetPasswordExpiry || user.resetPasswordExpiry < new Date()`
unfoldable pub has_expired : Option ℕ → ℕ → Bool
has_expired none now = true
has_expired (some t) now = ltb t now

unfoldable pub with_password : Driver → String → String → User → User
with_password d salt password u = record u {
  password_hash = some (d.hash salt password);
  reset_password_token = none;
  reset_password_expiry = none;
  token_version = some (version u + 1);
}

unfoldable pub reset_found :
    Driver → ℕ → String → String → Option User → Database → Outcome (Unit {0}) × Database
reset_found d now salt password none db = (err invalid_reset_token, db)
reset_found d now salt password (some u) db =
    let after = save_user now (with_password d salt password u) db in
    let done = after_flush (d.flush db after) tt after in
    if has_expired u.reset_password_expiry now then (err invalid_reset_token, db) else done

unfoldable pub reset_password :
    Driver → ℕ → String → String → String → Database → Outcome (Unit {0}) × Database
unfolding reset_found
reset_password d now salt token password db =
    reset_found d now salt password
      (d.find_user (λ u. holds u.reset_password_token (d.sha256 token) && is_live u) db.users) db
