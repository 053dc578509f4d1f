-- ===== src/Users/Login/Verdicts.antt =====
-- When a login succeeds, and what a refusal says.
use nestjs_microservice_mono.Prelude.{
  String, ◌≡◌, ◌≢◌, refl, Bool, true, false, not, ◌&&◌, ◌||◌, Option, none, some, inl, inr, In,
  arith, ◌==◌, eq_iff, Option-cases, or_else, if◌then◌else◌,
}
use nestjs_microservice_mono.Errors.Defs.{Thrown, ok, err}
use nestjs_microservice_mono.Entities.{User, Database, holds, is_live}
use nestjs_microservice_mono.Driver.{Driver, IsQuery}
use nestjs_microservice_mono.Users.Common.{
  Identity, identity, err-ne-ok, holds-eq, and-true, is_live-eq,
}
use nestjs_microservice_mono.Users.Login.{
  admit, password_valid, find_login, login, invalid_credentials,
}

passed :
    (x : String) (o : Option Bool) (i r : Identity)
    → (if not (not (x == "")) || not (or_else o false) then err invalid_credentials else ok i)
      ≡ ok r
    → (x ≢ "") × (o ≡ some true) × (r ≡ i)
passed x none i r h = ground (arith, eq_iff x "")
passed x (some true) i r h = ground (arith, eq_iff x "")
passed x (some false) i r h = ground (arith, eq_iff x "")

-- The account that logs in.
pub record Admitted (d : Driver) (email password : String) (db : Database) (r : Identity)
    : Type 0 where
  pub account : User
  pub listed : In account db.users
  pub addressed : account.email ≡ some email
  pub alive : account.deleted_at ≡ none
  pub hash : String
  pub stored : account.password_hash ≡ some hash
  pub nonempty : hash ≢ ""
  pub verified : d.verify hash password ≡ some true
  pub result : r ≡ identity account

admit-Admitted :
    (d : Driver) (email password : String) (db : Database) (r : Identity) (o : Option User)
    → ((u : User) → o ≡ some u → In u db.users × (u.email ≡ some email) × (u.deleted_at ≡ none))
    → admit o (password_valid d o password) ≡ ok r
    → Admitted d email password db r
unfolding admit password_valid
admit-Admitted d email password db r none known h = cc
admit-Admitted d email password db r (some u) known h = elim (Option-cases u.password_hash) [
  | inl empty ↦ absurd (err-ne-ok invalid_credentials r (simp empty at h))
  | inr (x, stored) ↦
      let (listed, addressed, alive) = known u refl in
      let (nonempty, verified, result) =
        passed x (d.verify x password) (identity u) r (simp stored at h) in
      record {
        account = u;
        listed = listed;
        addressed = addressed;
        alive = alive;
        hash = x;
        stored = stored;
        nonempty = nonempty;
        verified = verified;
        result = result;
      }
]

admit-refusal :
    (o : Option User) (valid : Bool) (e : Thrown) → admit o valid ≡ err e → e ≡ invalid_credentials
unfolding admit
admit-refusal none valid e h = ground arith
admit-refusal (some u) valid e h = ground arith

-- A login that succeeds is of a live account that is stored under the e-mail, has a non-empty hash,
-- and whose hash argon2 verified against the password; the reply is that account's identity.
pub login-Admitted :
    (d : Driver) (email password : String) (db : Database) (r : Identity)
    → IsQuery d.find_user
    → login d email password db ≡ ok r
    → Admitted d email password db r
unfolding login find_login
login-Admitted d email password db r q h =
    admit-Admitted d email password db r (find_login d email db)
      (λ u e.
        let (listed, match) = q.found (λ v. holds v.email email && is_live v) db.users u e in
        let (addressed, alive) = and-true (holds u.email email) (is_live u) match in
        (listed, holds-eq u.email email addressed, is_live-eq u alive))
      h

-- Every refusal of a login is the same answer, 401 with `Invalid credentials`.
pub login-refusal :
    (d : Driver) (email password : String) (db : Database) (e : Thrown)
    → login d email password db ≡ err e
    → e ≡ invalid_credentials
unfolding login
login-refusal d email password db e h =
    admit-refusal (find_login d email db) (password_valid d (find_login d email db) password) e h
