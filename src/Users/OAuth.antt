-- ===== src/Users/OAuth.antt =====
-- `findOrCreateOAuthUser`: the account of an OAuth identity.
pub mod Ownership
use nestjs_microservice_mono.Prelude.{
  ℕ, String, Bool, true, false, ◌&&◌, Option, none, some, [], ◌∷◌, ◌++◌, truthy, or_else,
  if◌then◌else◌,
}
use nestjs_microservice_mono.Errors.Defs.{Thrown, Outcome, ok, err}
use nestjs_microservice_mono.Entities.{
  User, OAuthProvider, OAuthLink, Database, registered, holds, has_link, is_live, new_user,
  save_user,
}
use nestjs_microservice_mono.Driver.{Driver, Flush, written, rejected}
use nestjs_microservice_mono.DuplicateKey.{is_duplicate_key_error}
use nestjs_microservice_mono.Users.Common.{Identity, identity, email_taken, after_flush}

pub record OAuthPayload : Type 0 where
  pub provider : OAuthProvider
  pub provider_user_id : String
  pub email : Option String
  pub email_verified : Option Bool
  pub name : Option String

unfoldable pub new_link : ℕ → OAuthPayload → OAuthLink
new_link now p = record {
  provider = p.provider;
  provider_user_id = p.provider_user_id;
  email = p.email;
  linked_at = now;
}

unfoldable pub new_oauth_user : ℕ → String → OAuthPayload → User
unfolding new_user new_link
new_oauth_user now i p = record (new_user i now) {
  account_type = registered;
  email = p.email;
  name = p.name;
  oauth_links = new_link now p ∷ [];
}

unfoldable pub with_oauth_user : ℕ → String → OAuthPayload → Database → Database
with_oauth_user now i p db = record db { users = db.users ++ new_oauth_user now i p ∷ [] }

unfoldable pub store_created : Flush → User → Database → Outcome Identity × Database
store_created written u db = (ok (identity u), db)
store_created (rejected e left) u db =
    (if is_duplicate_key_error e (some "email") then err email_taken else err e, left)

-- Step 3: a new account.
unfoldable pub create_oauth_user :
    Driver → ℕ → String → OAuthPayload → Database → Outcome Identity × Database
unfolding store_created
create_oauth_user d now i p db =
    store_created (d.flush db (with_oauth_user now i p db)) (new_oauth_user now i p)
      (with_oauth_user now i p db)

unfoldable pub merged : ℕ → OAuthPayload → User → User
merged now p u = record u { oauth_links = u.oauth_links ++ new_link now p ∷ [] }

-- Step 2: an account with the email takes the link.
unfoldable pub merge_or_create :
    Driver → ℕ → String → OAuthPayload → Option User → Database → Outcome Identity × Database
merge_or_create d now i p none db = create_oauth_user d now i p db
merge_or_create d now i p (some u) db =
    after_flush (d.flush db (save_user now (merged now p u) db)) (identity u)
      (save_user now (merged now p u) db)

-- Step 1: an account with the link.
unfoldable pub linked_or :
    Driver → ℕ → String → OAuthPayload → Option User → Database → Outcome Identity × Database
linked_or d now i p (some u) db = (ok (identity u), db)
linked_or d now i p none db =
    if truthy p.email && or_else p.email_verified false
    then merge_or_create d now i p
        (d.find_user (λ u. holds u.email (or_else p.email "") && is_live u) db.users) db
    else create_oauth_user d now i p db

unfoldable pub find_or_create_oauth_user :
    Driver → ℕ → String → OAuthPayload → Database → Outcome Identity × Database
unfolding linked_or merge_or_create
find_or_create_oauth_user d now i p db =
    linked_or d now i p
      (d.find_user (λ u. has_link p.provider p.provider_user_id u && is_live u) db.users) db
