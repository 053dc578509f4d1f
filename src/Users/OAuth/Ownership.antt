-- ===== src/Users/OAuth/Ownership.antt =====
-- Whose account an OAuth login returns.
use nestjs_microservice_mono.Prelude.{
  ℕ, String, ◌≡◌, refl, sym, ◌&&◌, true, false, Option, none, some, inl, inr, In, Bool-cases,
  or_else, truthy, any-append, [], ◌∷◌, ◌++◌,
}
use nestjs_microservice_mono.Errors.Defs.{ok}
use text.Mathlib.TextPositions.{eq_refl}
use nestjs_microservice_mono.Entities.{
  User, OAuthLink, registered, provider_name, Database, holds, has_link, is_live, new_user,
  replace_user, save_user,
}
use nestjs_microservice_mono.Driver.{Driver, Flush, written, rejected, IsQuery}
use nestjs_microservice_mono.DuplicateKey.{is_duplicate_key_error}
use nestjs_microservice_mono.Users.Common.{
  Identity, identity, email_taken, err-ne-ok, ok-injective, after_flush-eq-ok, holds-eq, and-true,
  is_live-eq, In-replace_user,
}
use nestjs_microservice_mono.Users.OAuth.{
  OAuthPayload, new_link, new_oauth_user, with_oauth_user, store_created, create_oauth_user, merged,
  merge_or_create, linked_or, find_or_create_oauth_user,
}

-- The document of `u` with the identity linked as the last of its links.
pub record Gains (p : OAuthPayload) (u w : User) : Type 0 where
  pub link : OAuthLink
  pub provider : link.provider ≡ p.provider
  pub whose : link.provider_user_id ≡ p.provider_user_id
  pub links : w.oauth_links ≡ u.oauth_links ++ link ∷ []
  pub linked : has_link p.provider p.provider_user_id w ≡ true
  pub id : w.id ≡ u.id
  pub email : w.email ≡ u.email
  pub account_type : w.account_type ≡ u.account_type
  pub password_hash : w.password_hash ≡ u.password_hash
  pub token_version : w.token_version ≡ u.token_version
  pub deleted_at : w.deleted_at ≡ u.deleted_at

-- A new account: registered, without a password, and with the one link.
pub record IsNew (i : String) (p : OAuthPayload) (w : User) : Type 0 where
  pub id : w.id ≡ i
  pub account_type : w.account_type ≡ registered
  pub email : w.email ≡ p.email
  pub password_hash : w.password_hash ≡ none
  pub token_version : w.token_version ≡ some 0
  pub link : OAuthLink
  pub provider : link.provider ≡ p.provider
  pub whose : link.provider_user_id ≡ p.provider_user_id
  pub links : w.oauth_links ≡ link ∷ []
  pub alive : w.deleted_at ≡ none

-- The three ways in which the call returns an account.
pub data Owner (i : String) (p : OAuthPayload) (db : Database) (r : Identity) (after : Database)
    : Type 0 where
  by_link :
      (u : User)
      → In u db.users
      → has_link p.provider p.provider_user_id u ≡ true
      → u.deleted_at ≡ none
      → r ≡ identity u
      → after ≡ db
      → Owner i p db r after
  by_email :
      (u w : User)
      → In u db.users
      → u.email ≡ some (or_else p.email "")
      → u.deleted_at ≡ none
      → truthy p.email ≡ true
      → or_else p.email_verified false ≡ true
      → r ≡ identity u
      → Gains p u w
      → In w after.users
      → after ≡ record db { users = replace_user w db.users }
      → Owner i p db r after
  brand_new :
      (w : User)
      → IsNew i p w
      → r ≡ identity w
      → after ≡ record db { users = db.users ++ w ∷ [] }
      → Owner i p db r after

new_oauth_user-IsNew :
    (now : ℕ) (i : String) (p : OAuthPayload) → IsNew i p (new_oauth_user now i p)
unfolding new_oauth_user new_user new_link
new_oauth_user-IsNew now i p = record {
  id = refl;
  account_type = refl;
  email = refl;
  password_hash = refl;
  token_version = refl;
  link = new_link now p;
  provider = refl;
  whose = refl;
  links = refl;
  alive = refl;
}

merged-Gains :
    (now : ℕ) (p : OAuthPayload) (u : User)
    → Gains p u (record (merged now p u) { updated_at = now })
unfolding merged new_link
merged-Gains now p u = record {
  link = new_link now p;
  provider = refl;
  whose = refl;
  links = refl;
  linked =
      any-append _ u.oauth_links _
        (rw (eq_refl (provider_name p.provider), eq_refl p.provider_user_id) refl);
  id = refl;
  email = refl;
  account_type = refl;
  password_hash = refl;
  token_version = refl;
  deleted_at = refl;
}

module _ (d : Driver) (now : ℕ) (i : String) (p : OAuthPayload) where
  store_created-Owner :
      (f : Flush) (db : Database) (r : Identity)
      → (store_created f (new_oauth_user now i p) (with_oauth_user now i p db)).0 ≡ ok r
      → Owner i p db r (store_created f (new_oauth_user now i p) (with_oauth_user now i p db)).1
  unfolding store_created with_oauth_user
  store_created-Owner written db r h =
      brand_new (new_oauth_user now i p) (new_oauth_user-IsNew now i p) (sym (ok-injective _ r h))
        refl
  store_created-Owner (rejected e left) db r h =
      elim (Bool-cases (is_duplicate_key_error e (some "email"))) [
        | inl taken ↦ absurd (err-ne-ok email_taken r (rw taken at h))
        | inr other ↦ absurd (err-ne-ok e r (rw other at h))
      ]

  create_oauth_user-Owner :
      (db : Database) (r : Identity)
      → (create_oauth_user d now i p db).0 ≡ ok r
      → Owner i p db r (create_oauth_user d now i p db).1
  unfolding create_oauth_user
  create_oauth_user-Owner db r h = store_created-Owner _ db r h

  merge_or_create-Owner :
      (o : Option User) (db : Database) (r : Identity)
      → ((u : User)
          → o ≡ some u
          → In u db.users × (u.email ≡ some (or_else p.email "")) × (u.deleted_at ≡ none))
      → truthy p.email ≡ true
      → or_else p.email_verified false ≡ true
      → (merge_or_create d now i p o db).0 ≡ ok r
      → Owner i p db r (merge_or_create d now i p o db).1
  unfolding merge_or_create save_user
  merge_or_create-Owner none db r known given verified h = create_oauth_user-Owner db r h
  merge_or_create-Owner (some u) db r known given verified h =
      let (listed, addressed, alive) = known u refl in
      let (same, kept) = after_flush-eq-ok _ _ r _ h in
      by_email u _ listed addressed alive given verified same (merged-Gains now p u)
        (rw kept (In-replace_user _ u db.users listed (unfold merged in refl))) kept

  linked_or-Owner :
      (o : Option User) (db : Database) (r : Identity)
      → IsQuery d.find_user
      → ((u : User)
          → o ≡ some u
          → In u db.users
            × (has_link p.provider p.provider_user_id u ≡ true)
            × (u.deleted_at ≡ none))
      → (linked_or d now i p o db).0 ≡ ok r
      → Owner i p db r (linked_or d now i p o db).1
  unfolding linked_or
  linked_or-Owner (some u) db r q known h =
      let (listed, linked, alive) = known u refl in
      by_link u listed linked alive (sym (ok-injective _ r h)) refl
  linked_or-Owner none db r q known h =
      elim (Bool-cases (truthy p.email && or_else p.email_verified false)) [
        | inl mergeable ↦
            let (given, verified) =
              and-true (truthy p.email) (or_else p.email_verified false) mergeable in
            rw mergeable (
              merge_or_create-Owner _ db r
                (λ u e.
                  let (listed, match) =
                    q.found (λ v. holds v.email (or_else p.email "") && is_live v) db.users u e in
                  let (addressed, alive) =
                    and-true (holds u.email (or_else p.email "")) (is_live u) match in
                  (listed, holds-eq u.email (or_else p.email "") addressed, is_live-eq u alive))
                given verified (rw mergeable at h))
        | inr separate ↦ rw separate (create_oauth_user-Owner db r (rw separate at h))
      ]

-- An OAuth login that succeeds returns a live account that has the identity linked, changing
-- nothing; or a live account with the payload's e-mail, and then only if that e-mail is marked
-- as verified, which is stored with a link to the identity added and with the same id, type, e-mail,
-- password, token version and deletion mark; or a new registered account that has the link and no
-- password, which it has stored.
pub find_or_create_oauth_user-Owner :
    (d : Driver) (now : ℕ) (i : String) (p : OAuthPayload) (db : Database) (r : Identity)
    → IsQuery d.find_user
    → (find_or_create_oauth_user d now i p db).0 ≡ ok r
    → Owner i p db r (find_or_create_oauth_user d now i p db).1
unfolding find_or_create_oauth_user
find_or_create_oauth_user-Owner d now i p db r q h =
    linked_or-Owner d now i p _ db r q
      (λ u e.
        let (listed, match) =
          q.found (λ v. has_link p.provider p.provider_user_id v && is_live v) db.users u e in
        let (linked, alive) =
          and-true (has_link p.provider p.provider_user_id u) (is_live u) match in
        (listed, linked, is_live-eq u alive))
      h
