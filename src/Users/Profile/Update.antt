-- ===== src/Users/Profile/Update.antt =====
-- What an update of the profile can reach.
use nestjs_microservice_mono.Prelude.{
  ℕ, String, ◌≡◌, refl, ap, ◌⊎◌, inl, inr, Bool, true, ◌==◌, eq_iff, Bool-cases, Option, none, some,
  In, or_else, arith,
}
use nestjs_microservice_mono.Errors.Defs.{Outcome, ok, err}
use nestjs_microservice_mono.Entities.{User, Database, Locale, ru, en, save_user, replace_user}
use nestjs_microservice_mono.Driver.{Driver, IsQuery}
use nestjs_microservice_mono.Users.Common.{
  err-ne-ok, after_flush-eq-ok, find_by_id, find_by_id-eq-ok, In-replace_user, and-true,
}
use nestjs_microservice_mono.Users.Profile.{
  UpdateUserInput, UserDto, to_dto, apply_update, equal_text, equal_locale, equal_flag,
  is_unchanged, update_stamp, update_found, update_user,
}

-- The fields that no update may write.
pub record SameSecrets (u v : User) : Type 0 where
  pub id : v.id ≡ u.id
  pub account_type : v.account_type ≡ u.account_type
  pub email : v.email ≡ u.email
  pub password_hash : v.password_hash ≡ u.password_hash
  pub token_version : v.token_version ≡ u.token_version
  pub oauth_links : v.oauth_links ≡ u.oauth_links
  pub reset_password_token : v.reset_password_token ≡ u.reset_password_token
  pub reset_password_expiry : v.reset_password_expiry ≡ u.reset_password_expiry
  pub deleted_at : v.deleted_at ≡ u.deleted_at

-- The account before, and as the update has stored it.
pub record WasUpdated (d : Driver) (now : ℕ) (uid : String) (i : UpdateUserInput) (dto : UserDto)
    (db after : Database) : Type 0 where
  pub before : User
  pub stored : User
  pub listed : In before db.users
  pub named : d.object_id uid ≡ ok before.id
  pub alive : before.deleted_at ≡ none
  pub written : In stored after.users
  pub replaced : after ≡ record db { users = replace_user stored db.users }
  pub secrets : SameSecrets before stored
  pub name : stored.name ≡ or_else i.name before.name
  pub tz : stored.tz ≡ or_else i.tz before.tz
  pub locale : stored.locale ≡ or_else i.locale before.locale
  pub avatar_url : stored.avatar_url ≡ or_else i.avatar_url before.avatar_url
  pub onboarded :
      stored.onboarding_completed ≡ or_else i.onboarding_completed before.onboarding_completed
  pub stamped : (stored.updated_at ≡ now) ⊎ (stored ≡ before)
  pub shown : dto ≡ to_dto stored

equal_text-eq : (s t : Option String) → equal_text s t ≡ true → s ≡ t
unfolding equal_text
equal_text-eq none none h = refl
equal_text-eq none (some t) h = cc
equal_text-eq (some s) none h = cc
equal_text-eq (some s) (some t) h = ap some ((eq_iff s t).0 h)

equal_locale-eq : (k l : Locale) → equal_locale k l ≡ true → k ≡ l
unfolding equal_locale
equal_locale-eq ru ru h = refl
equal_locale-eq ru en h = cc
equal_locale-eq en ru h = cc
equal_locale-eq en en h = refl

equal_flag-eq : (b c : Bool) → equal_flag b c ≡ true → b ≡ c
unfolding equal_flag
equal_flag-eq b c h = ground arith

-- Without a change the document is the one that was there.
unchanged-eq :
    (i : UpdateUserInput) (u : User)
    → is_unchanged u (apply_update i u) ≡ true
    → record (apply_update i u) { updated_at = u.updated_at } ≡ u
unfolding is_unchanged apply_update
unchanged-eq i u h =
    let v = apply_update i u in
    let (name, h1) = and-true (equal_text u.name v.name) _ h in
    let (tz, h2) = and-true (u.tz == v.tz) _ h1 in
    let (locale, h3) = and-true (equal_locale u.locale v.locale) _ h2 in
    let (avatar, flag) = and-true (equal_text u.avatar_url v.avatar_url) _ h3 in
    rw
      (
        ← equal_text-eq u.name v.name name,
        ← (eq_iff u.tz v.tz).0 tz,
        ← equal_locale-eq u.locale v.locale locale,
        ← equal_text-eq u.avatar_url v.avatar_url avatar,
        ← equal_flag-eq u.onboarding_completed v.onboarding_completed flag,
      )
      refl

update_stamp-cases :
    (now : ℕ) (i : UpdateUserInput) (u : User)
    → (update_stamp now u (apply_update i u) ≡ now)
      ⊎ (record (apply_update i u) { updated_at = update_stamp now u (apply_update i u) } ≡ u)
unfolding update_stamp
update_stamp-cases now i u = elim (Bool-cases (is_unchanged u (apply_update i u))) [
  | inl same ↦ rw same (inr (unchanged-eq i u same))
  | inr other ↦ rw other (inl refl)
]

update_found-WasUpdated :
    (d : Driver) (now : ℕ) (uid : String) (i : UpdateUserInput) (r : Outcome User) (dto : UserDto)
    (db : Database)
    → ((u : User) → r ≡ ok u → In u db.users × (u.deleted_at ≡ none) × (d.object_id uid ≡ ok u.id))
    → (update_found d now i r db).0 ≡ ok dto
    → WasUpdated d now uid i dto db (update_found d now i r db).1
unfolding update_found save_user apply_update
update_found-WasUpdated d now uid i (err e) dto db known h = absurd (err-ne-ok e dto h)
update_found-WasUpdated d now uid i (ok u) dto db known h =
    let (shown, kept) = after_flush-eq-ok _ _ dto _ h in
    let (listed, alive, named) = known u refl in
    record {
      before = u;
      stored = record (apply_update i u) { updated_at = update_stamp now u (apply_update i u) };
      listed = listed;
      named = named;
      alive = alive;
      written = rw kept (In-replace_user _ u db.users listed refl);
      replaced = kept;
      secrets = record {
        id = refl;
        account_type = refl;
        email = refl;
        password_hash = refl;
        token_version = refl;
        oauth_links = refl;
        reset_password_token = refl;
        reset_password_expiry = refl;
        deleted_at = refl;
      };
      name = refl;
      tz = refl;
      locale = refl;
      avatar_url = refl;
      onboarded = refl;
      stamped = update_stamp-cases now i u;
      shown = shown;
    }

-- An update that succeeds replaces the document of the requested id, which was live. Whatever else the
-- payload carries, its id, type, e-mail, password, links, reset token, token version and deletion mark
-- stay; the five fields of the profile are those given or else the old ones; the stamp is the time of the
-- update, or nothing has changed at all; and the reply shows the document as it is stored.
pub update_user-WasUpdated :
    (d : Driver) (now : ℕ) (uid : String) (i : UpdateUserInput) (dto : UserDto) (db : Database)
    → IsQuery d.find_user
    → (update_user d now uid i db).0 ≡ ok dto
    → WasUpdated d now uid i dto db (update_user d now uid i db).1
unfolding update_user
update_user-WasUpdated d now uid i dto db q h =
    update_found-WasUpdated d now uid i (find_by_id d uid db) dto db
      (λ u e. find_by_id-eq-ok d uid db u q e) h
