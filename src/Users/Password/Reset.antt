-- ===== src/Users/Password/Reset.antt =====
-- Resetting a password by the token that was mailed.
use nestjs_microservice_mono.Prelude.{
  ℕ, ◌+◌, ◌≤◌, String, ◌≡◌, refl, ap, sym, ◌∙◌, false, ◌&&◌, Option, none, some, inl, inr, In,
  arith, Bool-cases, Option-cases,
}
use nestjs_microservice_mono.Errors.Defs.{ok, err}
use nestjs_microservice_mono.Entities.{
  User, Database, version, holds, is_live, save_user, replace_user,
}
use nestjs_microservice_mono.Driver.{Driver, IsQuery}
use nestjs_microservice_mono.Users.Common.{
  err-ne-ok, after_flush-eq-ok, holds-eq, and-true, is_live-eq, replaced_or_kept, In-replace_user,
}
use nestjs_microservice_mono.Users.Password.{
  with_password, has_expired, reset_found, reset_password, invalid_reset_token,
}

not_expired :
    (o : Option ℕ) (now : ℕ) → has_expired o now ≡ false → (t : ℕ) × (o ≡ some t) × (now ≤ t)
unfolding has_expired
not_expired none now h = cc
not_expired (some t) now h = (t, refl, ground arith)

-- The account whose password a successful reset has changed, and the document that replaced it.
pub record WasReset (d : Driver) (now : ℕ) (salt token password : String) (db after : Database)
    : Type 0 where
  pub account : User
  pub listed : In account db.users
  pub asked : account.reset_password_token ≡ some (d.sha256 token)
  pub alive : account.deleted_at ≡ none
  pub deadline : ℕ
  pub until : account.reset_password_expiry ≡ some deadline
  pub in_time : now ≤ deadline
  pub stored : User
  pub same : stored.id ≡ account.id
  pub written : In stored after.users
  pub hashed : stored.password_hash ≡ some (d.hash salt password)
  pub voided : (stored.reset_password_token ≡ none) × (stored.reset_password_expiry ≡ none)
  pub raised : version stored ≡ version account + 1
  pub kept :
      (stored.email ≡ account.email)
      × (stored.account_type ≡ account.account_type)
      × (stored.oauth_links ≡ account.oauth_links)
      × (stored.deleted_at ≡ none)
  pub replaced : after ≡ record db { users = replace_user stored db.users }

reset_found-WasReset :
    (d : Driver) (now : ℕ) (salt token password : String) (db : Database) (o : Option User)
    → ((u : User)
        → o ≡ some u
        → In u db.users × (u.reset_password_token ≡ some (d.sha256 token)) × (u.deleted_at ≡ none))
    → (reset_found d now salt password o db).0 ≡ ok tt
    → WasReset d now salt token password db (reset_found d now salt password o db).1
unfolding reset_found with_password save_user
reset_found-WasReset d now salt token password db none known h =
    absurd (err-ne-ok invalid_reset_token tt h)
reset_found-WasReset d now salt token password db (some u) known h =
    elim (Bool-cases (has_expired u.reset_password_expiry now)) [
      | inl late ↦ absurd (err-ne-ok invalid_reset_token tt (simp late at h))
      | inr timely ↦
          let (listed, asked, alive) = known u refl in
          let (t, until, in_time) = not_expired u.reset_password_expiry now timely in
          let after = (after_flush-eq-ok _ tt tt _ (simp timely at h)).1 in
          simp timely (record {
            account = u;
            listed = listed;
            asked = asked;
            alive = alive;
            deadline = t;
            until = until;
            in_time = in_time;
            stored = record (with_password d salt password u) { updated_at = now };
            same = refl;
            written = rw after (In-replace_user _ u db.users listed refl);
            hashed = refl;
            voided = (refl, refl);
            raised = refl;
            kept = (refl, refl, refl, alive);
            replaced = after;
          })
    ]

-- A reset that succeeds was for a live account that holds the token's digest and whose deadline has
-- not passed. It replaces that account's document by one with the new hash, without a token, with the
-- token version raised by one, and with the same e-mail, type, links and no mark of deletion.
pub reset_password-WasReset :
    (d : Driver) (now : ℕ) (salt token password : String) (db : Database)
    → IsQuery d.find_user
    → (reset_password d now salt token password db).0 ≡ ok tt
    → WasReset d now salt token password db (reset_password d now salt token password db).1
unfolding reset_password
reset_password-WasReset d now salt token password db q h =
    reset_found-WasReset d now salt token password db _
      (λ u e.
        let (listed, match) = q.found _ db.users u e in
        let (asked, alive) =
          and-true (holds u.reset_password_token (d.sha256 token)) (is_live u) match in
        (listed, holds-eq u.reset_password_token (d.sha256 token) asked, is_live-eq u alive))
      h

-- No document of the collection but those of one id holds the digest.
abbrev pub OnlyHolder : String → String → Database → Type 0
OnlyHolder i digest db =
    (v : User) → In v db.users → v.reset_password_token ≡ some digest → v.id ≡ i

abbrev NoHolder : String → Database → Type 0
NoHolder digest db = (v : User) → In v db.users → v.reset_password_token ≡ some digest → ⊥

reset_password-NoHolder :
    (d : Driver) (now : ℕ) (salt token password : String) (db : Database)
    → IsQuery d.find_user
    → NoHolder (d.sha256 token) db
    → reset_password d now salt token password db ≡ (err invalid_reset_token, db)
unfolding reset_password
reset_password-NoHolder d now salt token password db q nobody =
    elim (Option-cases
      (d.find_user (λ u. holds u.reset_password_token (d.sha256 token) && is_live u) db.users)) [
        | inl nothing ↦ rw (nothing, reset_found)
        | inr (u, found) ↦
            let (listed, match) = q.found _ db.users u found in
            absurd (
              nobody u listed
                (holds-eq u.reset_password_token (d.sha256 token) (and-true _ (is_live u) match).0))
      ]

WasReset-NoHolder :
    (d : Driver) (now : ℕ) (salt token password i : String) (db after : Database)
    → OnlyHolder i (d.sha256 token) db
    → WasReset d now salt token password db after
    → NoHolder (d.sha256 token) after
WasReset-NoHolder d now salt token password i db after only w v listed holder =
    elim (replaced_or_kept _ v db.users (rw w.replaced at listed)) [
      | inl same ↦ cc (sym holder ∙ ap (λ (u : User). u.reset_password_token) same ∙ w.voided.0)
      | inr (kept, ne) ↦
          ne (only v kept holder ∙ sym (only w.account w.listed w.asked) ∙ sym w.same)
    ]

-- Where only the one account held a token's digest, a second reset with the token after one
-- that succeeded, at any time and with any password, is refused and changes nothing.
pub reset_password-IsSingleUse :
    (d e : Driver) (now later : ℕ) (salt salt' token password password' : String) (i : String)
    (db : Database)
    → IsQuery d.find_user
    → IsQuery e.find_user
    → e.sha256 token ≡ d.sha256 token
    → OnlyHolder i (d.sha256 token) db
    → (reset_password d now salt token password db).0 ≡ ok tt
    → reset_password e later salt' token password' (reset_password d now salt token password db).1
      ≡ (err invalid_reset_token, (reset_password d now salt token password db).1)
reset_password-IsSingleUse d e now later salt salt' token password password' i db q qe digest only
      h =
    let w = reset_password-WasReset d now salt token password db q h in
    reset_password-NoHolder e later salt' token password' _ qe
      (rw digest (WasReset-NoHolder d now salt token password i db _ only w))
