-- ===== src/Users/Password/Cycle.antt =====
-- The token of the e-mail resets the password.
use nestjs_microservice_mono.Prelude.{
  ℕ, ◌+◌, ◌≤◌, String, ◌≡◌, ◌≢◌, refl, ap, sym, ◌∙◌, inl, inr, Bool, true, false, ◌&&◌, Option,
  none, some, In, All-In, arith, Option-cases, eq_iff,
}
use mathlib.Core.Bool.{false≢true}
use nestjs_microservice_mono.Errors.Defs.{ok}
use nestjs_microservice_mono.Entities.{User, Database, holds, is_live, save_user}
use nestjs_microservice_mono.Driver.{Driver, Flush, written, rejected, IsQuery}
use nestjs_microservice_mono.Users.Common.{
  replaced_or_kept, In-replace_user, holds-eq, and-true, is_live-eq, after_flush,
}
use nestjs_microservice_mono.Users.Password.{
  Forgot, Mail, mail_after, forgot_found, forgot_password, with_reset_token, has_expired, one_hour,
  reset_found, reset_password,
}

-- What `forgotPassword` stored where it sends a mail.
record IsAsked (d : Driver) (now : ℕ) (token : String) (db : Database) (f : Forgot) (m : Mail)
    : Type 0 where
  account : User
  listed : In account db.users
  alive : account.deleted_at ≡ none
  result : f.db ≡ save_user now (with_reset_token d now token account) db
  mailed : m.token ≡ token

mail_after-eq-some :
    (f : Flush) (email token : String) (db : Database) (m : Mail)
    → (mail_after f email token db).mail ≡ some m
    → ((mail_after f email token db).db ≡ db) × (m.token ≡ token)
unfolding mail_after
mail_after-eq-some written email token db m h = (refl, cc)
mail_after-eq-some (rejected e left) email token db m h = cc

forgot_found-IsAsked :
    (d : Driver) (now : ℕ) (email token : String) (o : Option User) (db : Database) (m : Mail)
    → ((u : User) → o ≡ some u → In u db.users × (u.deleted_at ≡ none))
    → (forgot_found d now email token o db).mail ≡ some m
    → IsAsked d now token db (forgot_found d now email token o db) m
unfolding forgot_found
forgot_found-IsAsked d now email token none db m known h = cc
forgot_found-IsAsked d now email token (some u) db m known h =
    let (result, mailed) = mail_after-eq-some _ email token _ m h in
    record {
      account = u;
      listed = (known u refl).0;
      alive = (known u refl).1;
      result = result;
      mailed = mailed;
    }

-- No document holds the digest of the token.
abbrev pub IsUnused : Driver → String → Database → Type 0
IsUnused d token db = (u : User) → In u db.users → u.reset_password_token ≢ some (d.sha256 token)

module _ (d : Driver) (now : ℕ) (token : String) (db : Database) where
  -- The only documents that hold the digest are the account's, with the deadline.
  holder :
      (u v : User)
      → IsUnused d token db
      → In v (save_user now (with_reset_token d now token u) db).users
      → v.reset_password_token ≡ some (d.sha256 token)
      → v.reset_password_expiry ≡ some (now + one_hour)
  unfolding save_user
  holder u v unused listed held = elim (replaced_or_kept _ v db.users listed) [
    | inl stored ↦
        ap (λ (x : User). x.reset_password_expiry) stored ∙ unfold with_reset_token in refl
    | inr (before, _) ↦ absurd (unused v before held)
  ]

  stored_in :
      (u : User)
      → In u db.users
      → In
          (record (with_reset_token d now token u) { updated_at = now })
          (save_user now (with_reset_token d now token u) db).users
  unfolding save_user
  stored_in u listed = In-replace_user _ u db.users listed (unfold with_reset_token in refl)

  matches :
      (u : User)
      → u.deleted_at ≡ none
      → (λ (v : User). holds v.reset_password_token (d.sha256 token) && is_live v)
          (record (with_reset_token d now token u) { updated_at = now })
        ≡ true
  unfolding with_reset_token
  matches u alive = rw ((eq_iff (d.sha256 token) (d.sha256 token)).1 refl, alive) refl

  in_time : (later : ℕ) → later ≤ now + one_hour → has_expired (some (now + one_hour)) later ≡ false
  unfolding has_expired
  in_time later h = ground arith

  reset_found-ok :
      (later : ℕ) (salt password : String) (v : User) (after : Database)
      → later ≤ now + one_hour
      → v.reset_password_expiry ≡ some (now + one_hour)
      → ((a : Database) → d.flush after a ≡ written)
      → (reset_found d later salt password (some v) after).0 ≡ ok tt
  unfolding reset_found after_flush
  reset_found-ok later salt password v after soon until writes =
      rw (until, in_time later soon, writes, after_flush) refl

  reset_stored :
      (later : ℕ) (salt password : String) (u : User)
      → IsQuery d.find_user
      → IsUnused d token db
      → In u db.users
      → u.deleted_at ≡ none
      → later ≤ now + one_hour
      → ((a : Database) → d.flush (save_user now (with_reset_token d now token u) db) a ≡ written)
      → (reset_password d later salt token password
          (save_user now (with_reset_token d now token u) db)).0
        ≡ ok tt
  unfolding reset_password
  reset_stored later salt password u q unused listed alive soon writes =
      let after = save_user now (with_reset_token d now token u) db in
      let filter : User → Bool = λ v. holds v.reset_password_token (d.sha256 token) && is_live v in
      elim (Option-cases (d.find_user filter after.users)) [
        | inl missing ↦ absurd (
            false≢true (
              sym (
                All-In (λ x. filter x ≡ false) _ after.users (q.missing filter after.users missing)
                  (stored_in u listed))
              ∙ matches u alive))
        | inr (v, hit) ↦
            let (stored, match) = q.found filter after.users v hit in
            let held = holds-eq v.reset_password_token _ (and-true _ (is_live v) match).0 in
            rw hit (
              reset_found-ok later salt password v after soon (holder u v unused stored held)
                writes)
      ]

-- Where no document held the digest of a token before, the token that `forgotPassword` mails resets
-- the password for one hour, if the flush of the reset writes.
pub reset_password-mailed :
    (d : Driver) (now later : ℕ) (salt token email password : String) (db : Database) (m : Mail)
    → IsQuery d.find_user
    → IsUnused d token db
    → ((a : Database) → d.flush (forgot_password d now token email db).db a ≡ written)
    → (forgot_password d now token email db).mail ≡ some m
    → later ≤ now + one_hour
    → (reset_password d later salt m.token password (forgot_password d now token email db).db).0
      ≡ ok tt
unfolding forgot_password
reset_password-mailed d now later salt token email password db m q unused writes sent soon =
    let asked =
      forgot_found-IsAsked d now email token _ db m
        (λ u e.
          let (listed, match) = q.found (λ v. holds v.email email && is_live v) db.users u e in
          (listed, is_live-eq u (and-true (holds u.email email) (is_live u) match).1))
        sent in
    rw (asked.mailed, asked.result)
      (reset_stored d now token db later salt password asked.account q unused asked.listed
        asked.alive soon (λ a. rw asked.result at (writes a)))
