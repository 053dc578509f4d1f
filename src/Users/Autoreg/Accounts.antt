-- ===== src/Users/Autoreg/Accounts.antt =====
-- Which account an anonymous registration returns.
use nestjs_microservice_mono.Prelude.{
  differ-absurd, ◌≡◌, refl, ap, sym, ◌∙◌, true, false, Option, none, some, List, [], ◌∷◌, ◌++◌, inl,
  inr, In, All-In, ◌==◌, eq_iff, Bool-cases, Option-cases,
}
use nestjs_microservice_mono.Errors.Defs.{ok, err}
use nestjs_microservice_mono.Entities.{
  User, Device, Database, autoreg, is_autoreg, version, new_user, delete_device,
}
use nestjs_microservice_mono.Driver.{Driver, IsQuery}
use nestjs_microservice_mono.Users.Common.{after_flush-eq-ok, err-ne-ok, is_autoreg-eq}
use nestjs_microservice_mono.Users.Autoreg.{
  AutoregPayload, AutoregResult, Fresh, device_blocked, with_new_account, create_account,
  return_account, use_linked, use_device, create_autoreg_user,
}

In-last : {A : Type 0} (a : A) (xs : List A) → In a (xs ++ a ∷ [])
In-last a [] = inl refl
In-last a (x ∷ xs) = inr (In-last a xs)

-- A fresh account, or the live link of a device with the fingerprint.
pub data Origin (f : Fresh) (p : AutoregPayload) (db : Database) (r : AutoregResult)
    (after : Database) : Type 0 where
  fresh :
      r.id ≡ f.user_id
      → r.token_version ≡ 0
      → In (new_user f.user_id f.now) after.users
      → Origin f p db r after
  linked :
      (v : Device) (u : User)
      → In v db.devices
      → v.fingerprint ≡ p.fingerprint
      → v.is_blocked ≡ false
      → v.user_id ≡ r.id
      → In u db.users
      → u.id ≡ r.id
      → u.account_type ≡ autoreg
      → r.token_version ≡ version u
      → after.users ≡ db.users
      → Origin f p db r after

module _ (d : Driver) (f : Fresh) (p : AutoregPayload) where
  create_account-Origin :
      (db db' : Database) (r : AutoregResult)
      → (create_account d f p db').0 ≡ ok r
      → Origin f p db r (create_account d f p db').1
  unfolding create_account
  create_account-Origin db db' r h =
      let (same, kept) = after_flush-eq-ok _ _ r _ h in
      rw kept (
        fresh (ap (λ (q : AutoregResult). q.id) same)
          (ap (λ (q : AutoregResult). q.token_version) same)
          (unfold with_new_account in In-last _ db'.users))

  return_account-Origin :
      (db : Database) (v : Device) (u : User) (r : AutoregResult)
      → In v db.devices
      → v.fingerprint ≡ p.fingerprint
      → v.is_blocked ≡ false
      → In u db.users
      → u.id ≡ v.user_id
      → u.account_type ≡ autoreg
      → (return_account d f p v u db).0 ≡ ok r
      → Origin f p db r (return_account d f p v u db).1
  unfolding return_account
  return_account-Origin db v u r listed same_fp free known same_id anon h =
      let (same, kept) = after_flush-eq-ok _ _ r _ h in
      let owner : r.id ≡ v.user_id = ap (λ (q : AutoregResult). q.id) same in
      rw kept (
        linked v u listed same_fp free (sym owner) known (same_id ∙ sym owner) anon
          (ap (λ (q : AutoregResult). q.token_version) same) refl)

  use_linked-Origin :
      (db : Database) (v : Device) (o : Option User) (r : AutoregResult)
      → In v db.devices
      → v.fingerprint ≡ p.fingerprint
      → v.is_blocked ≡ false
      → ((u : User) → o ≡ some u → In u db.users × (u.id ≡ v.user_id))
      → (use_linked d f p v o db).0 ≡ ok r
      → Origin f p db r (use_linked d f p v o db).1
  unfolding use_linked
  use_linked-Origin db v none r listed same_fp free known h =
      create_account-Origin db (delete_device v.id db) r h
  use_linked-Origin db v (some u) r listed same_fp free known h =
      elim (Bool-cases (is_autoreg u.account_type)) [
        | inl anon ↦ rw anon (
            return_account-Origin db v u r listed same_fp free (known u refl).0 (known u refl).1
              (is_autoreg-eq u.account_type anon) (rw anon at h))
        | inr upgraded ↦
            rw upgraded (create_account-Origin db (delete_device v.id db) r (rw upgraded at h))
      ]

  use_device-Origin :
      (db : Database) (o : Option Device) (r : AutoregResult)
      → IsQuery d.find_user
      → ((v : Device) → o ≡ some v → In v db.devices × (v.fingerprint ≡ p.fingerprint))
      → (use_device d f p o db).0 ≡ ok r
      → Origin f p db r (use_device d f p o db).1
  unfolding use_device
  use_device-Origin db none r q known h = create_account-Origin db db r h
  use_device-Origin db (some v) r q known h = elim (Bool-cases v.is_blocked) [
    | inl blocked ↦ absurd (err-ne-ok (device_blocked v) r (simp blocked at h))
    | inr free ↦ simp free (
        use_linked-Origin db v _ r (known v refl).0 (known v refl).1 free
          (λ u e.
            let (listed, same) = q.found _ db.users u e in (listed, (eq_iff u.id v.user_id).0 same))
          (simp free at h))
  ]

-- A registration that succeeds returns a fresh account, which it has stored, or an account that
-- is still anonymous and that an unblocked device with the same fingerprint is linked to.
pub create_autoreg_user-Origin :
    (d : Driver) (f : Fresh) (p : AutoregPayload) (db : Database) (r : AutoregResult)
    → IsQuery d.find_user
    → IsQuery d.find_device
    → (create_autoreg_user d f p db).0 ≡ ok r
    → Origin f p db r (create_autoreg_user d f p db).1
unfolding create_autoreg_user
create_autoreg_user-Origin d f p db r qu qd h =
    use_device-Origin d f p db _ r qu
      (λ v e.
        let (listed, same) = qd.found _ db.devices v e in
        (listed, (eq_iff v.fingerprint p.fingerprint).0 same))
      h

-- If the fingerprint is known and every device that has it is blocked, the registration is refused
-- with 403 device_blocked and changes nothing.
pub create_autoreg_user-blocked :
    (d : Driver) (f : Fresh) (p : AutoregPayload) (db : Database) (v : Device)
    → IsQuery d.find_device
    → In v db.devices
    → v.fingerprint ≡ p.fingerprint
    → ((w : Device) → In w db.devices → w.fingerprint ≡ p.fingerprint → w.is_blocked ≡ true)
    → (w : Device) × (w.fingerprint ≡ p.fingerprint)
      × (create_autoreg_user d f p db ≡ (err (device_blocked w), db))
unfolding create_autoreg_user use_device
create_autoreg_user-blocked d f p db v q listed same blocked =
    elim (Option-cases (d.find_device (λ w. w.fingerprint == p.fingerprint) db.devices)) [
      | inl nothing ↦ absurd (
          differ-absurd v.fingerprint p.fingerprint
            (All-In _ v db.devices (q.missing _ db.devices nothing) listed) same)
      | inr (w, found) ↦
          let (known, match) = q.found _ db.devices w found in
          let fp = (eq_iff w.fingerprint p.fingerprint).0 match in
          (w, fp, rw (found, use_device) (simp (blocked w known fp)))
    ]
