-- ===== src/Users/Autoreg/DeadEnds.antt =====
-- What a registration finds after an anonymous account was deleted: the device row stays.
use nestjs_microservice_mono.Prelude.{
  String, ◌≡◌, refl, ap, ◌∙◌, false, Option, none, some, In, All-In, ◌==◌, eq_iff, Option-cases,
  inl, inr, differ-absurd,
}
use nestjs_microservice_mono.Errors.Defs.{ok, err}
use nestjs_microservice_mono.Entities.{User, Device, Database, autoreg, save_device}
use nestjs_microservice_mono.Driver.{Driver, IsQuery}
use nestjs_microservice_mono.Users.Common.{after_flush-eq-ok, find_by_id, user_not_found}
use nestjs_microservice_mono.Users.Profile.Deletion.{IsDeleted, find_by_id-IsDeleted}
use nestjs_microservice_mono.Users.Autoreg.{
  AutoregPayload, AutoregResult, Fresh, return_account, use_linked, use_device, create_autoreg_user,
}

-- The one device with the fingerprint, unblocked, of an anonymous account that was soft-deleted.
pub record LeftBehind (fingerprint : String) (v : Device) (u : User) (db : Database) : Type 0 where
  pub listed : In v db.devices
  pub known : v.fingerprint ≡ fingerprint
  pub only : (w : Device) → In w db.devices → w.fingerprint ≡ fingerprint → w ≡ v
  pub free : v.is_blocked ≡ false
  pub stored : In u db.users
  pub owner : u.id ≡ v.user_id
  pub anonymous : (w : User) → In w db.users → w.id ≡ v.user_id → w.account_type ≡ autoreg
  pub gone : IsDeleted v.user_id db

module _ (d : Driver) (f : Fresh) (p : AutoregPayload) (v : Device) (db : Database)
    (r : AutoregResult) where
  return_account-id :
      (u : User)
      → (return_account d f p v u db).0 ≡ ok r
      → (r.id ≡ v.user_id) × ((return_account d f p v u db).1.users ≡ db.users)
  unfolding return_account
  return_account-id u h =
      let (same, kept) = after_flush-eq-ok _ _ r _ h in
      (ap (λ (q : AutoregResult). q.id) same, rw kept (unfold save_device in refl))

  use_linked-id :
      (o : Option User)
      → (o ≡ none → ⊥)
      → ((u : User) → o ≡ some u → u.account_type ≡ autoreg)
      → (use_linked d f p v o db).0 ≡ ok r
      → (r.id ≡ v.user_id) × ((use_linked d f p v o db).1.users ≡ db.users)
  unfolding use_linked
  use_linked-id none some_user anon h = absurd (some_user refl)
  use_linked-id (some u) some_user anon h =
      simp (anon u refl) (return_account-id u (simp (anon u refl) at h))

  use_device-id :
      (u : User)
      → IsQuery d.find_user
      → LeftBehind p.fingerprint v u db
      → (use_device d f p (some v) db).0 ≡ ok r
      → (r.id ≡ v.user_id) × ((use_device d f p (some v) db).1.users ≡ db.users)
  unfolding use_device
  use_device-id u q left h = simp left.free (
      use_linked-id (d.find_user (λ w. w.id == v.user_id) db.users)
        (λ nothing.
          differ-absurd u.id v.user_id
            (All-In _ u db.users (q.missing _ db.users nothing) left.stored) left.owner)
        (λ w e.
          let (listed, match) = q.found (λ x. x.id == v.user_id) db.users w e in
          left.anonymous w listed ((eq_iff w.id v.user_id).0 match))
        (simp left.free at h))

  dead_end :
      (u : User) (o : Option Device)
      → IsQuery d.find_user
      → LeftBehind p.fingerprint v u db
      → d.object_id v.user_id ≡ ok v.user_id
      → o ≡ some v
      → (use_device d f p o db).0 ≡ ok r
      → (r.id ≡ v.user_id) × (find_by_id d r.id (use_device d f p o db).1 ≡ err user_not_found)
  dead_end u o q left parsed e h =
      let (same, kept) = use_device-id u q left (rw e at h) in
      (
        same,
        rw (e, same)
            (find_by_id-IsDeleted d v.user_id v.user_id _ q parsed
              (λ w i. left.gone w (rw kept at i))),
      )

-- Where the one device with a fingerprint is unblocked and belongs to an anonymous account that
-- was soft-deleted, a registration with that fingerprint that succeeds is answered with the
-- deleted account's id, and the read by that id does not find it.
pub create_autoreg_user-IsDeadEnd :
    (d : Driver) (f : Fresh) (p : AutoregPayload) (v : Device) (u : User) (db : Database)
    (r : AutoregResult)
    → IsQuery d.find_user
    → IsQuery d.find_device
    → LeftBehind p.fingerprint v u db
    → d.object_id v.user_id ≡ ok v.user_id
    → (create_autoreg_user d f p db).0 ≡ ok r
    → (r.id ≡ v.user_id) × (find_by_id d r.id (create_autoreg_user d f p db).1 ≡ err user_not_found)
unfolding create_autoreg_user
create_autoreg_user-IsDeadEnd d f p v u db r qu qd left parsed h =
    elim (Option-cases (d.find_device (λ w. w.fingerprint == p.fingerprint) db.devices)) [
      | inl nothing ↦ absurd (
          differ-absurd v.fingerprint p.fingerprint
            (All-In _ v db.devices (qd.missing _ db.devices nothing) left.listed) left.known)
      | inr (w, found) ↦
          let (listed, match) = qd.found (λ x. x.fingerprint == p.fingerprint) db.devices w found in
          let same = left.only w listed ((eq_iff w.fingerprint p.fingerprint).0 match) in
          dead_end d f p v db r u _ qu left parsed (found ∙ ap some same) h
    ]
