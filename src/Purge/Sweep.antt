-- ===== src/Purge/Sweep.antt =====
-- What a purge removes, what it spares, and what a failed delete leaves behind.
use nestjs_microservice_mono.Prelude.{
  ℕ, String, ◌≡◌, ◌≢◌, refl, sym, ◌∙◌, Bool, true, false, List, [], ◌∷◌, inl, inr, In, length,
  arith, Bool-cases,
}
use nestjs_microservice_mono.Entities.{User, Device, Database}
use nestjs_microservice_mono.Purge.{
  Deletes, done, user_failed, devices_failed, purge_user, purge_all, purge_users, is_expired,
  IsFind, grace_days,
}
use nestjs_microservice_mono.Purge.Steps.{
  takes_user, takes_devices, purge_user-devices, purge_user-users, purge_user-no_devices,
  purge_user-no_user, purge_user-spares, purge_user-spares_device,
}

module _ (fate : String → Deletes) where
  purge_all-devices :
      (vs : List User) (db : Database) (x : Device)
      → In x (purge_all fate vs db).1.devices
      → In x db.devices
  unfolding purge_all
  purge_all-devices [] db x i = i
  purge_all-devices (v ∷ vs) db x i =
      purge_user-devices v.id db (fate v.id) x (purge_all-devices vs _ x i)

  purge_all-users :
      (vs : List User) (db : Database) (u : User)
      → In u (purge_all fate vs db).1.users
      → In u db.users
  unfolding purge_all
  purge_all-users [] db u i = i
  purge_all-users (v ∷ vs) db u i =
      purge_user-users v.id db (fate v.id) u (purge_all-users vs _ u i)

  purge_all-no_devices :
      (vs : List User) (db : Database) (v : User) (x : Device)
      → In v vs
      → takes_devices (fate v.id) ≡ true
      → In x (purge_all fate vs db).1.devices
      → x.user_id ≢ v.id
  unfolding purge_all
  purge_all-no_devices [] db v x listed t i = elim listed [ ]
  purge_all-no_devices (w ∷ vs) db v x (inl e) t i =
      rw e (purge_user-no_devices w.id db (fate w.id) x (rw e at t) (purge_all-devices vs _ x i))
  purge_all-no_devices (w ∷ vs) db v x (inr listed) t i = purge_all-no_devices vs _ v x listed t i

  purge_all-no_user :
      (vs : List User) (db : Database) (v u : User)
      → In v vs
      → takes_user (fate v.id) ≡ true
      → In u (purge_all fate vs db).1.users
      → u.id ≢ v.id
  unfolding purge_all
  purge_all-no_user [] db v u listed t i = elim listed [ ]
  purge_all-no_user (w ∷ vs) db v u (inl e) t i =
      rw e (purge_user-no_user w.id db (fate w.id) u (rw e at t) (purge_all-users vs _ u i))
  purge_all-no_user (w ∷ vs) db v u (inr listed) t i = purge_all-no_user vs _ v u listed t i

  purge_all-spares :
      (vs : List User) (db : Database) (u : User)
      → In u db.users
      → ((v : User) → In v vs → takes_user (fate v.id) ≡ true → u.id ≢ v.id)
      → In u (purge_all fate vs db).1.users
  unfolding purge_all
  purge_all-spares [] db u i h = i
  purge_all-spares (v ∷ vs) db u i h =
      purge_all-spares vs _ u (purge_user-spares v.id db (fate v.id) u i (λ t. h v (inl refl) t))
        (λ w k. h w (inr k))

  purge_all-spares_device :
      (vs : List User) (db : Database) (x : Device)
      → In x db.devices
      → ((v : User) → In v vs → x.user_id ≢ v.id)
      → In x (purge_all fate vs db).1.devices
  unfolding purge_all
  purge_all-spares_device [] db x i h = i
  purge_all-spares_device (v ∷ vs) db x i h =
      purge_all-spares_device vs _ x
        (purge_user-spares_device v.id db (fate v.id) x i (h v (inl refl))) (λ w k. h w (inr k))

  purge_all-count :
      (vs : List User) (db : Database)
      → ((v : User) → In v vs → fate v.id ≡ done)
      → (purge_all fate vs db).0 ≡ length vs
  unfolding purge_all purge_user
  purge_all-count [] db h = refl
  purge_all-count (v ∷ vs) db h =
      rw (h v (inl refl), purge_all-count vs _ (λ w k. h w (inr k))) (omega arith)

-- A purge never touches an account that is not past the grace window, nor a device of such an
-- account, whatever deletes fail.
pub purge_users-spares :
    (find : (User → Bool) → List User → List User) (sub_days : ℕ → ℕ → ℕ) (fate : String → Deletes)
    (now : ℕ) (db : Database) (i : String)
    → IsFind find
    → ((v : User) → In v db.users → is_expired (sub_days now grace_days) v ≡ true → v.id ≢ i)
    → ((u : User) → In u db.users → u.id ≡ i → In u (purge_users find sub_days fate now db).1.users)
      × ((x : Device)
          → In x db.devices
          → x.user_id ≡ i
          → In x (purge_users find sub_days fate now db).1.devices)
unfolding purge_users
purge_users-spares find sub_days fate now db i laws live = (
  λ u listed e. purge_all-spares fate _ db u listed (λ v k t same. not_victim v k (sym same ∙ e)),
  λ x listed e.
      purge_all-spares_device fate _ db x listed (λ v k same. not_victim v k (sym same ∙ e)),
)
  where
    not_victim : (v : User) → In v (find (is_expired (sub_days now grace_days)) db.users) → v.id ≢ i
    not_victim v k = let (listed, expired) = laws.found _ db.users v k in live v listed expired

-- A device whose owner was past the grace window survives a purge only together with a document
-- of that owner's id, whatever deletes fail.
pub purge_users-no_orphan :
    (find : (User → Bool) → List User → List User) (sub_days : ℕ → ℕ → ℕ) (fate : String → Deletes)
    (now : ℕ) (db : Database) (v : User) (x : Device)
    → IsFind find
    → In v db.users
    → is_expired (sub_days now grace_days) v ≡ true
    → x.user_id ≡ v.id
    → In x (purge_users find sub_days fate now db).1.devices
    → (u : User) × In u (purge_users find sub_days fate now db).1.users × (u.id ≡ v.id)
unfolding purge_users
purge_users-no_orphan find sub_days fate now db v x laws listed expired owner left =
    elim (Bool-cases (takes_devices (fate v.id))) [
      | inl taken ↦ absurd (
          purge_all-no_devices fate _ db v x (laws.complete _ db.users v listed expired) taken left
            owner)
      | inr still ↦
          (v, purge_all-spares fate _ db v listed (λ w k t same. kept_with w t same still), refl)
    ]
  where
    both : (o : Deletes) → takes_user o ≡ true → takes_devices o ≡ false → ⊥
    both done t f = cc
    both (user_failed e) t f = cc
    both (devices_failed e) t f = cc

    kept_with :
        (w : User)
        → takes_user (fate w.id) ≡ true
        → v.id ≡ w.id
        → takes_devices (fate v.id) ≡ false
        → ⊥
    kept_with w t same f = both (fate w.id) t (rw same at f)

-- If no delete fails, a purge leaves no account past the grace window and no device of one, and it
-- reports the number of accounts that its query found.
pub purge_users-completes :
    (find : (User → Bool) → List User → List User) (sub_days : ℕ → ℕ → ℕ) (fate : String → Deletes)
    (now : ℕ) (db : Database)
    → IsFind find
    → ((i : String) → fate i ≡ done)
    → ((u : User)
        → In u (purge_users find sub_days fate now db).1.users
        → is_expired (sub_days now grace_days) u ≡ false)
      × ((v : User) (x : Device)
          → In v db.users
          → is_expired (sub_days now grace_days) v ≡ true
          → In x (purge_users find sub_days fate now db).1.devices
          → x.user_id ≢ v.id)
      × ((purge_users find sub_days fate now db).0
          ≡ length (find (is_expired (sub_days now grace_days)) db.users))
unfolding purge_users
purge_users-completes find sub_days fate now db laws all_done = (
  λ u left. elim (Bool-cases (is_expired (sub_days now grace_days) u)) [
    | inl expired ↦ absurd (
        purge_all-no_user fate _ db u u
          (laws.complete _ db.users u (purge_all-users fate _ db u left) expired)
          (rw (all_done u.id) refl) left refl)
    | inr live ↦ live
  ],
  λ v x listed expired left.
      purge_all-no_devices fate _ db v x (laws.complete _ db.users v listed expired)
        (rw (all_done v.id) refl) left,
  purge_all-count fate _ db (λ v k. all_done v.id),
)
