-- ===== src/Purge/Steps.antt =====
-- What the two deletes of one account take, and what they leave.
use nestjs_microservice_mono.Prelude.{
  String, ◌≡◌, ◌≢◌, refl, ap, sym, ◌∙◌, Bool, true, false, not, List, [], ◌∷◌, inl, inr, In, keep,
  arith, ◌==◌, eq_iff, Bool-cases,
}
use nestjs_microservice_mono.Entities.{User, Device, Database, delete_devices_of, delete_user_row}
use nestjs_microservice_mono.Users.Common.{In-keep}
use nestjs_microservice_mono.Purge.{Deletes, done, user_failed, devices_failed, purge_user}

module _ {A : Type 0} (p : A → Bool) where
  pub keep-In : (a : A) (xs : List A) → In a xs → p a ≡ true → In a (keep p xs)
  keep-In a [] i h = i
  keep-In a (x ∷ xs) (inl e) h = rw (sym (ap p e) ∙ h) (inl e)
  keep-In a (x ∷ xs) (inr i) h = elim (Bool-cases (p x)) [
    | inl passes ↦ rw passes (inr (keep-In a xs i h))
    | inr fails ↦ rw fails (keep-In a xs i h)
  ]

  kept_first :
      (a x : A) (xs : List A) → (In a (keep p xs) → In a xs) → In a (x ∷ keep p xs) → In a (x ∷ xs)
  kept_first a x xs rest (inl e) = inl e
  kept_first a x xs rest (inr k) = inr (rest k)

  pub In-kept : (a : A) (xs : List A) → In a (keep p xs) → In a xs
  In-kept a [] i = elim i [ ]
  In-kept a (x ∷ xs) i = elim (Bool-cases (p x)) [
    | inl passes ↦ kept_first a x xs (In-kept a xs) (rw passes at i)
    | inr fails ↦ inr (In-kept a xs (rw fails at i))
  ]

unequal-not : (a b : String) → a ≢ b → not (a == b) ≡ true
unequal-not a b ne = elim (Bool-cases (a == b)) [
  | inl same ↦ absurd (ne ((eq_iff a b).0 same))
  | inr other ↦ rw other
]

not-unequal : (a b : String) → not (a == b) ≡ true → a ≢ b
not-unequal a b h e = ground (arith, eq_iff a b)

-- Whether the deletes take the user's document, and its devices.
abbrev pub takes_user : Deletes → Bool
takes_user done = true
takes_user _ = false

abbrev pub takes_devices : Deletes → Bool
takes_devices (devices_failed e) = false
takes_devices _ = true

module _ (uid : String) (db : Database) where
  pub purge_user-devices :
      (o : Deletes) (x : Device) → In x (purge_user o uid db).1.devices → In x db.devices
  unfolding purge_user delete_devices_of delete_user_row
  purge_user-devices done x i = In-kept _ x db.devices i
  purge_user-devices (user_failed e) x i = In-kept _ x db.devices i
  purge_user-devices (devices_failed e) x i = i

  pub purge_user-users :
      (o : Deletes) (u : User) → In u (purge_user o uid db).1.users → In u db.users
  unfolding purge_user delete_devices_of delete_user_row
  purge_user-users done u i = In-kept _ u db.users i
  purge_user-users (user_failed e) u i = i
  purge_user-users (devices_failed e) u i = i

  pub purge_user-no_devices :
      (o : Deletes) (x : Device)
      → takes_devices o ≡ true
      → In x (purge_user o uid db).1.devices
      → x.user_id ≢ uid
  unfolding purge_user delete_devices_of delete_user_row
  purge_user-no_devices done x t i = not-unequal x.user_id uid (In-keep _ x db.devices i)
  purge_user-no_devices (user_failed e) x t i = not-unequal x.user_id uid (In-keep _ x db.devices i)
  purge_user-no_devices (devices_failed e) x t i = cc

  pub purge_user-no_user :
      (o : Deletes) (u : User)
      → takes_user o ≡ true
      → In u (purge_user o uid db).1.users
      → u.id ≢ uid
  unfolding purge_user delete_devices_of delete_user_row
  purge_user-no_user done u t i = not-unequal u.id uid (In-keep _ u db.users i)
  purge_user-no_user (user_failed e) u t i = cc
  purge_user-no_user (devices_failed e) u t i = cc

  pub purge_user-spares :
      (o : Deletes) (u : User)
      → In u db.users
      → (takes_user o ≡ true → u.id ≢ uid)
      → In u (purge_user o uid db).1.users
  unfolding purge_user delete_devices_of delete_user_row
  purge_user-spares done u i h = keep-In _ u db.users i (unequal-not u.id uid (h refl))
  purge_user-spares (user_failed e) u i h = i
  purge_user-spares (devices_failed e) u i h = i

  pub purge_user-spares_device :
      (o : Deletes) (x : Device)
      → In x db.devices
      → x.user_id ≢ uid
      → In x (purge_user o uid db).1.devices
  unfolding purge_user delete_devices_of delete_user_row
  purge_user-spares_device done x i h = keep-In _ x db.devices i (unequal-not x.user_id uid h)
  purge_user-spares_device (user_failed e) x i h =
      keep-In _ x db.devices i (unequal-not x.user_id uid h)
  purge_user-spares_device (devices_failed e) x i h = i
