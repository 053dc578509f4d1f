-- ===== src/Purge.antt =====
-- tasks/user-purge/src/task.service.ts: the removal of accounts whose grace window is over. The
-- query for them, date-fns' `subDays`, and whether a native delete fails are parameters.
pub mod Steps
pub mod Sweep
use nestjs_microservice_mono.Prelude.{
  ℕ, ◌+◌, String, ◌≡◌, Bool, true, false, Option, none, some, List, [], ◌∷◌, In, All, ltb,
}
use nestjs_microservice_mono.Errors.Defs.{Thrown, Outcome, ok, err}
use nestjs_microservice_mono.Entities.{User, Database, delete_devices_of, delete_user_row}

abbrev pub grace_days : ℕ
grace_days = 30

-- What becomes of the two deletes of `purgeUser`.
pub data Deletes : Type 0 where
  done : Deletes
  user_failed : Thrown → Deletes
  devices_failed : Thrown → Deletes

-- `purgeUser`: the devices first, then the user.
unfoldable pub purge_user : Deletes → String → Database → Outcome (Unit {0}) × Database
purge_user done uid db = (ok tt, delete_user_row uid (delete_devices_of uid db))
purge_user (user_failed e) uid db = (err e, delete_devices_of uid db)
purge_user (devices_failed e) uid db = (err e, db)

count_purged : Outcome (Unit {0}) → ℕ → ℕ
count_purged (ok _) n = n + 1
count_purged (err e) n = n

-- The loop over the victims: the number that were purged, and the database.
unfoldable pub purge_all : (String → Deletes) → List User → Database → ℕ × Database
unfolding count_purged
purge_all fate [] db = (0, db)
purge_all fate (v ∷ vs) db =
    let (r, after) = purge_user (fate v.id) v.id db in
    let (n, last) = purge_all fate vs after in (count_purged r n, last)

-- `{ deletedAt: { $lt: cutoff } }`, which no missing date satisfies.
abbrev pub is_expired : ℕ → User → Bool
is_expired cutoff u = elim u.deleted_at [ none ↦ false | some t ↦ ltb t cutoff ]

-- `run`
unfoldable pub purge_users :
    ((User → Bool) → List User → List User)
    → (ℕ → ℕ → ℕ)
    → (String → Deletes)
    → ℕ
    → Database
    → ℕ × Database
purge_users find sub_days fate now db =
    purge_all fate (find (is_expired (sub_days now grace_days)) db.users) db

-- `em.find` returns the documents of the collection that pass the filter, and no other.
pub record IsFind (find : (User → Bool) → List User → List User) : Type 0 where
  pub found :
      (q : User → Bool) (us : List User) (u : User) → In u (find q us) → In u us × (q u ≡ true)
  pub complete :
      (q : User → Bool) (us : List User) (u : User) → In u us → q u ≡ true → In u (find q us)
