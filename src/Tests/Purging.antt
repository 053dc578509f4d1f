-- ===== src/Tests/Purging.antt =====
-- The purge task's theorems at concrete inputs.
use nestjs_microservice_mono.Prelude.{
  ℕ, ◌-◌, String, ◌≡◌, ◌≢◌, refl, true, [], ◌∷◌, some, inl, inr, In, keep, sym, ap, ◌∙◌,
  differ-absurd,
}
use nestjs_microservice_mono.Errors.Defs.{error}
use nestjs_microservice_mono.Entities.{User, Database}
use nestjs_microservice_mono.Users.Common.{In-keep}
use nestjs_microservice_mono.Purge.{
  Deletes, done, devices_failed, purge_users, is_expired, IsFind, grace_days,
}
use nestjs_microservice_mono.Purge.Steps.{keep-In, In-kept}
use nestjs_microservice_mono.Purge.Sweep.{purge_users-no_orphan}
use nestjs_microservice_mono.Tests.{ann, anonymous, phone, database}

keep-IsFind : IsFind keep
keep-IsFind = record {
  found = λ q us u i. (In-kept q u us i, In-keep q u us i);
  complete = λ q us u i h. keep-In q u us i h;
}

abbrev expired : User
expired = record anonymous { deleted_at = some 40 }

abbrev before_purge : Database
before_purge = record database { users = ann ∷ expired ∷ [] }

abbrev days_ago : ℕ → ℕ → ℕ
days_ago now days = now - days

abbrev no_device_deleted : String → Deletes
no_device_deleted i = devices_failed (error "no primary")

not_ann :
    (v : User)
    → In v before_purge.users
    → is_expired (days_ago 80 grace_days) v ≡ true
    → v.id ≢ "u1"
unfolding ann anonymous
not_ann v (inl e) h = cc (rw e at h)
not_ann v (inr (inl e)) h =
    λ same. differ-absurd "u2" "u1" refl (sym (ap (λ (u : User). u.id) e) ∙ same)
not_ann v (inr (inr i)) h = elim i [ ]

purge_users-no_orphan_example :
    (u : User) × In u (purge_users keep days_ago no_device_deleted 80 before_purge).1.users
    × (u.id ≡ expired.id)
unfolding anonymous phone purge_users nestjs_microservice_mono.Purge.purge_all
    nestjs_microservice_mono.Purge.purge_user
purge_users-no_orphan_example =
    purge_users-no_orphan keep days_ago no_device_deleted 80 before_purge expired phone keep-IsFind
      (inr (inl refl)) refl refl (inl refl)
