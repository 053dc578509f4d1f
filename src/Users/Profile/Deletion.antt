-- ===== src/Users/Profile/Deletion.antt =====
-- What `deleteUser` leaves behind.
use nestjs_microservice_mono.Prelude.{
  ℕ, ◌+◌, [], ◌∷◌, template, String, ◌≡◌, ◌≢◌, refl, ap, sym, ◌∙◌, Option, none, some, In, inl, inr,
  Option-cases, ◌==◌, eq_iff,
}
use nestjs_microservice_mono.Errors.Defs.{Outcome, ok, err}
use nestjs_microservice_mono.Entities.{User, Database, version, save_user}
use nestjs_microservice_mono.Json.{str, field, end}
use nestjs_microservice_mono.Outbox.{StageParams}
use nestjs_microservice_mono.Driver.{Driver, IsQuery}
use nestjs_microservice_mono.Outbox.Staging.{
  IsAnnounced, stage_outbox_event-IsAnnounced, users_unchanged,
}
use nestjs_microservice_mono.Users.Common.{
  err-ne-ok, after_flush-eq-ok, find_by_id, find_by_id-eq-ok, live_or_missing, user_not_found,
  replace_user_self, In-replace_user,
}
use nestjs_microservice_mono.Users.Profile.{scrub, user_deleted, delete_found, delete_user}

-- All documents of the id are deleted.
abbrev pub IsDeleted : String → Database → Type 0
IsDeleted i db = (v : User) → In v db.users → v.id ≡ i → v.deleted_at ≢ none

marked :
    (now : ℕ) (u v : User) → v ≡ record (scrub now u) { updated_at = now } → v.deleted_at ≢ none
unfolding scrub
marked now u v e alive = cc (sym alive ∙ ap (λ (w : User). w.deleted_at) e)

live_or_missing-deleted :
    (o : Option User)
    → ((u : User) → o ≡ some u → u.deleted_at ≢ none)
    → live_or_missing o ≡ err user_not_found
unfolding live_or_missing
live_or_missing-deleted none gone = refl
live_or_missing-deleted (some u) gone = elim (Option-cases u.deleted_at) [
  | inl alive ↦ absurd (gone u refl alive)
  | inr (t, marked) ↦ simp marked
]

pub find_by_id-IsDeleted :
    (d : Driver) (uid i : String) (db : Database)
    → IsQuery d.find_user
    → d.object_id uid ≡ ok i
    → IsDeleted i db
    → find_by_id d uid db ≡ err user_not_found
unfolding find_by_id
find_by_id-IsDeleted d uid i db q parsed gone =
    rw (parsed, find_by_id)
      (live_or_missing-deleted _ (λ u e.
        let (listed, match) = q.found (λ v. v.id == i) db.users u e in
        gone u listed ((eq_iff u.id i).0 match)))

-- The event that announces the deletion of an account.
abbrev pub announcement : String → StageParams
announcement i = record {
  target = "user";
  pattern_key = "user.deleted";
  payload = field "userId" (str i) end;
  idempotency_key = template ("user.deleted:" ∷ i ∷ []);
}

-- The soft-deleted account, its document and its announcement.
pub record WasDeleted (now : ℕ) (u : User) (db after : Database) : Type 0 where
  pub listed : In u db.users
  pub alive : u.deleted_at ≡ none
  pub stored : User
  pub written : In stored after.users
  pub same : stored.id ≡ u.id
  pub marked_at : stored.deleted_at ≡ some now
  pub scrubbed : (stored.email ≡ none) × (stored.password_hash ≡ none)
  pub voided : (stored.reset_password_token ≡ none) × (stored.reset_password_expiry ≡ none)
  pub raised : version stored ≡ version u + 1
  pub deleted : IsDeleted u.id after
  pub announced : IsAnnounced (announcement u.id) db.outbox after.outbox

delete_found-WasDeleted :
    (d : Driver) (now : ℕ) (event_id : String) (r : Outcome User) (db : Database)
    → IsQuery d.find_event
    → ((u : User) → r ≡ ok u → In u db.users × (u.deleted_at ≡ none))
    → (delete_found d now event_id r db).0 ≡ ok tt
    → (u : User) × (r ≡ ok u) × WasDeleted now u db (delete_found d now event_id r db).1
unfolding delete_found save_user scrub user_deleted
delete_found-WasDeleted d now event_id (err e) db q known h = absurd (err-ne-ok e tt h)
delete_found-WasDeleted d now event_id (ok u) db q known h =
    let (listed, alive) = known u refl in
    let (_, kept) = after_flush-eq-ok _ tt tt _ h in
    let same = users_unchanged d now event_id (user_deleted u) db in
    let event = stage_outbox_event-IsAnnounced d now event_id (user_deleted u) db q in
    (
      u,
      refl,
      rw kept (record {
        listed = listed;
        alive = alive;
        stored = record (scrub now u) { updated_at = now };
        written = rw same (In-replace_user _ u db.users listed refl);
        same = refl;
        marked_at = refl;
        scrubbed = (refl, refl);
        voided = (refl, refl);
        raised = refl;
        deleted = λ v i e live. marked now u v (replace_user_self _ v _ i (unfold scrub in e)) live;
        announced = event;
      }),
    )

-- A deletion that succeeds was of a live account. Its stored document is marked as deleted at that time,
-- has no e-mail, password or reset token, and a token version raised by one; every document of its id is
-- marked as deleted. The outbox holds an event under the key "user.deleted:" with the account's id, not
-- given up, which is new and says "user.deleted" with that id as its payload, or was given up and goes out
-- again with that payload, or was there already.
pub delete_user-WasDeleted :
    (d : Driver) (now : ℕ) (event_id uid : String) (db : Database)
    → IsQuery d.find_user
    → IsQuery d.find_event
    → (delete_user d now event_id uid db).0 ≡ ok tt
    → (u : User) × (find_by_id d uid db ≡ ok u)
      × WasDeleted now u db (delete_user d now event_id uid db).1
unfolding delete_user
delete_user-WasDeleted d now event_id uid db q qe h =
    delete_found-WasDeleted d now event_id (find_by_id d uid db) db qe
      (λ u e. let (listed, alive, _) = find_by_id-eq-ok d uid db u q e in (listed, alive)) h

-- After a deletion that succeeds, the id is not found any more by the read that the other
-- methods begin with.
pub find_by_id-delete_user :
    (d : Driver) (now : ℕ) (event_id uid : String) (db : Database)
    → IsQuery d.find_user
    → IsQuery d.find_event
    → (delete_user d now event_id uid db).0 ≡ ok tt
    → find_by_id d uid (delete_user d now event_id uid db).1 ≡ err user_not_found
find_by_id-delete_user d now event_id uid db q qe h =
    let (u, found, gone) = delete_user-WasDeleted d now event_id uid db q qe h in
    let (_, _, parsed) = find_by_id-eq-ok d uid db u q found in
    find_by_id-IsDeleted d uid u.id _ q parsed gone.deleted
