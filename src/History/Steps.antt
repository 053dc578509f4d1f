-- ===== src/History/Steps.antt =====
-- Each operation keeps a property of an account's documents that no write to a live account breaks.
use nestjs_microservice_mono.Prelude.{
  ℕ, String, ◌≡◌, refl, Option, none, some, List, [], ◌∷◌, In, inl, inr, arith, Bool-cases,
}
use nestjs_microservice_mono.Errors.Defs.{Outcome, ok, err}
use nestjs_microservice_mono.Entities.{User, Database, OutboxEvent}
use nestjs_microservice_mono.Driver.{Driver, Flush, written, rejected, IsQuery}
use nestjs_microservice_mono.Users.Common.{find_by_id, find_by_id-eq-ok}
use nestjs_microservice_mono.Users.Autoreg.{create_autoreg_user}
use nestjs_microservice_mono.Users.Upgrade.{upgrade_account}
use nestjs_microservice_mono.Users.OAuth.{find_or_create_oauth_user}
use nestjs_microservice_mono.Users.Password.{
  forgot_password, forgot_found, mail_after, reset_password, reset_found, with_password,
  with_reset_token, has_expired,
}
use nestjs_microservice_mono.Users.Profile.{
  UpdateUserInput, apply_update, update_user, update_found, scrub, user_deleted, delete_user,
  delete_found,
}
use nestjs_microservice_mono.Outbox.{
  Tally, Dispatcher, finish, run_batch, sweep, stage_outbox_event,
}
use nestjs_microservice_mono.Outbox.Staging.{users_unchanged}
use nestjs_microservice_mono.Purge.{Deletes, purge_user, purge_all, purge_users}
use nestjs_microservice_mono.Purge.Steps.{purge_user-users}
use nestjs_microservice_mono.History.{
  IsFlush, Step, register, promotion, oauth, forgot, reset, update, delete, dispatch, purge, Reach,
  here, and_then,
}
use nestjs_microservice_mono.History.Accounts.{
  use_device-Holds, linked_or-Holds, upgrade_found-Holds, live_found,
}
use nestjs_microservice_mono.History.Holds.{
  Holds, IsStable, Holds-flush, Holds-after_flush, Holds-save_user,
}

module _ (d : Driver) (law : IsFlush d.flush) (i : String) (P : User → Type 0)
    (stable : IsStable P) where
  found_by_id :
      (db : Database) (uid : String)
      → IsQuery d.find_user
      → (u : User) → find_by_id d uid db ≡ ok u
      → In u db.users × (u.deleted_at ≡ none)
  found_by_id db uid q u e =
      let (listed, alive, _) = find_by_id-eq-ok d uid db u q e in (listed, alive)

  -- The passwords.
  mail_after-Holds :
      (f : Flush) (email token : String) (before after : Database)
      → d.flush before after ≡ f
      → Holds i P before
      → Holds i P after
      → Holds i P (mail_after f email token after).db
  unfolding mail_after
  mail_after-Holds written email token before after h old new = new
  mail_after-Holds (rejected e left) email token before after h old new =
      Holds-flush i P d.flush before after left e law h old new

  forgot_found-Holds :
      (now : ℕ) (email token : String) (o : Option User) (db : Database)
      → ((u : User) → o ≡ some u → In u db.users × (u.deleted_at ≡ none))
      → Holds i P db
      → Holds i P (forgot_found d now email token o db).db
  unfolding forgot_found
  forgot_found-Holds now email token none db known old = old
  forgot_found-Holds now email token (some u) db known old =
      mail_after-Holds _ email token db _ refl old (
        Holds-save_user i P now u (with_reset_token d now token u) db stable (known u refl).0
          (unfold with_reset_token in
            record { id = refl; live = (known u refl).1; raises = omega arith })
          old)

  reset_found-Holds :
      (now : ℕ) (salt password : String) (o : Option User) (db : Database)
      → ((u : User) → o ≡ some u → In u db.users × (u.deleted_at ≡ none))
      → Holds i P db
      → Holds i P (reset_found d now salt password o db).1
  unfolding reset_found
  reset_found-Holds now salt password none db known old = old
  reset_found-Holds now salt password (some u) db known old =
      elim (Bool-cases (has_expired u.reset_password_expiry now)) [
        | inl late ↦ simp late old
        | inr in_time ↦ simp in_time (
            Holds-after_flush i P d.flush db _ tt _ law refl old (
              Holds-save_user i P now u (with_password d salt password u) db stable (known u refl).0
                (unfold with_password in
                  record { id = refl; live = (known u refl).1; raises = omega arith })
                old))
      ]

  -- The profile.
  update_found-Holds :
      (now : ℕ) (input : UpdateUserInput) (r : Outcome User) (db : Database)
      → ((u : User) → r ≡ ok u → In u db.users × (u.deleted_at ≡ none))
      → Holds i P db
      → Holds i P (update_found d now input r db).1
  unfolding update_found
  update_found-Holds now input (err e) db known old = old
  update_found-Holds now input (ok u) db known old =
      Holds-after_flush i P d.flush db _ _ _ law refl old (
        Holds-save_user i P _ u (apply_update input u) db stable (known u refl).0
          (unfold apply_update in
            record { id = refl; live = (known u refl).1; raises = omega arith })
          old)

  delete_found-Holds :
      (now : ℕ) (event_id : String) (r : Outcome User) (db : Database)
      → ((u : User) → r ≡ ok u → In u db.users × (u.deleted_at ≡ none))
      → Holds i P db
      → Holds i P (delete_found d now event_id r db).1
  unfolding delete_found
  delete_found-Holds now event_id (err e) db known old = old
  delete_found-Holds now event_id (ok u) db known old =
      let staged = (stage_outbox_event d now event_id (user_deleted u) db).1 in
      let same = users_unchanged d now event_id (user_deleted u) db in
      Holds-after_flush i P d.flush db _ tt _ law refl old (
        Holds-save_user i P now u (scrub now u) staged stable (rw same (known u refl).0)
          (unfold scrub in record { id = refl; live = (known u refl).1; raises = omega arith })
          (λ w listed. old w (rw same at listed)))

  -- The sweep does not touch an account.
  finish-Holds :
      (f : Flush) (before after : Database) (t : Tally) (self : Dispatcher)
      → d.flush before after ≡ f
      → Holds i P before
      → Holds i P after
      → Holds i P (finish f after t self).1
  unfolding finish
  finish-Holds written before after t self h old new = new
  finish-Holds (rejected e left) before after t self h old new =
      Holds-flush i P d.flush before after left e law h old new

  run_batch-Holds :
      (now : ℕ) (publish : OutboxEvent → Outcome (Unit {0})) (rows : List OutboxEvent)
      (db : Database) (self : Dispatcher)
      → Holds i P db
      → Holds i P (run_batch d now publish rows db self).1
  unfolding run_batch
  run_batch-Holds now publish [] db self old = old
  run_batch-Holds now publish (row ∷ rows) db self old = finish-Holds _ db _ _ self refl old old

  sweep-Holds :
      (find : List OutboxEvent → List OutboxEvent) (now : ℕ)
      (publish : OutboxEvent → Outcome (Unit {0})) (db : Database) (self : Dispatcher)
      → Holds i P db
      → Holds i P (sweep d find now publish db self).1
  unfolding sweep
  sweep-Holds find now publish db self old = elim (Bool-cases self.running) [
    | inl busy ↦ simp busy old
    | inr idle ↦ simp idle (run_batch-Holds now publish (find db.outbox) db _ old)
  ]

  -- The purge only removes documents.
  purge_all-Holds :
      (fate : String → Deletes) (vs : List User) (db : Database)
      → Holds i P db
      → Holds i P (purge_all fate vs db).1
  unfolding purge_all
  purge_all-Holds fate [] db old = old
  purge_all-Holds fate (v ∷ vs) db old =
      purge_all-Holds fate vs (purge_user (fate v.id) v.id db).1
        (λ u listed. old u (purge_user-users v.id db (fate v.id) u listed))

  Step-Holds : (a b : Database) → IsQuery d.find_user → Step d i a b → Holds i P a → Holds i P b
  unfolding create_autoreg_user find_or_create_oauth_user upgrade_account forgot_password
      reset_password update_user delete_user purge_users
  Step-Holds a b q (register f p other e) old =
      rw e (use_device-Holds d law i P stable f p _ a other old)
  Step-Holds a b q (promotion now salt uid p e) old =
      rw e (upgrade_found-Holds d law i P stable now salt uid p _ a (found_by_id a uid q) old)
  Step-Holds a b q (oauth now new_id p other e) old =
      rw e (linked_or-Holds d law i P stable now new_id p _ a q other old)
  Step-Holds a b q (forgot now token email e) old =
      rw e (forgot_found-Holds now email token _ a (live_found d q _ a) old)
  Step-Holds a b q (reset now salt token password e) old =
      rw e (reset_found-Holds now salt password _ a (live_found d q _ a) old)
  Step-Holds a b q (update now uid input e) old =
      rw e (update_found-Holds now input _ a (found_by_id a uid q) old)
  Step-Holds a b q (delete now event_id uid e) old =
      rw e (delete_found-Holds now event_id _ a (found_by_id a uid q) old)
  Step-Holds a b q (dispatch find now publish self e) old =
      rw e (sweep-Holds find now publish a self old)
  Step-Holds a b q (purge find sub_days fate now e) old = rw e (purge_all-Holds fate _ a old)

  -- However many operations follow, what held of all documents of the id holds of them.
  pub Reach-Holds :
      (a b : Database) → IsQuery d.find_user → Reach d i a b → Holds i P a → Holds i P b
  Reach-Holds a b q here old = old
  Reach-Holds a c q (and_then b _ past last) old =
      Step-Holds b c q last (Reach-Holds a b q past old)
