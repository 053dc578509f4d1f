-- ===== src/Gateway/Profile/Reads.antt =====
-- What the profile routes read after a write.
use nestjs_microservice_mono.Prelude.{
  ℕ, String, ◌≡◌, refl, sym, ◌∙◌, none, In, All-In, inl, inr, eq_iff, ◌==◌, Option-cases,
}
use mathlib.Core.Bool.{false≢true}
use nestjs_microservice_mono.Errors.Defs.{Outcome, ok, err}
use nestjs_microservice_mono.Errors.Filter.{rpc_catch}
use nestjs_microservice_mono.Errors.Client.{send, unwrap_error, rethrow-IsHttp}
use nestjs_microservice_mono.Entities.{User, Database, save_user}
use nestjs_microservice_mono.Driver.{Driver, IsQuery}
use nestjs_microservice_mono.Users.Common.{
  find_by_id, find_by_id-eq-ok, live_or_missing, replace_user_self, In-replace_user,
  after_flush-eq-ok, err-ne-ok,
}
use nestjs_microservice_mono.Users.Profile.{
  UpdateUserInput, UserDto, apply_update, update_user, update_found,
}
use nestjs_microservice_mono.Gateway.Revocation.{observe}
use nestjs_microservice_mono.Gateway.Flows.{Session}
use nestjs_microservice_mono.Gateway.Profile.{get_user_by_id, call, get_me, update_me}

-- An answer was made of the value that the service's handler returned.
call-eq-ok : {A : Type 0} (s : Session) (o : Outcome A) (a : A) → call s o ≡ ok a → o ≡ ok a
unfolding send observe
call-eq-ok s (ok b) a h = h
call-eq-ok {A = A} s (err e) a h =
    let (x, thrown) =
      rethrow-IsHttp A "user" (unwrap_error "user" (s.deliver (rpc_catch s.trace e).answer)) in
    cc (rw thrown at h)

-- The document of an id that was written is the one that is found, if it is live.
find_by_id-save_user :
    (d : Driver) (now : ℕ) (uid : String) (u v : User) (db : Database)
    → IsQuery d.find_user
    → In u db.users
    → d.object_id uid ≡ ok u.id
    → v.id ≡ u.id
    → v.deleted_at ≡ none
    → find_by_id d uid (save_user now v db) ≡ ok (record v { updated_at = now })
unfolding find_by_id save_user live_or_missing
find_by_id-save_user d now uid u v db q listed parsed same alive =
    let after = save_user now v db in
    elim (Option-cases (d.find_user (λ w. w.id == u.id) after.users)) [
      | inl absent ↦ absurd (
          false≢true (
            sym (
              All-In _ _ after.users (q.missing _ after.users absent)
                (In-replace_user _ u db.users listed (sym same)))
            ∙ (eq_iff v.id u.id).1 same))
      | inr (w, found) ↦
          let (there, match) = q.found _ after.users w found in
          let is_v : w ≡ record v { updated_at = now } =
            replace_user_self _ w db.users there ((eq_iff w.id u.id).0 match ∙ sym same) in
          rw (parsed, find_by_id, found, is_v, alive) refl
    ]

update_found-reads :
    (d : Driver) (now : ℕ) (uid : String) (input : UpdateUserInput) (r : Outcome User)
    (dto : UserDto) (db : Database)
    → IsQuery d.find_user
    → find_by_id d uid db ≡ r
    → (update_found d now input r db).0 ≡ ok dto
    → get_user_by_id d uid (update_found d now input r db).1 ≡ ok dto
unfolding update_found get_user_by_id
update_found-reads d now uid input (err e) dto db q found h = absurd (err-ne-ok e dto h)
update_found-reads d now uid input (ok u) dto db q found h =
    let (listed, alive, parsed) = find_by_id-eq-ok d uid db u q found in
    let (told, kept) = after_flush-eq-ok _ _ dto _ h in
    rw
      (
        kept,
        find_by_id-save_user d _ uid u (apply_update input u) db q listed parsed
            (unfold apply_update in refl) (unfold apply_update in alive),
        told,
      )
      refl

-- After an update of the profile that succeeds, the read of the profile answers with what the
-- update answered with.
pub get_me-update_me :
    (s : Session) (d : Driver) (uid : String) (input : UpdateUserInput) (dto : UserDto)
    (db : Database)
    → IsQuery d.find_user
    → (update_me s d uid input db).0 ≡ ok dto
    → get_me s d uid (update_me s d uid input db).1 ≡ ok dto
unfolding get_me update_me update_user send observe
get_me-update_me s d uid input dto db q h =
    rw
      (update_found-reads d s.now uid input (find_by_id d uid db) dto db q refl
        (call-eq-ok s _ dto h))
      refl
