-- ===== src/History/Deleted.antt =====
-- What is deleted stays deleted, whatever operations follow.
use nestjs_microservice_mono.Prelude.{ℕ, String, ◌≡◌, ◌≢◌, refl, none}
use nestjs_microservice_mono.Errors.Defs.{ok, err}
use nestjs_microservice_mono.Entities.{Database}
use nestjs_microservice_mono.Driver.{Driver, IsQuery}
use nestjs_microservice_mono.Users.Common.{find_by_id, find_by_id-eq-ok, user_not_found}
use nestjs_microservice_mono.Users.Upgrade.{UpgradePayload, upgrade_account, upgrade_found}
use nestjs_microservice_mono.Users.Profile.{UpdateUserInput, update_user, delete_user}
use nestjs_microservice_mono.Users.Profile.Deletion.{delete_user-WasDeleted, find_by_id-IsDeleted}
use nestjs_microservice_mono.History.{IsFlush, Reach}
use nestjs_microservice_mono.History.Steps.{Reach-Holds}

-- After a deletion that succeeds, and after any number of further operations in any order, the id is
-- still not found, and an update, a deletion or an upgrade of the account is refused with 404 and
-- changes nothing, as long as no later account is given the same id.
pub delete_user-stays_deleted :
    (d : Driver) (now : ℕ) (event_id uid i : String) (before last : Database) (later : ℕ)
    (salt event_id' : String) (input : UpdateUserInput) (p : UpgradePayload)
    → IsQuery d.find_user
    → IsQuery d.find_event
    → IsFlush d.flush
    → d.object_id uid ≡ ok i
    → (delete_user d now event_id uid before).0 ≡ ok tt
    → Reach d i (delete_user d now event_id uid before).1 last
    → (find_by_id d uid last ≡ err user_not_found)
      × (update_user d later uid input last ≡ (err user_not_found, last))
      × (delete_user d later event_id' uid last ≡ (err user_not_found, last))
      × (upgrade_account d later salt uid p last ≡ (err user_not_found, last))
unfolding update_user delete_user upgrade_account upgrade_found
delete_user-stays_deleted d now event_id uid i before last later salt event_id' input p query events
      law parsed done history =
    let (u, found, gone) = delete_user-WasDeleted d now event_id uid before query events done in
    let (_, _, same) = find_by_id-eq-ok d uid before u query found in
    let whose : i ≡ u.id = cc in
    let marked =
      Reach-Holds d law i (λ v. v.deleted_at ≢ none) (λ v w write old. absurd (old write.live)) _
        last query history (rw whose gone.deleted) in
    let missing = find_by_id-IsDeleted d uid i last query parsed marked in
    (missing, rw missing refl, rw missing refl, rw missing refl)
