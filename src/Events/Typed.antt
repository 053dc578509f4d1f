-- ===== src/Events/Typed.antt =====
-- The events of the outbox have the payloads that their consumers' guards accept:
-- libs/common/src/events/schemas.ts against what apps/user/src/modules/users/users.service.ts stages and
-- libs/messaging/src/outbox/outbox.service.ts keeps.
use nestjs_microservice_mono.Prelude.{
  ℕ, String, ◌≡◌, true, Bool-cases, inl, inr, truthy, some, List, All,
}
use nestjs_microservice_mono.Json.{obj}
use nestjs_microservice_mono.Errors.Defs.{Outcome, ok, err}
use nestjs_microservice_mono.Entities.{User, OutboxEvent, Database, save_user}
use nestjs_microservice_mono.Driver.{Driver, IsQuery}
use nestjs_microservice_mono.Outbox.{
  StageParams, revive, new_event, is_failed, dispatch_row, Dispatcher, Tally, IsBatchQuery, sweep,
}
use nestjs_microservice_mono.Outbox.Everywhere.{stage_outbox_event-All, sweep-All}
use nestjs_microservice_mono.Users.Common.{after_flush-eq-ok, find_by_id}
use nestjs_microservice_mono.Users.Profile.{user_deleted, delete_found, delete_user}
use nestjs_microservice_mono.Events.{parse_user_deleted, parse_user_deleted-user_deleted}

-- An event under the pattern has a payload that the guard narrows.
abbrev pub IsTyped : OutboxEvent → Type 0
IsTyped r =
    r.pattern_key ≡ "user.deleted"
    → (uid : String) × (parse_user_deleted (obj r.payload) ≡ some uid)

abbrev Parses : StageParams → Type 0
Parses p = (uid : String) × (parse_user_deleted (obj p.payload) ≡ some uid)

-- A row that is revived takes the payload that is staged now.
revive-IsTyped : (p : StageParams) (r : OutboxEvent) → Parses p → IsTyped r → IsTyped (revive p r)
unfolding revive
revive-IsTyped p r parses typed = elim (Bool-cases (is_failed r.status)) [
  | inl gone ↦ rw gone (λ keyed. parses)
  | inr kept ↦ rw kept typed
]

dispatch_row-IsTyped :
    (now : ℕ) (o : Outcome (Unit {0})) (r : OutboxEvent)
    → IsTyped r
    → IsTyped (dispatch_row now o r)
unfolding dispatch_row
dispatch_row-IsTyped now (ok done) r typed = typed
dispatch_row-IsTyped now (err e) r typed = typed

delete_found-IsTyped :
    (d : Driver) (now : ℕ) (event_id : String) (u : User) (db : Database)
    → IsQuery d.find_event
    → truthy (some u.id) ≡ true
    → (delete_found d now event_id (ok u) db).0 ≡ ok tt
    → All IsTyped db.outbox
    → All IsTyped (delete_found d now event_id (ok u) db).1.outbox
unfolding delete_found save_user
delete_found-IsTyped d now event_id u db q named h typed =
    let (_, kept) = after_flush-eq-ok _ tt tt _ h in
    let parses : Parses (user_deleted u) = (u.id, parse_user_deleted-user_deleted u named) in
    rw kept (
      stage_outbox_event-All IsTyped d now event_id (user_deleted u) db q
        (unfold new_event in λ keyed. parses) (λ r. revive-IsTyped (user_deleted u) r parses) typed)

-- Where every event under "user.deleted" has a payload that the consumer's guard accepts, a deletion
-- that succeeds, of an account whose id is not empty, and a sweep of the outbox that ends without an
-- exception keep it so.
pub delete_user-IsTyped :
    (d : Driver) (now later : ℕ) (event_id uid : String) (u : User) (db : Database)
    (find : List OutboxEvent → List OutboxEvent) (publish : OutboxEvent → Outcome (Unit {0}))
    (self : Dispatcher) (t : Tally)
    → IsQuery d.find_event
    → IsBatchQuery find
    → find_by_id d uid db ≡ ok u
    → truthy (some u.id) ≡ true
    → (delete_user d now event_id uid db).0 ≡ ok tt
    → (sweep d find later publish (delete_user d now event_id uid db).1 self).0 ≡ ok t
    → All IsTyped db.outbox
    → All IsTyped (delete_user d now event_id uid db).1.outbox
      × All IsTyped (sweep d find later publish (delete_user d now event_id uid db).1 self).1.outbox
unfolding delete_user
delete_user-IsTyped d now later event_id uid u db find publish self t q batch found named h swept
      typed =
    let after : All IsTyped (delete_user d now event_id uid db).1.outbox =
      rw found (delete_found-IsTyped d now event_id u db q named (rw found at h) typed) in
    (
      after,
      sweep-All IsTyped later publish (λ r due k. dispatch_row-IsTyped later (publish r) r k) d find
          _ self t batch after swept,
    )
