-- ===== src/Outbox/Sweeps.antt =====
-- Staging and sweeping over the whole collection.
use nestjs_microservice_mono.Prelude.{
  ℕ, ◌+◌, ◌≤◌, String, ◌≡◌, refl, Bool, true, false, Option, none, some, List, [], ◌∷◌, inl, inr,
  All, length, arith, Bool-cases,
}
use nestjs_microservice_mono.Json.{Fields}
use nestjs_microservice_mono.Errors.Defs.{Outcome, ok}
use nestjs_microservice_mono.Entities.{OutboxEvent, pending, sent, Database}
use nestjs_microservice_mono.Driver.{Driver, Flush, written, rejected, IsQuery}
use nestjs_microservice_mono.EventBus.{publish_event}
use nestjs_microservice_mono.Outbox.{
  StageParams, revive, new_event, stage_outbox_event, dispatch_all, is_due, is_failed, IsBatchQuery,
  Dispatcher, Tally, finish, run_batch, sweep,
}
use nestjs_microservice_mono.Outbox.Everywhere.{stage_outbox_event-All, sweep-All}
use nestjs_microservice_mono.Outbox.Rows.{IsSound, dispatch_row-IsSound}

revive-IsSound : (p : StageParams) (r : OutboxEvent) → IsSound r → IsSound (revive p r)
unfolding revive
revive-IsSound p r h = elim (Bool-cases (is_failed r.status)) [
  | inl gone ↦ rw gone (omega arith)
  | inr kept ↦ rw kept h
]

-- Staging keeps every row consistent: it adds a pending row with no attempts, or revives one that
-- was given up.
pub stage_outbox_event-IsSound :
    (d : Driver) (now : ℕ) (i : String) (p : StageParams) (db : Database)
    → IsQuery d.find_event
    → All IsSound db.outbox
    → All IsSound (stage_outbox_event d now i p db).1.outbox
stage_outbox_event-IsSound d now i p db q h =
    stage_outbox_event-All IsSound d now i p db q (unfold new_event in omega arith)
      (revive-IsSound p) h

due-pending : (r : OutboxEvent) → is_due r ≡ true → r.status ≡ pending
due-pending r h = ground arith

finish-releases :
    (f : Flush) (db : Database) (t : Tally) (self : Dispatcher)
    → (finish f db t self).2.running ≡ false
unfolding finish
finish-releases written db t self = refl
finish-releases (rejected x after) db t self = refl

module _ (d : Driver) (now : ℕ) (publish : OutboxEvent → Outcome (Unit {0}))
    (self : Dispatcher) where
  run_batch-releases :
      (rows : List OutboxEvent) (db : Database)
      → (run_batch d now publish rows db self).2.running ≡ false
  unfolding run_batch
  run_batch-releases [] db = refl
  run_batch-releases (row ∷ rows) db = finish-releases _ _ _ _

-- Where every row is consistent, a sweep that ends without an exception keeps every row so,
-- whatever the bus does with the events: no row is attempted more than ten times, and a row is
-- given up exactly at the tenth.
pub sweep-IsSound :
    (d : Driver) (find : List OutboxEvent → List OutboxEvent) (now : ℕ)
    (publish : OutboxEvent → Outcome (Unit {0})) (db : Database) (self : Dispatcher) (t : Tally)
    → IsBatchQuery find
    → All IsSound db.outbox
    → (sweep d find now publish db self).0 ≡ ok t
    → All IsSound (sweep d find now publish db self).1.outbox
sweep-IsSound d find now publish db self t q h e =
    sweep-All IsSound now publish
      (λ r due sound. dispatch_row-IsSound now (publish r) r (due-pending r due) sound) d find db
      self t q h e

-- The dispatcher is free again after every sweep that it began, also after one whose flush fails.
pub sweep-releases :
    (d : Driver) (find : List OutboxEvent → List OutboxEvent) (now : ℕ)
    (publish : OutboxEvent → Outcome (Unit {0})) (db : Database) (self : Dispatcher)
    → self.running ≡ false
    → (sweep d find now publish db self).2.running ≡ false
unfolding sweep
sweep-releases d find now publish db self idle =
    simp idle (run_batch-releases d now publish _ (find db.outbox) db)

-- Events counted by the tally: each row of the batch that the bus took, and each that used up its
-- attempts.
count-le :
    (now : ℕ) (publish : OutboxEvent → Outcome (Unit {0})) (rows : List OutboxEvent)
    → (dispatch_all now publish rows).1.dispatched + (dispatch_all now publish rows).1.failures
      ≤ length rows
unfolding dispatch_all
count-le now publish [] = omega arith
count-le now publish (row ∷ rows) = ground (arith, count-le now publish rows)

-- What `publishEvent` is given never comes back as an exception.
publish_event-returns :
    (bus : Option (String → Fields → Outcome Bool)) (k : String) (fs : Fields)
    → publish_event bus k fs ≡ ok tt
unfolding publish_event
publish_event-returns none k fs = refl
publish_event-returns (some b) k fs = ground arith

-- The publisher that the dispatcher uses: `rpc.publishEvent(row.pattern, row.payload)`.
abbrev pub over_rpc : Option (String → Fields → Outcome Bool) → OutboxEvent → Outcome (Unit {0})
over_rpc bus r = publish_event bus r.pattern_key r.payload

-- Over the RPC client every row of a batch ends as sent and none as failed, also where no bus
-- is wired, the bus drops the event or it throws.
pub dispatch_all-over_rpc :
    (now : ℕ) (bus : Option (String → Fields → Outcome Bool)) (rows : List OutboxEvent)
    → All (λ r. r.status ≡ sent) (dispatch_all now (over_rpc bus) rows).0
      × ((dispatch_all now (over_rpc bus) rows).1.dispatched ≡ length rows)
      × ((dispatch_all now (over_rpc bus) rows).1.failures ≡ 0)
unfolding dispatch_all
dispatch_all-over_rpc now bus [] = (tt, refl, refl)
dispatch_all-over_rpc now bus (row ∷ rows) =
    let (all_sent, count, no_failure) = dispatch_all-over_rpc now bus rows in
    rw publish_event-returns ((refl, all_sent), omega (arith, count), no_failure)
