-- ===== src/Outbox.antt =====
-- libs/messaging/src/outbox/outbox.service.ts: staging an event in the caller's unit of work, and
-- the dispatcher's sweep. The query for pending rows and the flush are parameters.
pub mod Everywhere
pub mod Rows
pub mod Staging
pub mod Sweeps
pub mod Schedule
use nestjs_microservice_mono.Prelude.{
  ℕ, ◌+◌, ◌<◌, ◌≤◌, String, ◌≡◌, Bool, true, false, ◌&&◌, Option, none, some, List, [], ◌∷◌, ◌++◌,
  In, All, length, keep, ltb, leb, ◌==◌, if◌then◌else◌,
}
use nestjs_microservice_mono.Json.{Fields}
use nestjs_microservice_mono.Errors.Defs.{Thrown, Outcome, ok, err, message_of}
use nestjs_microservice_mono.Entities.{
  OutboxEvent, OutboxEventStatus, pending, sent, failed, Database, replace_event,
}
use nestjs_microservice_mono.Driver.{Driver, Flush, written, rejected}

abbrev pub max_batch : ℕ
max_batch = 25

abbrev pub max_attempts : ℕ
max_attempts = 10

pub record StageParams : Type 0 where
  pub target : String
  pub pattern_key : String
  pub payload : Fields
  pub idempotency_key : String

pub record StageOutboxResult : Type 0 where
  pub row : OutboxEvent
  pub created : Bool

abbrev pub is_failed : OutboxEventStatus → Bool
is_failed failed = true
is_failed _ = false

abbrev is_pending : OutboxEventStatus → Bool
is_pending pending = true
is_pending _ = false

-- A row that was given up goes back to the queue; any other row is left as it is.
unfoldable pub revive : StageParams → OutboxEvent → OutboxEvent
revive p row =
    if is_failed row.status
    then record row { status = pending; attempts = 0; last_error = none; payload = p.payload }
    else row

unfoldable pub new_event : StageParams → String → ℕ → OutboxEvent
new_event p i now = record {
  id = i;
  created_at = now;
  target = p.target;
  pattern_key = p.pattern_key;
  payload = p.payload;
  idempotency_key = p.idempotency_key;
  status = pending;
  last_attempt_at = none;
  attempts = 0;
  last_error = none;
}

stage_row : StageParams → String → ℕ → Database → Option OutboxEvent → StageOutboxResult × Database
stage_row p i now db (some row) = (
  record { row = revive p row; created = false },
  record db { outbox = replace_event (revive p row) db.outbox },
)
stage_row p i now db none = (
  record { row = new_event p i now; created = true },
  record db { outbox = db.outbox ++ new_event p i now ∷ [] },
)

-- The database is the unit of work's view; the caller flushes it.
unfoldable pub stage_outbox_event :
    Driver → ℕ → String → StageParams → Database → StageOutboxResult × Database
unfolding stage_row
stage_outbox_event d now i p db =
    stage_row p i now db (d.find_event (λ r. r.idempotency_key == p.idempotency_key) db.outbox)

-- One round of the loop of `sweep`: what the row becomes after its `publishEvent`.
unfoldable pub dispatch_row : ℕ → Outcome (Unit {0}) → OutboxEvent → OutboxEvent
dispatch_row now (ok _) row = record row {
  status = sent;
  last_attempt_at = some now;
  attempts = row.attempts + 1;
}
dispatch_row now (err e) row = record row {
  attempts = row.attempts + 1;
  last_attempt_at = some now;
  last_error = message_of e;
  status = if leb max_attempts (row.attempts + 1) then failed else row.status;
}

pub record Tally : Type 0 where
  pub dispatched : ℕ
  pub failures : ℕ

abbrev pub no_rows : Tally
no_rows = record { dispatched = 0; failures = 0 }

count_row : Outcome (Unit {0}) → OutboxEvent → Tally → Tally
count_row (ok _) row t = record t { dispatched = t.dispatched + 1 }
count_row (err e) row t =
    if leb max_attempts (row.attempts + 1) then record t { failures = t.failures + 1 } else t

-- The loop of `sweep` over the batch: the rows as they are now, and the tally.
unfoldable pub dispatch_all :
    ℕ → (OutboxEvent → Outcome (Unit {0})) → List OutboxEvent → List OutboxEvent × Tally
unfolding dispatch_row count_row
dispatch_all now publish [] = ([], no_rows)
dispatch_all now publish (row ∷ rows) =
    let (rows', t) = dispatch_all now publish rows in
    (dispatch_row now (publish row) row ∷ rows', count_row (publish row) row t)

unfoldable pub write_rows : List OutboxEvent → List OutboxEvent → List OutboxEvent
write_rows [] outbox = outbox
write_rows (row ∷ rows) outbox = write_rows rows (replace_event row outbox)

-- The filter of the dispatcher's query.
abbrev pub is_due : OutboxEvent → Bool
is_due r = is_pending r.status && ltb r.attempts max_attempts

-- `em.find(OutboxEvent, { status: 'pending', attempts: { $lt } }, { orderBy, limit })` returns at
-- most `limit` rows of the collection that pass the filter.
pub record IsBatchQuery (find : List OutboxEvent → List OutboxEvent) : Type 0 where
  pub listed : (rows : List OutboxEvent) → All (λ r. In r rows × (is_due r ≡ true)) (find rows)
  pub limited : (rows : List OutboxEvent) → length (find rows) ≤ max_batch

-- The dispatcher: `running` guards against overlapping sweeps; the gauges are Prometheus'.
pub record Dispatcher : Type 0 where
  pub running : Bool
  pub pending_gauge : ℕ
  pub failed_gauge : ℕ

abbrev pub count_status : (OutboxEventStatus → Bool) → List OutboxEvent → ℕ
count_status p rows = length (keep (λ (r : OutboxEvent). p r.status) rows)

unfoldable pub finish :
    Flush → Database → Tally → Dispatcher → Outcome Tally × Database × Dispatcher
finish (rejected e after) db t self = (err e, after, record self { running = false })
finish written db t self = (
  ok t,
  db,
  record {
    running = false;
    pending_gauge = count_status is_pending db.outbox;
    failed_gauge = count_status is_failed db.outbox;
  },
)

unfoldable pub run_batch :
    Driver
    → ℕ
    → (OutboxEvent → Outcome (Unit {0}))
    → List OutboxEvent
    → Database
    → Dispatcher
    → Outcome Tally × Database × Dispatcher
run_batch d now publish [] db self = (ok no_rows, db, record self { running = false })
run_batch d now publish (row ∷ rows) db self =
    let (rows', t) = dispatch_all now publish (row ∷ rows) in
    let after : Database = record db { outbox = write_rows rows' db.outbox } in
    finish (d.flush db after) after t self

unfoldable pub sweep :
    Driver
    → (List OutboxEvent → List OutboxEvent)
    → ℕ
    → (OutboxEvent → Outcome (Unit {0}))
    → Database
    → Dispatcher
    → Outcome Tally × Database × Dispatcher
unfolding run_batch finish dispatch_all write_rows
sweep d find now publish db self =
    if self.running
    then (ok no_rows, db, self)
    else run_batch d now publish (find db.outbox) db (record self { running = true })
