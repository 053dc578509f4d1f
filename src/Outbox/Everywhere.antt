-- ===== src/Outbox/Everywhere.antt =====
-- What staging and a sweep keep of every row.
use nestjs_microservice_mono.Prelude.{
  ℕ, String, ◌≡◌, refl, true, Option, none, some, List, [], ◌∷◌, ◌++◌, inl, inr, In, All, All-In,
  ◌==◌, Bool-cases,
}
use nestjs_microservice_mono.Errors.Defs.{Outcome, ok}
use nestjs_microservice_mono.Entities.{OutboxEvent, Database, replace_event}
use nestjs_microservice_mono.Driver.{Driver, Flush, written, rejected, IsQuery}
use nestjs_microservice_mono.Outbox.{
  StageParams, revive, new_event, stage_row, stage_outbox_event, dispatch_row, dispatch_all,
  write_rows, is_due, IsBatchQuery, Dispatcher, Tally, finish, run_batch, sweep,
}

finish-eq-ok :
    (f : Flush) (db : Database) (t : Tally) (self : Dispatcher) (t' : Tally)
    → (finish f db t self).0 ≡ ok t'
    → (finish f db t self).1 ≡ db
unfolding finish
finish-eq-ok written db t self t' e = refl
finish-eq-ok (rejected x after) db t self t' e = cc

module _ (P : OutboxEvent → Type 0) where
  replace_event-All :
      (r : OutboxEvent) (rows : List OutboxEvent) → P r → All P rows → All P (replace_event r rows)
  unfolding replace_event
  replace_event-All r [] p h = tt
  replace_event-All r (x ∷ xs) p h = elim (Bool-cases (x.id == r.id)) [
    | inl same ↦ rw same (p, replace_event-All r xs p h.1)
    | inr other ↦ rw other (h.0, replace_event-All r xs p h.1)
  ]

  write_rows-All :
      (rows outbox : List OutboxEvent) → All P rows → All P outbox → All P (write_rows rows outbox)
  unfolding write_rows
  write_rows-All [] outbox h k = k
  write_rows-All (row ∷ rows) outbox h k =
      write_rows-All rows (replace_event row outbox) h.1 (replace_event-All row outbox h.0 k)

  concat-All : (xs : List OutboxEvent) (r : OutboxEvent) → All P xs → P r → All P (xs ++ r ∷ [])
  concat-All [] r h p = (p, tt)
  concat-All (x ∷ xs) r h p = (h.0, concat-All xs r h.1 p)

  stage_row-All :
      (p : StageParams) (i : String) (now : ℕ) (db : Database) (o : Option OutboxEvent)
      → P (new_event p i now)
      → ((r : OutboxEvent) → P r → P (revive p r))
      → ((r : OutboxEvent) → o ≡ some r → In r db.outbox)
      → All P db.outbox
      → All P (stage_row p i now db o).1.outbox
  unfolding stage_row
  stage_row-All p i now db none new kept f h = concat-All db.outbox _ h new
  stage_row-All p i now db (some row) new kept f h =
      replace_event-All (revive p row) db.outbox (kept row (All-In P row db.outbox h (f row refl)))
        h

  -- Staging adds a new row or revives one.
  pub stage_outbox_event-All :
      (d : Driver) (now : ℕ) (i : String) (p : StageParams) (db : Database)
      → IsQuery d.find_event
      → P (new_event p i now)
      → ((r : OutboxEvent) → P r → P (revive p r))
      → All P db.outbox
      → All P (stage_outbox_event d now i p db).1.outbox
  unfolding stage_outbox_event
  stage_outbox_event-All d now i p db q new kept h =
      stage_row-All p i now db _ new kept (λ r e. (q.found _ db.outbox r e).0) h

  -- What the dispatch of a due row keeps.
  module _ (now : ℕ) (publish : OutboxEvent → Outcome (Unit {0}))
      (kept : (r : OutboxEvent) → is_due r ≡ true → P r → P (dispatch_row now (publish r) r)) where
    dispatch_all-All :
        (rows outbox : List OutboxEvent)
        → All (λ r. In r outbox × (is_due r ≡ true)) rows
        → All P outbox
        → All P (dispatch_all now publish rows).0
    unfolding dispatch_all
    dispatch_all-All [] outbox d h = tt
    dispatch_all-All (row ∷ rows) outbox ((i, due), d) h =
        (kept row due (All-In P row outbox h i), dispatch_all-All rows outbox d h)

    run_batch-All :
        (d : Driver) (rows : List OutboxEvent) (db : Database) (self : Dispatcher) (t : Tally)
        → All (λ r. In r db.outbox × (is_due r ≡ true)) rows
        → All P db.outbox
        → (run_batch d now publish rows db self).0 ≡ ok t
        → All P (run_batch d now publish rows db self).1.outbox
    unfolding run_batch
    run_batch-All d [] db self t due h e = h
    run_batch-All d (row ∷ rows) db self t due h e =
        rw (finish-eq-ok _ _ _ _ t e)
          (write_rows-All _ db.outbox (dispatch_all-All (row ∷ rows) db.outbox due h) h)

    pub sweep-All :
        (d : Driver) (find : List OutboxEvent → List OutboxEvent) (db : Database)
        (self : Dispatcher) (t : Tally)
        → IsBatchQuery find
        → All P db.outbox
        → (sweep d find now publish db self).0 ≡ ok t
        → All P (sweep d find now publish db self).1.outbox
    unfolding sweep
    sweep-All d find db self t q h e = elim (Bool-cases self.running) [
      | inl busy ↦ simp busy h
      | inr idle ↦
          simp idle
            (run_batch-All d (find db.outbox) db _ t (q.listed db.outbox) h (simp idle at e))
    ]
