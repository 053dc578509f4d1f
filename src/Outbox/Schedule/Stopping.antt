-- ===== src/Outbox/Schedule/Stopping.antt =====
-- What a destroyed dispatcher still does.
use nestjs_microservice_mono.Prelude.{
  ℕ, ◌≤◌, ◌≡◌, refl, Bool-cases, inl, inr, true, false, Option, none, some, [], arith,
}
use nestjs_microservice_mono.Outbox.Schedule.{
  Loop, fresh_loop, clear_timeout, schedule, on_module_init, stopped, on_module_destroy,
  settle_sweep, settle_skip, Event, initialise, destroy, timeout, swept, skipped, Events, nothing,
  then_event,
}
use nestjs_microservice_mono.Outbox.Schedule.Phases.{
  Phase, quiet, waiting, sweeping, Events-IsLoop, fresh_loop-IsLoop, clear_timeout_self,
}

-- What holds from the moment of destruction on, where `n` sweeps had begun and `m` were running.
record IsStopping (n m : ℕ) (s : Loop) : Type 0 where
  down : s.shutting_down ≡ true
  bare : s.armed ≡ []
  no_more : s.begun ≡ n
  at_most : s.sweeps ≤ m

schedule-down : (s : Loop) → s.shutting_down ≡ true → schedule s ≡ s
unfolding schedule
schedule-down s down = elim (Bool-cases s.shutting_down) [ inl h ↦ simp h | inr h ↦ cc ]

stopped-IsStopping :
    (o : Option ℕ) (s : Loop) → s.timer ≡ o → Phase s → IsStopping s.begun s.sweeps (stopped o s)
unfolding stopped clear_timeout
stopped-IsStopping none s e (quiet bare idle none_running why) = record {
  down = refl;
  bare = bare;
  no_more = refl;
  at_most = omega arith;
}
stopped-IsStopping none s e (waiting t one held idle none_running on up) = cc
stopped-IsStopping none s e (sweeping bare busy one on) = record {
  down = refl;
  bare = bare;
  no_more = refl;
  at_most = omega arith;
}
stopped-IsStopping (some t) s e (quiet bare idle none_running why) = record {
  down = refl;
  bare = rw bare refl;
  no_more = refl;
  at_most = omega arith;
}
stopped-IsStopping (some t) s e (waiting t' one held idle none_running on up) =
    let same : t' ≡ t = cc in
    record {
      down = refl;
      bare = rw (one, same) (clear_timeout_self t);
      no_more = refl;
      at_most = omega arith;
    }
stopped-IsStopping (some t) s e (sweeping bare busy one on) = record {
  down = refl;
  bare = rw bare refl;
  no_more = refl;
  at_most = omega arith;
}

stopped_again :
    (o : Option ℕ) (n m : ℕ) (s : Loop) → IsStopping n m s → IsStopping n m (stopped o s)
unfolding stopped clear_timeout
stopped_again none n m s k = record {
  down = refl;
  bare = k.bare;
  no_more = k.no_more;
  at_most = k.at_most;
}
stopped_again (some t) n m s k = record {
  down = refl;
  bare = rw k.bare refl;
  no_more = k.no_more;
  at_most = k.at_most;
}

Event-IsStopping : (n m : ℕ) (s u : Loop) → Event s u → IsStopping n m s → IsStopping n m u
unfolding on_module_init on_module_destroy settle_sweep settle_skip
Event-IsStopping n m s u (initialise off e) k =
    rw (e, schedule-down (record s { started = true }) k.down)
      (record { down = k.down; bare = k.bare; no_more = k.no_more; at_most = k.at_most })
Event-IsStopping n m s u (destroy e) k = rw e (stopped_again s.timer n m s k)
Event-IsStopping n m s u (timeout t listed e) k = absurd (rw k.bare at listed)
Event-IsStopping n m s u (swept r more e) k =
    let bound = k.at_most in
    rw (e, schedule-down (record s { running = false; sweeps = r }) k.down)
      (record { down = k.down; bare = k.bare; no_more = k.no_more; at_most = omega arith })
Event-IsStopping n m s u (skipped r more e) k =
    rw (e, schedule-down (record s { skips = r }) k.down)
      (record { down = k.down; bare = k.bare; no_more = k.no_more; at_most = k.at_most })

Events-IsStopping : (n m : ℕ) (s u : Loop) → Events s u → IsStopping n m s → IsStopping n m u
Events-IsStopping n m s u nothing k = k
Events-IsStopping n m s u (then_event t _ past last) k =
    Event-IsStopping n m t u last (Events-IsStopping n m s t past k)

-- From `onModuleDestroy` on, whatever timers fire, sweeps end or initialisation completes, no timer
-- is armed, no sweep begins, and only sweeps that were running then may still run.
pub on_module_destroy-IsFinal :
    (s u : Loop)
    → Events fresh_loop s
    → Events (on_module_destroy s) u
    → (u.armed ≡ []) × (u.begun ≡ s.begun) × (u.sweeps ≤ s.sweeps)
unfolding on_module_destroy
on_module_destroy-IsFinal s u past future =
    let k = Events-IsLoop fresh_loop s past fresh_loop-IsLoop in
    let f =
      Events-IsStopping s.begun s.sweeps (stopped s.timer s) u future
        (stopped-IsStopping s.timer s refl k.phase) in
    (f.bare, f.no_more, f.at_most)
