-- ===== src/Outbox/Schedule/Phases.antt =====
-- The loop of sweeps stays alive, and no sweep meets another.
use nestjs_microservice_mono.Prelude.{
  ℕ, suc, ◌+◌, ◌≡◌, refl, ◌∙◌, ◌⊎◌, inl, inr, ap, Bool-cases, true, false, Option, none, some, [],
  ◌∷◌, length, nat_eq_refl, In, arith,
}
use nestjs_microservice_mono.Outbox.Schedule.{
  Loop, fresh_loop, clear_timeout, schedule, on_module_init, stopped, on_module_destroy, fire,
  settle_sweep, Event, initialise, destroy, timeout, swept, skipped, Events, nothing, then_event,
}

-- The states that the loop passes through.
pub data Phase (s : Loop) : Type 0 where
  quiet :
      s.armed ≡ []
      → s.running ≡ false
      → s.sweeps ≡ 0
      → (s.started ≡ false) ⊎ (s.shutting_down ≡ true)
      → Phase s
  waiting :
      (t : ℕ)
      → s.armed ≡ t ∷ []
      → s.timer ≡ some t
      → s.running ≡ false
      → s.sweeps ≡ 0
      → s.started ≡ true
      → s.shutting_down ≡ false
      → Phase s
  sweeping : s.armed ≡ [] → s.running ≡ true → s.sweeps ≡ 1 → s.started ≡ true → Phase s

-- No call ever returns at the guard.
pub record IsLoop (s : Loop) : Type 0 where
  pub phase : Phase s
  pub none_skipped : s.skips ≡ 0

pub schedule-Phase :
    (s : Loop)
    → s.armed ≡ []
    → s.running ≡ false
    → s.sweeps ≡ 0
    → s.started ≡ true
    → Phase (schedule s)
unfolding schedule
schedule-Phase s bare idle none_running on = elim (Bool-cases s.shutting_down) [
  | inl down ↦ simp down (quiet bare idle none_running (inr down))
  | inr up ↦
      simp up
        (waiting s.next_handle (ap (λ l. s.next_handle ∷ l) bare) refl idle none_running on refl)
]

schedule-skips : (s : Loop) → (schedule s).skips ≡ s.skips
unfolding schedule
schedule-skips s = ground arith

pub clear_timeout_self : (t : ℕ) → clear_timeout t (t ∷ []) ≡ []
unfolding clear_timeout
clear_timeout_self t = rw (nat_eq_refl t)

stopped-Phase : (o : Option ℕ) (s : Loop) → s.timer ≡ o → Phase s → Phase (stopped o s)
unfolding stopped clear_timeout
stopped-Phase none s e (quiet bare idle none_running why) = quiet bare idle none_running (inr refl)
stopped-Phase none s e (waiting t one held idle none_running on up) = cc
stopped-Phase none s e (sweeping bare busy one on) = sweeping bare busy one on
stopped-Phase (some t) s e (quiet bare idle none_running why) =
    quiet (rw bare refl) idle none_running (inr refl)
stopped-Phase (some t) s e (waiting t' one held idle none_running on up) =
    let same : t' ≡ t = cc in
    quiet (rw (one, same) (clear_timeout_self t)) idle none_running (inr refl)
stopped-Phase (some t) s e (sweeping bare busy one on) = sweeping (rw bare refl) busy one on

stopped-skips : (o : Option ℕ) (s : Loop) → (stopped o s).skips ≡ s.skips
unfolding stopped
stopped-skips none s = refl
stopped-skips (some t) s = refl

In-one : (t x : ℕ) → In t (x ∷ []) → t ≡ x
In-one t x (inl e) = e
In-one t x (inr i) = elim i [ ]

fire-IsLoop : (t : ℕ) (s : Loop) → In t s.armed → Phase s → s.skips ≡ 0 → IsLoop (fire t s)
unfolding fire
fire-IsLoop t s listed (quiet bare idle none_running why) k = absurd (rw bare at listed)
fire-IsLoop t s listed (sweeping bare busy one on) k = absurd (rw bare at listed)
fire-IsLoop t s listed (waiting t' one held idle none_running on up) k =
    let same : t ≡ t' = In-one t t' (rw one at listed) in
    simp idle (record {
      phase = sweeping (rw (one, same) (clear_timeout_self t')) refl (rw none_running refl) on;
      none_skipped = k;
    })

settle_sweep-IsLoop :
    (n : ℕ) (s : Loop) → s.sweeps ≡ suc n → Phase s → s.skips ≡ 0 → IsLoop (settle_sweep n s)
unfolding settle_sweep
settle_sweep-IsLoop n s more (quiet bare idle none_running why) k = cc
settle_sweep-IsLoop n s more (waiting t one held idle none_running on up) k = cc
settle_sweep-IsLoop n s more (sweeping bare busy one on) k = record {
  phase = schedule-Phase (record s { running = false; sweeps = n }) bare refl (omega arith) on;
  none_skipped = schedule-skips _ ∙ k;
}

init-IsLoop : (s : Loop) → s.started ≡ false → Phase s → s.skips ≡ 0 → IsLoop (on_module_init s)
unfolding on_module_init
init-IsLoop s off (quiet bare idle none_running why) k = record {
  phase = schedule-Phase (record s { started = true }) bare idle none_running refl;
  none_skipped = schedule-skips _ ∙ k;
}
init-IsLoop s off (waiting t one held idle none_running on up) k = cc
init-IsLoop s off (sweeping bare busy one on) k = cc

Event-IsLoop : (s u : Loop) → Event s u → IsLoop s → IsLoop u
unfolding on_module_destroy
Event-IsLoop s u (initialise off e) k = rw e (init-IsLoop s off k.phase k.none_skipped)
Event-IsLoop s u (destroy e) k = rw e (record {
  phase = stopped-Phase s.timer s refl k.phase;
  none_skipped = stopped-skips s.timer s ∙ k.none_skipped;
})
Event-IsLoop s u (timeout t listed e) k = rw e (fire-IsLoop t s listed k.phase k.none_skipped)
Event-IsLoop s u (swept n more e) k = rw e (settle_sweep-IsLoop n s more k.phase k.none_skipped)
Event-IsLoop s u (skipped n more e) k = cc k.none_skipped

pub Events-IsLoop : (s u : Loop) → Events s u → IsLoop s → IsLoop u
Events-IsLoop s u nothing k = k
Events-IsLoop s u (then_event t _ past last) k = Event-IsLoop t u last (Events-IsLoop s t past k)

pub fresh_loop-IsLoop : IsLoop fresh_loop
unfolding fresh_loop
fresh_loop-IsLoop = record { phase = quiet refl refl refl (inl refl); none_skipped = refl }

alive :
    (s : Loop)
    → Phase s
    → s.started ≡ true
    → s.shutting_down ≡ false
    → length s.armed + s.sweeps ≡ 1
alive s (quiet bare idle none_running (inl off)) on up = cc
alive s (quiet bare idle none_running (inr down)) on up = cc
alive s (waiting t one held idle none_running _ _) on up = rw (one, none_running) refl
alive s (sweeping bare busy one _) on up = rw (bare, one) refl

-- Once the module is initialised and until it is destroyed, whatever timers fire and sweeps end,
-- either exactly one timer is armed or exactly one sweep is running, and no call of `sweep` has ever
-- met another.
pub schedule-IsAlive :
    (s : Loop)
    → Events fresh_loop s
    → s.started ≡ true
    → s.shutting_down ≡ false
    → (length s.armed + s.sweeps ≡ 1) × (s.skips ≡ 0)
schedule-IsAlive s past on up =
    let k = Events-IsLoop fresh_loop s past fresh_loop-IsLoop in
    (alive s k.phase on up, k.none_skipped)
