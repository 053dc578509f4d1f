-- ===== src/Tests/Lifecycles.antt =====
-- The theorems on timers and process lifecycles at concrete runs.
use nestjs_microservice_mono.Prelude.{◌+◌, ◌≤◌, ◌≡◌, refl, inl, [], length}
use nestjs_microservice_mono.Outbox.Schedule.{
  Loop, fresh_loop, on_module_init, on_module_destroy, fire, settle_sweep, Events, nothing,
  then_event, initialise, timeout, swept,
}
use nestjs_microservice_mono.Outbox.Schedule.Phases.{schedule-IsAlive}
use nestjs_microservice_mono.Outbox.Schedule.Stopping.{on_module_destroy-IsFinal}

-- Initialised, one sweep begun and ended, and the next begun.
abbrev initialised : Loop
initialised = on_module_init fresh_loop

abbrev first_sweep : Loop
first_sweep = fire 0 initialised

abbrev rescheduled : Loop
rescheduled = settle_sweep 0 first_sweep

abbrev second_sweep : Loop
second_sweep = fire 1 rescheduled

history_of_two : Events fresh_loop second_sweep
unfolding fresh_loop on_module_init fire settle_sweep
history_of_two =
    then_event rescheduled second_sweep
      (then_event first_sweep rescheduled
        (then_event initialised first_sweep
          (then_event fresh_loop initialised nothing (initialise refl refl))
          (timeout 0 (inl refl) refl))
        (swept 0 refl refl))
      (timeout 1 (inl refl) refl)

schedule-IsAlive_example :
    (length second_sweep.armed + second_sweep.sweeps ≡ 1) × (second_sweep.skips ≡ 0)
unfolding fresh_loop on_module_init fire settle_sweep
schedule-IsAlive_example = schedule-IsAlive second_sweep history_of_two refl refl

abbrev wound_down : Loop
wound_down = settle_sweep 0 (on_module_destroy second_sweep)

on_module_destroy-IsFinal_example :
    (wound_down.armed ≡ [])
    × (wound_down.begun ≡ second_sweep.begun)
    × (wound_down.sweeps ≤ second_sweep.sweeps)
unfolding fresh_loop on_module_init on_module_destroy fire settle_sweep
on_module_destroy-IsFinal_example =
    on_module_destroy-IsFinal second_sweep wound_down history_of_two
      (then_event (on_module_destroy second_sweep) wound_down nothing (swept 0 refl refl))
