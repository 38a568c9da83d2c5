-- ===== src/Tests/Play.antt =====
-- Concrete inputs for the theorems on the playback queue and the playback scheduler: a run whose epoch is
-- 1000 us with one event 500 us later, and a clock that stands still.
use pico_keyboard_rt_recorde.Base.{
  ℕ, zero, suc, ◌+◌, ◌-◌, ◌*◌, ◌≡◌, refl, ◌≤◌, ◌<◌, true, false, none, some, List, [], ◌∷◌, ◌++◌,
  Array, ℤ, pos, negsuc, ◌≤ℤ◌, arith, All, u64, ap, ◌∙◌,
}
use pico_keyboard_rt_recorde.Hid.{Report}
use pico_keyboard_rt_recorde.PlaybackQueue.{
  Event, Queue, IsValid, init-IsValid, push, pop, peek, push-IsValid,
}
use pico_keyboard_rt_recorde.PlaybackQueue
use pico_keyboard_rt_recorde.PlaybackQueue.Spec
use pico_keyboard_rt_recorde.PlaybackQueue.Spec.{Op, put, get, look, room, discard}
use pico_keyboard_rt_recorde.PlaybackQueue.Refine.{
  contents, contents-nil, peek-some, run, run_refines,
}
use pico_keyboard_rt_recorde.Scheduler.{System, Sdk, Callbacks, init}
use pico_keyboard_rt_recorde.Scheduler.Samples.{sort_samples, percentile}
use pico_keyboard_rt_recorde.Scheduler.Samples.Sort.{percentile_nearest_rank}
use pico_keyboard_rt_recorde.Scheduler.Samples.Statistics.{Describes, record_all, metrics_describe}
use pico_keyboard_rt_recorde.Scheduler.Run.{fresh_run, ended, metrics}
use pico_keyboard_rt_recorde.Scheduler.Task.{task, task_loop, exchange_alarm, read_clock}
use pico_keyboard_rt_recorde.Scheduler.Task.Fuel.{task_enough_fuel}
use pico_keyboard_rt_recorde.Scheduler.Delivery.{Observes, reports, stream, task_delivers}
use pico_keyboard_rt_recorde.Scheduler.Drains.{IsGenerous, RanDry, task_drains}
use pico_keyboard_rt_recorde.Scheduler.Deadline.{
  OnTime, LeavesStopped, task-OnTime, task_never_early,
}

abbrev key_bytes : List ℕ
key_bytes = 2 ∷ 0 ∷ 4 ∷ 0 ∷ 0 ∷ 0 ∷ 0 ∷ 0 ∷ []

abbrev operations : List Op
operations = put 500 (some key_bytes) 8 ∷ look ∷ put 600 none 8 ∷ room ∷ get ∷ get ∷ discard ∷ []

run_refines_example :
    run operations PlaybackQueue.init ≡ Spec.run operations (contents PlaybackQueue.init)
run_refines_example = run_refines operations init-IsValid

abbrev key_event : Event
key_event = PlaybackQueue.event_of 500 (some key_bytes) 8

abbrev loaded : Queue
loaded = record PlaybackQueue.init { events = λ _. key_event; write_index = 1; count = 1 }

loaded-IsValid : IsValid loaded
loaded-IsValid = record { read_in = omega arith; bounded = omega arith; aligned = omega arith }

-- The clock, and the reports that the endpoint has taken.
abbrev Board : Type 0
Board = ℕ × List Report

abbrev sdk : Sdk Board
sdk = record {
  time_us_64 = λ w. (w.0, w);
  add_alarm_at = λ t w. (pos 1, w);
  cancel_alarm = λ id w. w;
  alarm_interrupt = λ w. (false, w);
}

abbrev callbacks : Callbacks Board
callbacks = record {
  send_report = some (λ r w. (true, (w.0, w.1 ++ r ∷ [])));
  on_complete = none;
  on_underrun = some (λ t n w. w);
  on_buffer_available = none;
}

callbacks-Observes : Observes sdk callbacks (λ w. w.1)
callbacks-Observes = record {
  time_keeps = λ w. refl;
  alarm_keeps = λ t w. refl;
  cancel_keeps = λ w id. refl;
  interrupt_keeps = λ w. refl;
  send_delivers = λ r w. refl;
  underrun_keeps = λ t n w. refl;
  buffer_keeps = λ q w. refl;
  complete_keeps = λ reason m y v e. (v, e, refl);
}

callbacks-LeavesStopped : LeavesStopped callbacks
callbacks-LeavesStopped = λ reason m y h. (h, refl)

abbrev underway : System Board
underway = record {
  scheduler = record init { running = true; playback_start_us = 1000; next_deadline_us = 1500 };
  queue = loaded;
  world = (1200, []);
}

loaded_head : peek loaded ≡ some key_event
unfolding peek
loaded_head = refl

underway-OnTime : OnTime 1000 underway
underway-OnTime = record {
  epoch = refl;
  coherent = λ r w. record { head = key_event; found = loaded_head; exact = refl };
}

task_delivers_example :
    (stream (λ (w : Board). w.1) (task sdk callbacks underway)
      ≡ stream (λ (w : Board). w.1) underway)
    × IsValid (task sdk callbacks underway).queue
task_delivers_example = task_delivers callbacks-Observes underway loaded-IsValid

task-OnTime_example : OnTime 1000 (task sdk callbacks underway)
task-OnTime_example =
    task-OnTime sdk callbacks callbacks-LeavesStopped 1000 underway underway-OnTime refl

not_fired : (exchange_alarm sdk underway).0 ≡ false
unfolding exchange_alarm
not_fired = refl

not_yet : (read_clock sdk (exchange_alarm sdk underway).1).0 < 1500
unfolding exchange_alarm read_clock
not_yet = omega arith

task_never_early_example :
    task sdk callbacks underway ≡ (read_clock sdk (exchange_alarm sdk underway).1).1
task_never_early_example =
    task_never_early sdk callbacks 1000 underway key_event underway-OnTime refl refl loaded_head
      not_fired not_yet

task_enough_fuel_example : task_loop sdk callbacks 7 underway ≡ task sdk callbacks underway
task_enough_fuel_example = task_enough_fuel sdk callbacks 5 underway

-- Four latenesses, not in order.
abbrev log : Array ℤ
log zero = pos 7
log (suc zero) = negsuc 2
log (suc (suc zero)) = pos 40
log (suc (suc (suc n))) = pos 1

percentile_nearest_rank_example :
    let b = sort_samples log 4 in
    let v = percentile b 4 95 in
    (r : ℕ) × (1 ≤ r)
    × (r ≤ 4)
    × (95 * 4 ≤ r * 100)
    × (r * 100 < 95 * 4 + 100)
    × (v ≡ b (r - 1))
    × ((k : ℕ) → k < r → b k ≤ℤ v)
    × ((k : ℕ) → r ≤ k + 1 → k < 4 → v ≤ℤ b k)
percentile_nearest_rank_example =
    percentile_nearest_rank log 4 95 (omega arith) (omega arith) (omega arith) (omega arith)

-- A clock at 2000 us, which is past the one deadline at 1500 us.
abbrev late : System Board
late = record underway { world = (2000, []) }

generous : IsGenerous sdk callbacks 2000 (λ w. 2000 ≤ w.0)
generous = record {
  clock = λ w l. l;
  willing = λ r w l. refl;
  time_late = λ w l. l;
  alarm_late = λ t w l. l;
  cancel_late = λ id w l. l;
  interrupt_late = λ w l. l;
  send_late = λ r w l. l;
  buffer_late = λ q w l. l;
}

contents-loaded : contents loaded ≡ key_event ∷ []
unfolding pop
contents-loaded =
    peek-some loaded-IsValid loaded_head ∙ ap (◌∷◌ key_event) (contents-nil (pop loaded).1 refl)

loaded_past : All (λ (e : Event). u64 (1000 + e.offset_us) ≤ 2000) (contents loaded)
loaded_past = rw contents-loaded (omega arith, tt)

task_drains_example :
    let y' = task sdk callbacks late in
    (y'.world.1 ≡ [] ++ reports (contents loaded))
    × (contents y'.queue ≡ [])
    × RanDry sdk callbacks late.scheduler y'
task_drains_example =
    task_drains callbacks-Observes 2000 (λ w. 2000 ≤ w.0) late generous (omega arith) loaded-IsValid
      refl (λ f. omega arith) loaded_past

metrics_describe_example :
    Describes
      (pos 5 ∷ negsuc 1 ∷ pos 7 ∷ [])
      (metrics (ended (record_all (pos 5 ∷ negsuc 1 ∷ pos 7 ∷ []) (fresh_run 1000 init))))
metrics_describe_example = metrics_describe 1000 (pos 5) (negsuc 1 ∷ pos 7 ∷ []) init (omega arith)
