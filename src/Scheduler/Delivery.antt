-- ===== src/Scheduler/Delivery.antt =====
-- Playback order: what `pico_playback_scheduler_task` sends is what was queued, in order, each event once.
use mathlib.Core.List.{append_assoc}
use pico_keyboard_rt_recorde.Protocol.{reason_finished}
use pico_keyboard_rt_recorde.Base.{
  ℕ, ◌+◌, ◌-◌, leb, u16, u64, ◌≡◌, refl, sym, ap, ap₂, ◌∙◌, Bool, true, false, ℤ, none, some, List,
  [], ◌∷◌, ◌++◌, if◌then◌else◌, map, arith,
}
use pico_keyboard_rt_recorde.Hid.{Report}
use pico_keyboard_rt_recorde.PlaybackQueue.{
  Event, Queue, IsValid, peek, pop, pop-IsValid, free_capacity,
}
use pico_keyboard_rt_recorde.PlaybackQueue.Refine.{contents, peek-some, peek-none}
use pico_keyboard_rt_recorde.Scheduler.{Metrics, System, Sdk, Callbacks}
use pico_keyboard_rt_recorde.Scheduler.Run.{
  set_scheduler, set_world, call_complete, call_underrun, metrics, ended, end_run, begin_underrun,
  run_dry, drop_alarm, set_deadline,
}
use pico_keyboard_rt_recorde.Scheduler.Task.{
  call_send, call_buffer_available, complete_dispatch, exchange_alarm, read_clock, task,
}
use pico_keyboard_rt_recorde.Scheduler.Task.Cases.{run_dry_cases}
use pico_keyboard_rt_recorde.Scheduler.Task.Fuel.{
  queue-drop_alarm, queue-set_deadline, queue-complete_dispatch,
}
use pico_keyboard_rt_recorde.Scheduler.Task.Rule.{Keeps, task_rule}

-- What the surroundings of the scheduler do to the list of the reports that the HID endpoint has taken:
-- the SDK and the notifications leave it alone, a send adds the report if it is taken, and the end of a run
-- with an empty queue leaves the queue empty.
pub record Observes {W : Type 0} (sdk : Sdk W) (cb : Callbacks W) (sent : W → List Report)
    : Type 0 where
  pub time_keeps : (w : W) → sent (sdk.time_us_64 w).1 ≡ sent w
  pub alarm_keeps : (t : ℕ) (w : W) → sent (sdk.add_alarm_at t w).1 ≡ sent w
  pub cancel_keeps : (w : W) (id : ℤ) → sent (sdk.cancel_alarm id w) ≡ sent w
  pub interrupt_keeps : (w : W) → sent (sdk.alarm_interrupt w).1 ≡ sent w
  pub send_delivers :
      (r : Report) (w : W)
      → let (taken, w') = call_send cb.send_report r w in
        sent w' ≡ (if taken then sent w ++ r ∷ [] else sent w)
  pub underrun_keeps : (t n : ℕ) (w : W) → sent (call_underrun cb.on_underrun t n w) ≡ sent w
  pub buffer_keeps :
      (q : Queue) (w : W) → sent (call_buffer_available cb.on_buffer_available q w) ≡ sent w
  pub complete_keeps :
      (reason : ℕ) (m : Metrics) (y : System W)
      → IsValid y.queue
      → contents y.queue ≡ []
      → let y' = call_complete cb.on_complete reason m y in
        IsValid y'.queue × (contents y'.queue ≡ []) × (sent y'.world ≡ sent y.world)

abbrev pub reports : List Event → List Report
reports = map (λ e. e.report)

-- The reports that were taken, then those that are queued.
abbrev pub stream : {W : Type 0} → (W → List Report) → System W → List Report
stream sent y = sent y.world ++ reports (contents y.queue)

-- The queue is well formed, and the stream is `s`.
pub record Streams {W : Type 0} (sent : W → List Report) (s : List Report) (y : System W)
    : Type 0 where
  pub valid : IsValid y.queue
  pub same : stream sent y ≡ s

module _ {W : Type 0} {sdk : Sdk W} {cb : Callbacks W} {sent : W → List Report}
    (obs : Observes sdk cb sent) (s : List Report) where
  -- A step that leaves the queue and what was sent alone.
  keep :
      {y y' : System W}
      → y'.queue ≡ y.queue
      → sent y'.world ≡ sent y.world
      → Streams sent s y
      → Streams sent s y'
  keep {y} {y'} q w h = record {
    valid = rw q h.valid;
    same = ap₂ (λ (l : List Report) (x : Queue). l ++ reports (contents x)) w q ∙ h.same;
  }

  sent-drop_alarm : (y : System W) → sent (drop_alarm sdk y).world ≡ sent y.world
  unfolding drop_alarm
  sent-drop_alarm y = ground (arith, obs.cancel_keeps y.world y.scheduler.alarm_id)

  sent-set_deadline : (e : Event) (y : System W) → sent (set_deadline sdk e y).world ≡ sent y.world
  unfolding set_deadline
  sent-set_deadline e y =
      let w = (sdk.time_us_64 y.world).1 in
      let deadline = u64 (y.scheduler.playback_start_us + e.offset_us) in
      ground (arith, obs.time_keeps y.world, obs.alarm_keeps deadline w)

  pub queue-begin_underrun : (y : System W) → (begin_underrun sdk cb y).queue ≡ y.queue
  unfolding begin_underrun
  queue-begin_underrun y = ground arith

  sent-begin_underrun : (y : System W) → sent (begin_underrun sdk cb y).world ≡ sent y.world
  unfolding begin_underrun
  sent-begin_underrun y =
      let (now, w) = sdk.time_us_64 y.world in
      let start = y.scheduler.playback_start_us in
      let elapsed = if leb start now then now - start else 0 in
      ground
        (arith, obs.time_keeps y.world, obs.underrun_keeps elapsed (u16 (free_capacity y.queue)) w)

  -- The end of a run on an empty queue.
  Streams-end_run :
      (y : System W)
      → Streams sent s y
      → contents y.queue ≡ []
      → Streams sent s (end_run cb reason_finished y)
  unfolding end_run
  Streams-end_run y h e =
      let y' = set_scheduler (ended y.scheduler) y in
      let (valid, empty, same) =
        obs.complete_keeps reason_finished (metrics (ended y.scheduler)) y' h.valid e in
      record {
        valid = valid;
        same =
            ap₂ (λ (l : List Report) (x : List Event). l ++ reports x) same (empty ∙ sym e)
            ∙ h.same;
      }

  Streams-run_dry :
      (y : System W) → Streams sent s y → peek y.queue ≡ none → Streams sent s (run_dry sdk cb y)
  Streams-run_dry y h e =
      run_dry_cases sdk cb (Streams sent s) y (λ t. Streams-end_run y h (peek-none y.queue e))
        (λ f. keep (queue-begin_underrun y) (sent-begin_underrun y) h)

  sent-exchange : (y : System W) → sent (exchange_alarm sdk y).1.world ≡ sent y.world
  unfolding exchange_alarm
  sent-exchange y = obs.interrupt_keeps y.world

  queue-exchange : (y : System W) → (exchange_alarm sdk y).1.queue ≡ y.queue
  unfolding exchange_alarm
  queue-exchange y = refl

  sent-read_clock : (y : System W) → sent (read_clock sdk y).1.world ≡ sent y.world
  unfolding read_clock
  sent-read_clock y = obs.time_keeps y.world

  queue-read_clock : (y : System W) → (read_clock sdk y).1.queue ≡ y.queue
  unfolding read_clock
  queue-read_clock y = refl

  sent-grant :
      (b : Bool) (q : Queue) (w : W)
      → sent (if b then call_buffer_available cb.on_buffer_available q w else w) ≡ sent w
  sent-grant true q w = obs.buffer_keeps q w
  sent-grant false q w = refl

  sent-complete_dispatch : (y : System W) → sent (complete_dispatch sdk cb y).world ≡ sent y.world
  unfolding complete_dispatch
  sent-complete_dispatch y = obs.time_keeps _ ∙ sent-grant _ (pop y.queue).1 y.world

  -- A send that is not taken.
  Streams-refused :
      (y : System W) (e : Event)
      → Streams sent s y
      → (call_send cb.send_report e.report y.world).0 ≡ false
      → Streams sent s (set_world (call_send cb.send_report e.report y.world).1 y)
  Streams-refused y e h f = keep refl (obs.send_delivers e.report y.world ∙ rw f refl) h

  -- A send that is taken, with the event taken out.
  Streams-taken :
      (y : System W) (e : Event)
      → Streams sent s y
      → peek y.queue ≡ some e
      → (call_send cb.send_report e.report y.world).0 ≡ true
      → Streams sent s
          (complete_dispatch sdk cb (set_world (call_send cb.send_report e.report y.world).1 y))
  Streams-taken y e h found t =
      let w = (call_send cb.send_report e.report y.world).1 in
      let y' = set_world w y in
      let moved : sent (complete_dispatch sdk cb y').world ≡ sent y.world ++ e.report ∷ [] =
        sent-complete_dispatch y' ∙ obs.send_delivers e.report y.world ∙ rw t refl in
      record {
        valid = rw (queue-complete_dispatch sdk cb y') (pop-IsValid h.valid);
        same =
            ap₂ (λ (l : List Report) (q : Queue). l ++ reports (contents q)) moved
              (queue-complete_dispatch sdk cb y')
            ∙ append_assoc (sent y.world) (e.report ∷ []) (reports (contents (pop y.queue).1))
            ∙ ap (λ x. sent y.world ++ reports x) (sym (peek-some h.valid found))
            ∙ h.same;
      }

  Streams-Keeps : Keeps sdk cb (Streams sent s) (Streams sent s) (Streams sent s)
  Streams-Keeps = record {
    weaken = λ y h. h;
    rest = λ y h. h;
    dropped = λ y. keep (queue-drop_alarm sdk y) (sent-drop_alarm y);
    dry = Streams-run_dry;
    armed = λ y e h found. keep (queue-set_deadline sdk e y) (sent-set_deadline e y) h;
    exchanged = λ y. keep (queue-exchange y) (sent-exchange y);
    clocked = λ y. keep (queue-read_clock y) (sent-read_clock y);
    refused = λ y e h found f. Streams-refused y e h f;
    taken = Streams-taken;
  }

module _ {W : Type 0} {sdk : Sdk W} {cb : Callbacks W} {sent : W → List Report}
    (obs : Observes sdk cb sent) where
  -- A call of the scheduler's task, whatever the clock, the alarm interrupt and the HID endpoint answer,
  -- sends queued reports only, from the head on, in order, and takes out exactly those that were sent: the
  -- reports sent so far followed by those still queued are the same list before and after. The queue stays
  -- well formed. The queue is well formed before, and the SDK and the callbacks behave as `Observes` says.
  pub task_delivers :
      (y : System W)
      → IsValid y.queue
      → (stream sent (task sdk cb y) ≡ stream sent y) × IsValid (task sdk cb y).queue
  task_delivers y v =
      let start : Streams sent (stream sent y) y = record { valid = v; same = refl } in
      let kept =
        task_rule (Streams-Keeps obs (stream sent y)) y
          (record { base = start; ready = λ _. start; idle = λ _. start }) in
      (kept.same, kept.valid)
