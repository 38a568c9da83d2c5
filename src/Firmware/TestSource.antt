-- ===== src/Firmware/TestSource.antt =====
-- pico/src/playback_test_source.c: the source of synthetic events of the build with PICO_PLAYBACK_SCHED_TEST.
-- The objects that it is given are those of the main program.
pub mod Fill
use pico_keyboard_rt_recorde.Base.{
  ℕ, zero, suc, ◌+◌, ◌*◌, ◌-◌, ◌%◌, ◌&&◌, ◌||◌, not, Bool, true, false, some, ltb, leb, ◌==◌,
  if◌then◌else◌, u32, u64,
}
use pico_keyboard_rt_recorde.Protocol.{mode_armed}
use pico_keyboard_rt_recorde.Hid.{
  Report, report_size, report_bytes, usage_key_a, release_all, make_key_press,
}
use pico_keyboard_rt_recorde.PlaybackQueue.{Queue, push, free_capacity}
use pico_keyboard_rt_recorde.Mode
use pico_keyboard_rt_recorde.Scheduler.Run.{start, mark_sequence_ended}
use pico_keyboard_rt_recorde.Firmware.{
  Board, Firmware, on_world, mode_callbacks, scheduler_callbacks, sdk,
}

abbrev pub total_events : ℕ
total_events = 1000

abbrev pub interval_us : ℕ
interval_us = 10000

-- The enumeration of the stages.
pub data Stage : Type 0 where
  wait_for_mount running done : Stage

-- The file-level variables; `attached` says that `test_mode` is not NULL.
pub record TestSource : Type 0 where
  pub attached : Bool
  pub stage : Stage
  pub pushed_count : ℕ

-- Before `init`: static variables are zero.
abbrev pub detached : TestSource
detached = record { attached = false; stage = wait_for_mount; pushed_count = 0 }

-- `pico_playback_test_source_init`
unfoldable pub init : TestSource → TestSource
init s = record { attached = true; stage = wait_for_mount; pushed_count = 0 }

unfoldable pub synthetic_report : ℕ → Report
unfolding make_key_press release_all
synthetic_report index = if index % 2 == 0 then make_key_press 0 usage_key_a else release_all

-- The queue's answer is not looked at.
unfoldable pub push_synthetic_event : ℕ → TestSource × Queue → TestSource × Queue
unfolding push synthetic_report
push_synthetic_event index (s, q) = (
  record s { pushed_count = u32 (s.pushed_count + 1) },
  (push (u64 (index * interval_us)) (some (report_bytes (synthetic_report index))) report_size q).1,
)

-- The loop of `fill_available_slots` on fuel.
unfoldable pub fill_loop : ℕ → TestSource × Queue → TestSource × Queue
unfolding push_synthetic_event
fill_loop zero r = r
fill_loop (suc n) (s, q) = elim (ltb s.pushed_count total_events && ltb 0 (free_capacity q)) [
  | true ↦ fill_loop n (push_synthetic_event s.pushed_count (s, q))
  | false ↦ (s, q)
]

-- Every turn pushes one of the events that are left; the last one finds none left.
unfoldable pub fill_available_slots : TestSource × Queue → TestSource × Queue
unfolding fill_loop
fill_available_slots (s, q) = fill_loop (suc (total_events - s.pushed_count)) (s, q)

module _ {E : Type 0} (board : Board E) (tud_mounted : E → Bool × E) where
  unfoldable pub refill : TestSource × Firmware E → TestSource × Firmware E
  unfolding fill_available_slots
  refill (s, y) = let (s', q) = fill_available_slots (s, y.queue) in (s', record y { queue = q })

  -- Behind the accepted change to ARMED.
  unfoldable pub begin : TestSource × Firmware E → TestSource × Firmware E
  unfolding refill
  begin r =
      let (s, y) = refill r in
      let (playback_start_us, b) = board.time_us_64 y.world.board in
      let y' = on_world (λ w. record w { board = b }) y in
      let (accepted, m) =
        Mode.play_start (mode_callbacks board) (record { state = y'.world.mode; world = y' }) in
      let y'' = on_world (λ w. record w { mode = m.state }) m.world in
      if not accepted then (s, y'') else (
        record s { stage = running },
        start (sdk board) (scheduler_callbacks board) playback_start_us y'',
      )

  unfoldable pub wait_task : TestSource × Firmware E → TestSource × Firmware E
  unfolding begin
  wait_task (s, y) =
      let (mounted, b) = tud_mounted y.world.board in
      let y' = on_world (λ w. record w { board = b }) y in
      let (accepted, m) =
        Mode.handle_mode_set (mode_callbacks board) mode_armed
          (record { state = y'.world.mode; world = y' }) in
      let y'' = on_world (λ w. record w { mode = m.state }) m.world in
      if not mounted then (s, y') else if not accepted then (s, y'') else begin (s, y'')

  -- The queue is topped up until all events were pushed; then the sequence is closed.
  unfoldable pub running_task : TestSource × Firmware E → TestSource × Firmware E
  unfolding refill
  running_task (s, y) =
      let (s', y') = if ltb s.pushed_count total_events then refill (s, y) else (s, y) in
      if leb total_events s'.pushed_count
      then (record s' { stage = done }, record y' { scheduler = mark_sequence_ended y'.scheduler })
      else (s', y')

  unfoldable pub task : TestSource × Firmware E → TestSource × Firmware E
  unfolding wait_task running_task
  task (s, y) = if not s.attached then (s, y) else elim s.stage [
    | done ↦ (s, y)
    | wait_for_mount ↦ wait_task (s, y)
    | running ↦ running_task (s, y)
  ]
