-- ===== src/Transport/Commands.antt =====
-- The command ring of pico/src/uart_transport.c: parsed commands between the parser and the main loop.
use pico_keyboard_rt_recorde.Base.{
  ◌+◌, ◌%◌, ◌||◌, not, Option, none, some, leb, ◌==◌, if◌then◌else◌, update, u8, u32,
}
use pico_keyboard_rt_recorde.Protocol.{Frame, type_known, type_is_command, frame_payload_valid}
use pico_keyboard_rt_recorde.Transport.{Transport, command_capacity, distance8, latch_fault}

-- `enqueue_command` when the frame is no command or its payload has the wrong shape.
unfoldable pub refuse_frame : Frame → Transport → Transport
unfolding latch_fault
refuse_frame frame t =
    let s = record t.stats { invalid_frames = u32 (t.stats.invalid_frames + 1) } in
    latch_fault (record t {
      stats =
          if not (type_known frame.type)
          then record s { unknown_type = u32 (s.unknown_type + 1) }
          else s;
    })

unfoldable pub overflow_commands : Transport → Transport
unfolding latch_fault
overflow_commands t =
    latch_fault (record t {
      stats = record t.stats { command_overflow = u32 (t.stats.command_overflow + 1) };
    })

unfoldable pub push_command : Frame → Transport → Transport
push_command frame t = record t {
  commands = update t.commands (t.command_head % command_capacity) frame;
  command_head = u8 (t.command_head + 1);
}

unfoldable pub enqueue_command : Frame → Transport → Transport
unfolding refuse_frame overflow_commands push_command
enqueue_command frame t =
    if not (type_is_command frame.type) || not (frame_payload_valid frame)
    then refuse_frame frame t
    else if leb command_capacity (distance8 t.command_head t.command_tail)
    then overflow_commands t
    else push_command frame t

-- `none` is the return value false.
unfoldable pub pop_command : Transport → Option Frame × Transport
pop_command t = if t.command_tail == t.command_head then (none, t) else (
  some (t.commands (t.command_tail % command_capacity)),
  record t { command_tail = u8 (t.command_tail + 1) },
)
