-- ===== src/Firmware/Valid.antt =====
-- Every ring and every queue of the program of pico/src/main.c is well formed in every state that the
-- program can come to.
use pico_keyboard_rt_recorde.Base.{ℕ, Bool, true, false, List, [], ◌∷◌}
use pico_keyboard_rt_recorde.Transport.{Transport}
use pico_keyboard_rt_recorde.Transport.Valid
use pico_keyboard_rt_recorde.Transport.Valid.{poll-IsValid}
use pico_keyboard_rt_recorde.Transport.ValidRings.{
  queue_frame-IsValid, pop_tx_byte-IsValid, pop_command-IsValid, take_fault-IsValid,
  hardware_error_isr-IsValid, rx_push_isr-IsValid,
}
use pico_keyboard_rt_recorde.PlaybackQueue
use pico_keyboard_rt_recorde.Capture
use pico_keyboard_rt_recorde.Firmware.{Board, Firmware, send_frame}
use pico_keyboard_rt_recorde.Firmware.Loop.{receive_all, uart0_irq_handler}
use pico_keyboard_rt_recorde.Firmware.Closed.{Elementary, Closed, on_mode_rule}
use pico_keyboard_rt_recorde.Firmware.StepRule.{Ringed, Reach_rule}
use pico_keyboard_rt_recorde.Firmware.Reach.{Reach}

pub record AllValid {E : Type 0} (y : Firmware E) : Type 0 where
  pub transport : Valid.IsValid y.world.transport
  pub queue : PlaybackQueue.IsValid y.queue
  pub capture : Capture.IsValid y.world.capture

AllValid-Elementary : {E : Type 0} → Elementary (AllValid {E = E})
unfolding send_frame
AllValid-Elementary = record {
  others = λ s r f b y h. record { transport = h.transport; queue = h.queue; capture = h.capture };
  framed = λ type n payload y h. record {
    transport = queue_frame-IsValid type n payload y.world.transport h.transport;
    queue = h.queue;
    capture = h.capture;
  };
  capture_cleared = λ y h. record {
    transport = h.transport;
    queue = h.queue;
    capture = Capture.clear-IsValid y.world.capture;
  };
  capture_popped = λ y h. record {
    transport = h.transport;
    queue = h.queue;
    capture = Capture.pop-IsValid h.capture;
  };
  capture_marked = λ y h. record {
    transport = h.transport;
    queue = h.queue;
    capture = Capture.mark-IsValid h.capture;
  };
  queue_cleared = λ y h. record {
    transport = h.transport;
    queue = PlaybackQueue.clear-IsValid y.queue;
    capture = h.capture;
  };
  queue_popped = λ y h. record {
    transport = h.transport;
    queue = PlaybackQueue.pop-IsValid h.queue;
    capture = h.capture;
  };
  queue_pushed = λ t r n y allowed h. record {
    transport = h.transport;
    queue = PlaybackQueue.push-IsValid t r n h.queue;
    capture = h.capture;
  };
}

pub AllValid-Closed : {E : Type 0} (board : Board E) → Closed board (AllValid {E = E})
AllValid-Closed board = record {
  elementary = AllValid-Elementary;
  moded =
      on_mode_rule AllValid AllValid-Elementary board
        (λ m y h. record { transport = h.transport; queue = h.queue; capture = h.capture });
}

receive_all-IsValid :
    (bs : List ℕ) (t : Transport) → Valid.IsValid t → Valid.IsValid (receive_all bs t)
unfolding receive_all
receive_all-IsValid [] t v = v
receive_all-IsValid (b ∷ bs) t v = receive_all-IsValid bs _ (rx_push_isr-IsValid b t v)

irq-IsValid :
    (errors : Bool) (bs : List ℕ) (t : Transport)
    → Valid.IsValid t
    → Valid.IsValid (uart0_irq_handler errors bs t)
unfolding uart0_irq_handler
irq-IsValid true bs t v = receive_all-IsValid bs _ (hardware_error_isr-IsValid t v)
irq-IsValid false bs t v = receive_all-IsValid bs t v

AllValid-Ringed : {E : Type 0} → Ringed (AllValid {E = E})
AllValid-Ringed = record {
  parsed = λ y h. record {
    transport = poll-IsValid y.world.transport h.transport;
    queue = h.queue;
    capture = h.capture;
  };
  fault_taken = λ y h. record {
    transport = take_fault-IsValid y.world.transport h.transport;
    queue = h.queue;
    capture = h.capture;
  };
  command_taken = λ y h. record {
    transport = pop_command-IsValid y.world.transport h.transport;
    queue = h.queue;
    capture = h.capture;
  };
  byte_taken = λ y h. record {
    transport = pop_tx_byte-IsValid y.world.transport h.transport;
    queue = h.queue;
    capture = h.capture;
  };
  received = λ errors bytes y h. record {
    transport = irq-IsValid errors bytes y.world.transport h.transport;
    queue = h.queue;
    capture = h.capture;
  };
  reported = λ t report n y a h. record {
    transport = h.transport;
    queue = h.queue;
    capture = Capture.push-IsValid t report n h.capture;
  };
}

module _ {E : Type 0} (board : Board E) where
  -- In every state that the program can come to, by any order of the loop's statements, of UART
  -- interrupts with any bytes, of captured reports and of the hardware's answers: the counters of the
  -- receive, command and transmit rings are at most a ring apart, the parser has room for the next byte,
  -- and the playback queue and the capture FIFO keep their indices inside their arrays and aligned with
  -- their counts.
  pub reachable_valid : (y : Firmware E) → Reach board y → AllValid y
  reachable_valid = Reach_rule AllValid board (AllValid-Closed board) AllValid-Ringed (λ b. record {
    transport = Valid.init-IsValid;
    queue = PlaybackQueue.init-IsValid;
    capture = Capture.init-IsValid;
  })
