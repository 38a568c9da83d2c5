-- ===== src/Dispatch/Rule.antt =====
-- One rule for all that holds across a call of `pico_physical_report_dispatch`.
use pico_keyboard_rt_recorde.Base.{
  ℕ, zero, suc, ◌||◌, not, inl, inr, ◌==◌, Bool-cases, Option-cases,
}
use pico_keyboard_rt_recorde.Protocol.{mode_pass}
use pico_keyboard_rt_recorde.Hid.{Report}
use pico_keyboard_rt_recorde.Capture.{Event, Capture, peek, pop, head_recorded, mark_head_recorded}
use pico_keyboard_rt_recorde.Mode.{is_recording}
use pico_keyboard_rt_recorde.Dispatch.{
  Output, call_report, call_event, no_sender, record_head, record_loop, pass_loop, dispatch,
}

-- What each step of the loops has to keep.
pub record Keeps {W : Type 0} (out : Output W) (P : Capture → W → Type 0) : Type 0 where
  pub popped : (c : Capture) (w : W) → P c w → P (pop c).1 w
  pub marked : (c : Capture) (w : W) → P c w → P (mark_head_recorded c) w
  pub sent :
      (r : Report) (c : Capture) (w : W) → P c w → P c (call_report out.send_pass_report r w).1
  pub recorded :
      (e : Event) (c : Capture) (w : W) → P c w → P c (call_event out.send_record_event e w)

module _ {W : Type 0} {out : Output W} {P : Capture → W → Type 0} (keeps : Keeps out P) where
  pass_loop_rule :
      (n : ℕ) (c : Capture) (w : W) → P c w → (let (c', w') = pass_loop out n c w in P c' w')
  unfolding pass_loop
  pass_loop_rule zero c w h = h
  pass_loop_rule (suc n) c w h = elim (Option-cases (peek c)) [
    | inl e ↦ rw (e, pass_loop) h
    | inr (e, found) ↦
        let (taken, w') = call_report out.send_pass_report e.report w in
        let sent = keeps.sent e.report c w h in
        rw (found, pass_loop)
          (elim (Bool-cases taken) [
            | inl y ↦ rw y (pass_loop_rule n (pop c).1 w' (keeps.popped c w' sent))
            | inr x ↦ rw x sent
          ])
  ]

  record_head_rule :
      (e : Event) (c : Capture) (w : W) → P c w → (let (c', w') = record_head out e c w in P c' w')
  unfolding record_head
  record_head_rule e c w h = elim (Bool-cases (head_recorded c)) [
    | inl y ↦ rw y h
    | inr x ↦ rw x (keeps.marked c _ (keeps.recorded e c w h))
  ]

  record_loop_rule :
      (n : ℕ) (c : Capture) (w : W) → P c w → (let (c', w') = record_loop out n c w in P c' w')
  unfolding record_loop
  record_loop_rule zero c w h = h
  record_loop_rule (suc n) c w h = elim (Option-cases (peek c)) [
    | inl e ↦ rw (e, record_loop) h
    | inr (e, found) ↦
        let (c', w') = record_head out e c w in
        let (taken, w'') = call_report out.send_pass_report e.report w' in
        let head = record_head_rule e c w h in
        let sent = keeps.sent e.report c' w' head in
        rw (found, record_loop)
          (elim (Bool-cases (not out.hid_output_ready || no_sender out.send_pass_report)) [
            | inl y ↦ rw y head
            | inr x ↦ rw x (elim (Bool-cases taken) [
              | inl y ↦ rw y (record_loop_rule n (pop c').1 w'' (keeps.popped c' w'' sent))
              | inr z ↦ rw z sent
            ])
          ])
  ]

  -- What every step keeps, the dispatcher keeps.
  pub dispatch_rule :
      (state : ℕ) (c : Capture) (w : W) → P c w → (let (c', w') = dispatch out state c w in P c' w')
  unfolding dispatch
  dispatch_rule state c w h = elim (Bool-cases (is_recording state)) [
    | inl y ↦ rw y (record_loop_rule c.count c w h)
    | inr n ↦
        rw n
          (elim (Bool-cases (
            not out.hid_output_ready
            || not (state == mode_pass)
            || no_sender out.send_pass_report)) [
              | inl y ↦ rw y h
              | inr x ↦ rw x (pass_loop_rule c.count c w h)
            ])
  ]
