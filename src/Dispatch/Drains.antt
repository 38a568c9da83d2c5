-- ===== src/Dispatch/Drains.antt =====
-- A HID endpoint that takes every report: physical_report_dispatch.c then empties the capture FIFO.
use pico_keyboard_rt_recorde.Base.{
  ℕ, zero, suc, ◌≤◌, ◌≡◌, refl, sym, ap, ◌∙◌, ◌⊎◌, inl, inr, true, false, none, some, List, [],
  ◌++◌, arith, window-nil, Bool-cases,
}
use mathlib.Core.List.{append-nil}
use pico_keyboard_rt_recorde.Protocol.{mode_pass, mode_record}
use pico_keyboard_rt_recorde.Hid.{Report, release_all}
use pico_keyboard_rt_recorde.Capture.{Capture, Event, IsValid, pop, pop-IsValid, head_recorded}
use pico_keyboard_rt_recorde.Capture.Refine.{contents, empty, front, Front-cases}
use pico_keyboard_rt_recorde.Mode.{is_recording}
use pico_keyboard_rt_recorde.Dispatch.{
  Output, SendReport, call_report, no_sender, record_head, record_loop, pass_loop, dispatch,
}
use pico_keyboard_rt_recorde.Dispatch.Delivery.{Observes, tail, reports, unrecorded, record_all}
use pico_keyboard_rt_recorde.Dispatch.Record.{record_head-HeadDone, dispatch_conserves}

-- The endpoint is ready and takes whatever it is given.
pub record Takes {W : Type 0} (out : Output W) : Type 0 where
  pub ready : out.hid_output_ready ≡ true
  pub takes : (r : Report) (w : W) → (call_report out.send_pass_report r w).0 ≡ true

true-false : true ≡ false → ⊥
true-false h = absurd (cc)

has_sender :
    {W : Type 0} (s : SendReport W) (r : Report) (w : W)
    → (call_report s r w).0 ≡ true
    → no_sender s ≡ false
has_sender none r w h = absurd (cc)
has_sender (some f) r w h = refl

unrecorded-nil : (c : Capture) → contents c ≡ [] → unrecorded c ≡ []
unrecorded-nil c e = elim (Bool-cases (head_recorded c)) [
  | inl y ↦ rw y (ap tail e)
  | inr n ↦ rw n e
]

recording-pass : is_recording mode_pass ≡ false
unfolding is_recording
recording-pass = refl

recording-record : is_recording mode_record ≡ true
unfolding is_recording
recording-record = refl

module _ {W R : Type 0} {out : Output W} {step : Event → R → R} {recorded : W → R}
    {delivered : W → List Report} (obs : Observes out step recorded delivered)
    (accepts : Takes out) where
  pass_loop-empty :
      (n : ℕ) {c : Capture} (w : W)
      → IsValid c
      → c.count ≤ n
      → contents (pass_loop out n c w).0 ≡ []
  unfolding pass_loop
  pass_loop-empty zero w v le = window-nil _ _ _ _ (omega arith)
  pass_loop-empty (suc n) {c} w v le = elim (Front-cases v) [
    | empty pe ce z ↦ rw (pe, pass_loop) ce
    | front e pe ce nz lt ↦
        let w' = (call_report out.send_pass_report e.report w).1 in
        rw (pe, pass_loop, accepts.takes e.report w)
          (pass_loop-empty n w' (pop-IsValid v) (omega arith))
  ]

  record_loop-empty :
      (n : ℕ) {c : Capture} (w : W)
      → IsValid c
      → c.count ≤ n
      → contents (record_loop out n c w).0 ≡ []
  unfolding record_loop
  record_loop-empty zero w v le = window-nil _ _ _ _ (omega arith)
  record_loop-empty (suc n) {c} w v le = elim (Front-cases v) [
    | empty pe ce z ↦ rw (pe, record_loop) ce
    | front e pe ce nz lt ↦
        let (c', w') = record_head out e c w in
        let done = record_head-HeadDone obs e w v nz ce in
        let w'' = (call_report out.send_pass_report e.report w').1 in
        let sender = has_sender out.send_pass_report e.report w' (accepts.takes e.report w') in
        let fewer : (pop c').1.count ≤ n =
          omega (arith, ap (λ (x : Capture). x.count) done.rest, lt, le) in
        rw (pe, record_loop, accepts.ready, sender, accepts.takes e.report w')
          (record_loop-empty n w'' (pop-IsValid done.valid) fewer)
  ]

  dispatch-empty :
      (state : ℕ) {c : Capture} (w : W)
      → IsValid c
      → (state ≡ mode_pass) ⊎ (state ≡ mode_record)
      → contents (dispatch out state c w).0 ≡ []
  unfolding dispatch
  dispatch-empty state {c} w v (inl p) =
      let sender = has_sender out.send_pass_report release_all w (accepts.takes release_all w) in
      rw (p, recording-pass, accepts.ready, sender) (pass_loop-empty c.count w v (omega arith))
  dispatch-empty state {c} w v (inr p) =
      rw (p, recording-record) (record_loop-empty c.count w v (omega arith))

  -- In PASS and in RECORD, with an endpoint that is ready and takes every report, one call of the
  -- dispatcher delivers all queued reports, in their order, and leaves the FIFO empty. In RECORD the
  -- unrecorded events are handed to the recording, all of them and in their order.
  pub dispatch_drains :
      (state : ℕ) {c : Capture} (w : W)
      → IsValid c
      → (state ≡ mode_pass) ⊎ (state ≡ mode_record)
      → let (c', w') = dispatch out state c w in
        (contents c' ≡ [])
        × (delivered w' ≡ delivered w ++ reports (contents c))
        × (((state ≡ mode_record) × (recorded w' ≡ record_all step (unrecorded c) (recorded w)))
            ⊎ ((state ≡ mode_pass) × (recorded w' ≡ recorded w)))
  dispatch_drains state {c} w v m =
      let (c', w') = dispatch out state c w in
      let gone = dispatch-empty state w v m in
      let (kept, taped) = dispatch_conserves obs state w v in
      let sent : delivered w' ≡ delivered w ++ reports (contents c) =
        sym (append-nil (delivered w')) ∙ ap (λ l. delivered w' ++ reports l) (sym gone) ∙ kept in
      (
        gone,
        sent,
        elim m [
          | inl p ↦ elim taped [
            | inl (y, _) ↦ absurd (true-false (sym y ∙ ap is_recording p ∙ recording-pass))
            | inr (_, e) ↦ inr (p, e)
          ]
          | inr p ↦ elim taped [
            | inl (_, e) ↦
                let all : unrecorded c ≡ e.new =
                  e.moved ∙ ap (λ l. e.new ++ l) (unrecorded-nil c' gone) ∙ append-nil e.new in
                inl (p, e.taped ∙ ap (λ l. record_all step l (recorded w)) (sym all))
            | inr (n, _) ↦ absurd (true-false (sym (ap is_recording p ∙ recording-record) ∙ n))
          ]
        ],
      )
