-- ===== src/Dispatch/Record.antt =====
-- The RECORD loop of physical_report_dispatch.c: every event is handed to the recording, and its report to
-- the PC.
use pico_keyboard_rt_recorde.Base.{
  ℕ, zero, suc, ◌≡◌, ◌≢◌, refl, sym, ◌⊎◌, ap, ap₂, ◌∙◌, inl, inr, true, false, not, ◌||◌, List, [],
  ◌∷◌, ◌++◌, ◌==◌, arith, Bool-cases,
}
use pico_keyboard_rt_recorde.Protocol.{mode_pass}
use pico_keyboard_rt_recorde.Hid.{Report}
use pico_keyboard_rt_recorde.Capture.{
  Capture, Event, IsValid, peek, pop, head_recorded, mark_head_recorded, pop-IsValid, mark-IsValid,
}
use pico_keyboard_rt_recorde.Capture.Refine.{contents, empty, front, Front-cases}
use pico_keyboard_rt_recorde.Mode.{is_recording}
use pico_keyboard_rt_recorde.Dispatch.{
  Output, call_report, no_sender, record_head, record_loop, dispatch,
}
use pico_keyboard_rt_recorde.Dispatch.Delivery.{
  tail, unrecorded, reports, Observes, stream, Taped, Taped-none, Taped-trans, stream_taken,
  stream_refused, pass_loop-stream, pass_loop-recorded, contents-mark,
}

pop-mark : (c : Capture) → (pop (mark_head_recorded c)).1 ≡ (pop c).1
unfolding pop mark_head_recorded
pop-mark c = ground arith

peek-mark : (c : Capture) → peek (mark_head_recorded c) ≡ peek c
unfolding peek mark_head_recorded
peek-mark c = ground arith

head_recorded-mark : (c : Capture) → c.count ≢ 0 → head_recorded (mark_head_recorded c) ≡ true
unfolding head_recorded mark_head_recorded
head_recorded-mark c h = ground arith

head_recorded-pop : (c : Capture) → c.count ≢ 0 → head_recorded (pop c).1 ≡ false
unfolding head_recorded pop
head_recorded-pop c h = ground arith

count-mark : (c : Capture) → c.count ≢ 0 → (mark_head_recorded c).count ≢ 0
unfolding mark_head_recorded
count-mark c h = ground arith

unrecorded_fresh : (c : Capture) → head_recorded c ≡ false → unrecorded c ≡ contents c
unrecorded_fresh c h = rw h

unrecorded_old :
    (c : Capture) {e : Event} {es : List Event}
    → head_recorded c ≡ true
    → contents c ≡ e ∷ es
    → unrecorded c ≡ es
unrecorded_old c h ce = rw h (ap tail ce)

unrecorded-mark :
    (c : Capture) {e : Event} {es : List Event}
    → c.count ≢ 0
    → contents c ≡ e ∷ es
    → unrecorded (mark_head_recorded c) ≡ es
unrecorded-mark c nz ce =
    unrecorded_old (mark_head_recorded c) (head_recorded-mark c nz) (contents-mark c ∙ ce)

module _ {W R : Type 0} {out : Output W} {step : Event → R → R} {recorded : W → R}
    {delivered : W → List Report} (obs : Observes out step recorded delivered) where
  -- What the record of the head leaves: the same reports, and the head marked and handed over.
  pub record HeadDone (e : Event) (c : Capture) (w : W) (r : Capture × W) : Type 0 where
    pub valid : IsValid r.0
    pub same : contents r.0 ≡ contents c
    pub rest : (pop r.0).1 ≡ (pop c).1
    pub nonzero : r.0.count ≢ 0
    pub marked : head_recorded r.0 ≡ true
    pub streamed : delivered r.1 ≡ delivered w
    pub taped : Taped step recorded c r.0 w r.1

  pub record_head-HeadDone :
      (e : Event) {c : Capture} (w : W)
      → IsValid c
      → c.count ≢ 0
      → contents c ≡ e ∷ contents (pop c).1
      → HeadDone e c w (record_head out e c w)
  unfolding record_head
  record_head-HeadDone e {c} w v nz ce = elim (Bool-cases (head_recorded c)) [
    | inl old ↦ rw old (record {
      valid = v;
      same = refl;
      rest = refl;
      nonzero = nz;
      marked = old;
      streamed = refl;
      taped = Taped-none refl refl;
    })
    | inr new ↦ rw new (record {
      valid = mark-IsValid v;
      same = contents-mark c;
      rest = pop-mark c;
      nonzero = count-mark c nz;
      marked = head_recorded-mark c nz;
      streamed = obs.event_keeps e w;
      taped = record {
        new = e ∷ [];
        moved = unrecorded_fresh c new ∙ ce ∙ ap (λ l. e ∷ l) (sym (unrecorded-mark c nz ce));
        taped = obs.event_records e w;
      };
    })
  ]

  -- Popping a recorded head hands nothing over.
  popped-Taped :
      (e : Event) (c : Capture) (w w' : W)
      → c.count ≢ 0
      → head_recorded c ≡ true
      → contents c ≡ e ∷ contents (pop c).1
      → recorded w' ≡ recorded w
      → Taped step recorded c (pop c).1 w w'
  popped-Taped e c w w' nz marked ce same =
      Taped-none
        (unrecorded_old c marked ce ∙ sym (unrecorded_fresh (pop c).1 (head_recorded-pop c nz)))
        same

  -- The RECORD loop only moves reports along the stream and events to the recording.
  pub record_loop-stream :
      (n : ℕ) {c : Capture} (w : W)
      → IsValid c
      → (stream delivered (record_loop out n c w) ≡ stream delivered (c, w))
        × Taped step recorded c (record_loop out n c w).0 w (record_loop out n c w).1
  unfolding record_loop
  record_loop-stream zero w v = (refl, Taped-none refl refl)
  record_loop-stream (suc n) {c} w v = elim (Front-cases v) [
    | empty pe ce z ↦ rw (pe, record_loop) (refl, Taped-none refl refl)
    | front e pe ce nz lt ↦
        let (c', w') = record_head out e c w in
        let done = record_head-HeadDone e w v nz ce in
        let (taken, w'') = call_report out.send_pass_report e.report w' in
        let head : stream delivered (c', w') ≡ stream delivered (c, w) =
          ap₂ (λ d l. d ++ reports l) done.streamed done.same in
        let cons : contents c' ≡ e ∷ contents (pop c').1 =
          done.same ∙ ce ∙ ap (λ (x : Capture). e ∷ contents x) (sym done.rest) in
        let keeps = obs.send_keeps e.report w' in
        rw (pe, record_loop)
          (elim (Bool-cases (not out.hid_output_ready || no_sender out.send_pass_report)) [
            | inl y ↦ rw y (head, done.taped)
            | inr x ↦ rw x (elim (Bool-cases taken) [
              | inl y ↦
                  let ih = record_loop-stream n {c = (pop c').1} w'' (pop-IsValid done.valid) in
                  rw y (
                    ih.0 ∙ stream_taken obs e c' (pop c').1 w' y cons ∙ head,
                    Taped-trans done.taped (
                        Taped-trans (popped-Taped e c' w' w'' done.nonzero done.marked cons keeps)
                          ih.1),
                  )
              | inr z ↦ rw z (
                stream_refused obs e c' w' z ∙ head,
                Taped-trans done.taped (Taped-none refl keeps),
              )
            ])
          ])
  ]

  -- One call of the dispatcher, in whatever mode and with whatever answers of the HID endpoint: what was
  -- taken and then what is queued is the same list before and after; in RECORD the events that lose the head
  -- of the unrecorded ones are handed to the recording, and in every other mode it is as before.
  pub dispatch_conserves :
      (state : ℕ) {c : Capture} (w : W)
      → IsValid c
      → (stream delivered (dispatch out state c w) ≡ stream delivered (c, w))
        × (((is_recording state ≡ true)
              × Taped step recorded c (dispatch out state c w).0 w (dispatch out state c w).1)
            ⊎ ((is_recording state ≡ false) × (recorded (dispatch out state c w).1 ≡ recorded w)))
  unfolding dispatch
  dispatch_conserves state {c} w v = elim (Bool-cases (is_recording state)) [
    | inl y ↦ let kept = record_loop-stream c.count w v in rw y (kept.0, inl (refl, kept.1))
    | inr n ↦
        rw n
          (elim (Bool-cases (
            not out.hid_output_ready
            || not (state == mode_pass)
            || no_sender out.send_pass_report)) [
              | inl y ↦ rw y (refl, inr (refl, refl))
              | inr x ↦
                  rw x (
                    pass_loop-stream obs c.count w v,
                    inr (refl, pass_loop-recorded obs c.count c w),
                  )
            ])
  ]
