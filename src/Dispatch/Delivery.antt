-- ===== src/Dispatch/Delivery.antt =====
-- How physical_report_dispatch.c moves the captured reports: to the PC through the one callback, and in
-- RECORD to the recording through the other.
use pico_keyboard_rt_recorde.Base.{
  ℕ, zero, suc, ◌≡◌, refl, sym, ap, ◌∙◌, inl, inr, true, false, List, [], ◌∷◌, ◌++◌, map,
  if◌then◌else◌, arith, Bool-cases, Option-cases,
}
use mathlib.Core.List.{append_assoc}
use pico_keyboard_rt_recorde.Hid.{Report}
use pico_keyboard_rt_recorde.Capture.{
  Capture, Event, IsValid, peek, pop, head_recorded, mark_head_recorded, pop-IsValid,
}
use pico_keyboard_rt_recorde.Capture.Refine.{contents, empty, front, Front-cases}
use pico_keyboard_rt_recorde.Dispatch.{Output, call_report, call_event, pass_loop}

abbrev pub tail : List Event → List Event
tail [] = []
tail (e ∷ es) = es

-- The queued reports that have no RECORD_EVENT yet.
abbrev pub unrecorded : Capture → List Event
unrecorded c = if head_recorded c then tail (contents c) else contents c

abbrev pub reports : List Event → List Report
reports = map (λ e. e.report)

-- What the two callbacks do, seen through the recording, which `step` extends by an event, and through
-- the list of the reports that the HID endpoint has taken so far.
pub record Observes {W R : Type 0} (out : Output W) (step : Event → R → R) (recorded : W → R)
    (delivered : W → List Report) : Type 0 where
  pub send_delivers :
      (r : Report) (w : W)
      → let (taken, w') = call_report out.send_pass_report r w in
        delivered w' ≡ (if taken then delivered w ++ r ∷ [] else delivered w)
  pub send_keeps :
      (r : Report) (w : W) → recorded (call_report out.send_pass_report r w).1 ≡ recorded w
  pub event_records :
      (e : Event) (w : W) → recorded (call_event out.send_record_event e w) ≡ step e (recorded w)
  pub event_keeps :
      (e : Event) (w : W) → delivered (call_event out.send_record_event e w) ≡ delivered w

pub contents-mark : (c : Capture) → contents (mark_head_recorded c) ≡ contents c
unfolding mark_head_recorded
contents-mark c = ground arith

-- Reports on their way to the PC: those taken, then those queued.
abbrev pub stream : {W : Type 0} → (W → List Report) → Capture × W → List Report
stream delivered (c, w) = delivered w ++ reports (contents c)

-- The events of a list handed to the recording one after the other.
abbrev pub record_all : {R : Type 0} → (Event → R → R) → List Event → R → R
record_all step [] r = r
record_all step (e ∷ es) r = record_all step es (step e r)

record_all-append :
    {R : Type 0} (step : Event → R → R) (xs ys : List Event) (r : R)
    → record_all step (xs ++ ys) r ≡ record_all step ys (record_all step xs r)
record_all-append step [] ys r = refl
record_all-append step (x ∷ xs) ys r = record_all-append step xs ys (step x r)

-- From one point to a later one, the events `new` were handed to the recording: these, and in this order,
-- are the ones that head the unrecorded events no more.
pub record Taped {W R : Type 0} (step : Event → R → R) (recorded : W → R) (c c' : Capture)
    (w w' : W) : Type 0 where
  pub new : List Event
  pub moved : unrecorded c ≡ new ++ unrecorded c'
  pub taped : recorded w' ≡ record_all step new (recorded w)

module _ {W R : Type 0} {step : Event → R → R} {recorded : W → R} where
  pub Taped-none :
      {c c' : Capture} {w w' : W}
      → unrecorded c ≡ unrecorded c'
      → recorded w' ≡ recorded w
      → Taped step recorded c c' w w'
  Taped-none e same = record { new = []; moved = e; taped = same }

  pub Taped-trans :
      {c c' c'' : Capture} {w w' w'' : W}
      → Taped step recorded c c' w w'
      → Taped step recorded c' c'' w' w''
      → Taped step recorded c c'' w w''
  Taped-trans {c} {c'} {c''} {w} a b = record {
    new = a.new ++ b.new;
    moved =
        a.moved ∙ ap (λ l. a.new ++ l) b.moved ∙ sym (append_assoc a.new b.new (unrecorded c''));
    taped =
        b.taped
        ∙ ap (record_all step b.new) a.taped
        ∙ sym (record_all-append step a.new b.new (recorded w));
  }

-- Moving the first item of the second list to the end of the first.
pub append_cons :
    {A : Type 0} (xs ys zs : List A) (x : A) → ys ≡ x ∷ zs → (xs ++ x ∷ []) ++ zs ≡ xs ++ ys
append_cons xs ys zs x e = rw e (append_assoc xs (x ∷ []) zs)

module _ {W R : Type 0} {out : Output W} {step : Event → R → R} {recorded : W → R}
    {delivered : W → List Report} (obs : Observes out step recorded delivered) where
  -- A report that was taken and popped has only moved along the stream.
  pub stream_taken :
      (e : Event) (c c' : Capture) (w : W)
      → (call_report out.send_pass_report e.report w).0 ≡ true
      → contents c ≡ e ∷ contents c'
      → stream delivered (c', (call_report out.send_pass_report e.report w).1)
        ≡ stream delivered (c, w)
  stream_taken e c c' w taken cons =
      ap (λ d. d ++ reports (contents c')) (obs.send_delivers e.report w ∙ rw taken refl)
      ∙ append_cons (delivered w) (reports (contents c)) (reports (contents c')) e.report
          (ap reports cons)

  pub stream_refused :
      (e : Event) (c : Capture) (w : W)
      → (call_report out.send_pass_report e.report w).0 ≡ false
      → stream delivered (c, (call_report out.send_pass_report e.report w).1)
        ≡ stream delivered (c, w)
  stream_refused e c w refused =
      ap (λ d. d ++ reports (contents c)) (obs.send_delivers e.report w ∙ rw refused refl)

  pub pass_loop-stream :
      (n : ℕ) {c : Capture} (w : W)
      → IsValid c
      → stream delivered (pass_loop out n c w) ≡ stream delivered (c, w)
  unfolding pass_loop
  pass_loop-stream zero w v = refl
  pass_loop-stream (suc n) {c} w v = elim (Front-cases v) [
    | empty pe ce z ↦ rw (pe, pass_loop)
    | front e pe ce nz lt ↦
        let (taken, w') = call_report out.send_pass_report e.report w in
        rw (pe, pass_loop)
          (elim (Bool-cases taken) [
            | inl y ↦
                rw y (pass_loop-stream n w' (pop-IsValid v) ∙ stream_taken e c (pop c).1 w y ce)
            | inr x ↦ rw x (stream_refused e c w x)
          ])
  ]

  -- The PASS loop records nothing.
  pub pass_loop-recorded :
      (n : ℕ) (c : Capture) (w : W) → recorded (pass_loop out n c w).1 ≡ recorded w
  unfolding pass_loop
  pass_loop-recorded zero c w = refl
  pass_loop-recorded (suc n) c w = elim (Option-cases (peek c)) [
    | inl e ↦ rw (e, pass_loop)
    | inr (e, found) ↦
        let (taken, w') = call_report out.send_pass_report e.report w in
        rw (found, pass_loop)
          (elim (Bool-cases taken) [
            | inl y ↦ rw y (pass_loop-recorded n (pop c).1 w' ∙ obs.send_keeps e.report w)
            | inr x ↦ rw x (obs.send_keeps e.report w)
          ])
  ]
