-- ===== src/Host/Exclusive.antt =====
-- One keyboard at a time: pico/src/hid_keyboard_host.c listens to the keyboard that was mounted first,
-- until that keyboard is unmounted.
use pico_keyboard_rt_recorde.Base.{
  ℕ, ◌≡◌, ◌≢◌, refl, ap, ◌∙◌, ◌⊎◌, Bool, true, false, List, [], ◌∷◌, ◌++◌, if◌then◌else◌, arith,
  All,
}
use pico_keyboard_rt_recorde.Protocol.Codec.{Bytes}
use pico_keyboard_rt_recorde.Capture.{Capture, IsValid}
use pico_keyboard_rt_recorde.Capture
use pico_keyboard_rt_recorde.Capture.Refine.{contents, offer, contents-push}
use pico_keyboard_rt_recorde.Host.{
  Host, Tuh, accepts, is_current, request_next_report, mount_cb, umount_cb, report_received_cb,
}

-- A call that TinyUSB makes, for a device address and an interface.
pub data Call : Type 0 where
  mount unmount : ℕ → ℕ → Call
  report : ℕ → ℕ → Bytes → ℕ → Call

unfoldable pub handle : {W : Type 0} → Tuh W → Call → Host × W → Host × W
handle tuh (mount a i) = mount_cb tuh a i
handle tuh (unmount a i) = umount_cb tuh a i
handle tuh (report a i bytes n) = report_received_cb tuh a i bytes n

unfoldable pub run : {W : Type 0} → Tuh W → List Call → Host × W → Host × W
run tuh [] s = s
run tuh (c ∷ cs) s = run tuh cs (handle tuh c s)

-- The requests that TinyUSB has been given; reading the clock makes none.
pub record Asks {W : Type 0} (tuh : Tuh W) (asked : W → List (ℕ × ℕ)) : Type 0 where
  pub request_asks :
      (a i : ℕ) (w : W) → asked (tuh.hid_receive_report a i w).1 ≡ asked w ++ (a, i) ∷ []
  pub time_keeps : (w : W) → asked (tuh.time_us_64 w).1 ≡ asked w

-- The keyboard at this address and interface is mounted.
pub record Mounted (a i : ℕ) (h : Host) : Type 0 where
  pub present : h.mounted ≡ true
  pub address : h.dev_addr ≡ a
  pub number : h.instance_number ≡ i

abbrev pub ForOther : ℕ → ℕ → Call → Type 0
ForOther a i (mount b j) = (b ≢ a) ⊎ (j ≢ i)
ForOther a i (unmount b j) = (b ≢ a) ⊎ (j ≢ i)
ForOther a i (report b j bytes n) = (b ≢ a) ⊎ (j ≢ i)

module _ {W : Type 0} (tuh : Tuh W) (asked : W → List (ℕ × ℕ)) (asks : Asks tuh asked) where
  other_call :
      (a i : ℕ) (c : Call) (h : Host) (w : W)
      → Mounted a i h
      → ForOther a i c
      → let (h', w') = handle tuh c (h, w) in
        Mounted a i h' × (h'.capture ≡ h.capture) × (asked w' ≡ asked w)
  unfolding handle mount_cb umount_cb report_received_cb
  other_call a i (mount b j) h w m o = (
    record { present = ground arith; address = ground arith; number = ground arith },
    ground arith,
    ground arith,
  )
  other_call a i (unmount b j) h w m o = (
    record { present = ground arith; address = ground arith; number = ground arith },
    ground arith,
    ground arith,
  )
  other_call a i (report b j bytes n) h w m o = (
    record { present = ground arith; address = ground arith; number = ground arith },
    ground arith,
    ground (arith, asks.time_keeps w),
  )

  -- While one keyboard is mounted, calls for any other device or interface, in any number and order, leave
  -- it mounted, capture no report, and request no report from anybody. `asked` reads the requests that
  -- TinyUSB has been given.
  pub others_ignored :
      (a i : ℕ) (calls : List Call) (h : Host) (w : W)
      → Mounted a i h
      → All (ForOther a i) calls
      → let (h', w') = run tuh calls (h, w) in
        Mounted a i h' × (h'.capture ≡ h.capture) × (asked w' ≡ asked w)
  unfolding run
  others_ignored a i [] h w m o = (m, refl, refl)
  others_ignored a i (c ∷ cs) h w m o =
      let (h', w') = handle tuh c (h, w) in
      let (m', same, quiet) = other_call a i c h w m o.0 in
      let (m'', same', quiet') = others_ignored a i cs h' w' m' o.1 in
      (m'', same' ∙ same, quiet' ∙ quiet)

  -- What the FIFO holds behind the test of the mode.
  offered :
      (b : Bool) (t n : ℕ) (bytes : Bytes) (c : Capture)
      → IsValid c
      → contents (if b then (Capture.push t bytes n c).1 else c)
        ≡ (if b then (offer t bytes n (contents c)).1 else contents c)
  offered true t n bytes c v =
      ap (λ (r : Bool × List Capture.Event). r.1) (contents-push t bytes n v)
  offered false t n bytes c v = refl

  -- A report of the mounted keyboard, well formed or not, is followed by exactly one request for the next
  -- one, whatever the mode and however full the FIFO. If the mode accepts physical input it is offered to the
  -- FIFO; otherwise the FIFO stays as it is. The FIFO is valid before.
  pub report_received_rearms :
      (a i n : ℕ) (bytes : Bytes) (h : Host) (w : W)
      → Mounted a i h
      → IsValid h.capture
      → let (h', w') = report_received_cb tuh a i bytes n (h, w) in
        (asked w' ≡ asked w ++ (a, i) ∷ [])
        × Mounted a i h'
        × (contents h'.capture ≡ (
            if accepts h.mode
            then (offer (tuh.time_us_64 w).0 bytes n (contents h.capture)).1
            else contents h.capture))
  unfolding report_received_cb request_next_report
  report_received_rearms a i n bytes h w m v =
      let (t, w') = tuh.time_us_64 w in
      let current : is_current a i h ≡ true = ground (arith, m.present, m.address, m.number) in
      rw current (
        asks.request_asks a i w' ∙ ap (λ l. l ++ (a, i) ∷ []) (asks.time_keeps w),
        record { present = m.present; address = m.address; number = m.number },
        offered (accepts h.mode) t n bytes h.capture v,
      )
