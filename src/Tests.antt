-- ===== src/Tests.antt =====
-- The theorems at concrete inputs.
mod Link
mod Main
mod Loop
mod Modes
mod Play
mod Usb
mod Played
mod Wire
mod Feed
