-- ===== src/Drivers.antt =====
-- The device drivers.
pub mod Keyboard
pub mod Mouse
pub mod Rtc
