-- ===== src/Usb.antt =====
-- The USB side, usb/.
pub mod Keyboard
pub mod Serial
pub mod Descriptors
pub mod Demo
pub mod Tests
