-- ===== src/Bt/App.antt =====
-- bt/bluetooth.c: the Bluetooth application.
pub mod Platform
pub mod Model
pub mod Link
pub mod Hid
pub mod Pairing
pub mod Events
pub mod Requests
pub mod Task
pub mod Consistent
pub mod Drain
pub mod Snapshot
pub mod Run
pub mod Inputs
pub mod Poll
pub mod Usb
pub mod Tests
pub mod Kept
pub mod Disconnection
