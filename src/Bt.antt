-- ===== src/Bt.antt =====
-- The Bluetooth side, bt/.
pub mod State
pub mod Channels
pub mod Control
pub mod RequestQueue
pub mod BootReport
pub mod Devices
pub mod Snapshot
pub mod ReportDescriptor
pub mod Sdp
pub mod Command
pub mod App
pub mod Tests
