-- ===== src/Bt/ReportDescriptor.antt =====
-- bt/hid_report_descriptor.c: reading an HID report descriptor. `Usage` has the sets of local usages,
-- `Item` the effect of one item, `Parse` the loop over the items.
pub mod Usage
pub mod Item
pub mod Parse
pub mod Bounds
pub mod Termination
pub mod Tests
