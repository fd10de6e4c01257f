-- ===== src/Bt/Sdp.antt =====
-- bt/sdp_parser.c and bt/sdp_parser.h: the attributes of an HID service record. `Element` reads data
-- elements, `Search` looks for the report descriptor and the PSM in them, `Feed` takes the bytes of
-- an attribute one by one and stores what they say in the device.
pub mod Element
pub mod Search
pub mod Feed
pub mod Within
pub mod Fuel
pub mod Reassembly
pub mod Protocol
pub mod Tests
