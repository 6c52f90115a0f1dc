-- ===== src/Hardware.antt =====
-- Web-Osu-Mania/src/lib/hardware: the Vendor HID protocol of the bridge device, the client that
-- exchanges transfers over it, and the hook that tells whether the device is ready.
pub mod Protocol
pub mod Hex
pub mod Payloads
pub mod Client
pub mod Session
pub mod Hook
mod Examples
mod Scenarios
