-- ===== src/DeviceControl.antt =====
-- The device-control client, src/device_control.rs and src/device_control/: remote commands for this
-- player, and its state for the server.
pub mod Protocol
pub mod Book
pub mod State
pub mod Worker
pub mod Receivers
