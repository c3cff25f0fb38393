-- ===== src/Relay.antt =====
-- The LAN relay between RockServer and a Cast device, src/relay/.
pub mod Fanout
