-- ===== src/Stations.antt =====
-- The catalogue of stations, src/stations: reading it, checking it, and the order in which it is shown.
pub mod Sha256
pub mod Catalog
pub mod Order
pub mod Codec
