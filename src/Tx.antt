-- ===== src/Tx.antt =====
-- carlfw/src/wlantx.c: the transmit path. `Tx/Status` is the cache of transmit reports, `Tx/Retry`
-- the rate and retry control of a frame, `Tx/Beacon` the changes to a beacon.
pub mod Status
pub mod Retry
pub mod Beacon
pub mod Path
mod Tests
