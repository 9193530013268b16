-- ===== src/Wol.antt =====
-- carlfw/src/wol.c: what wakes a suspended host. `Wol/Magic` is the search for a magic packet,
-- `Wol/Wake` the decision to wake.
pub mod Magic
pub mod Found
pub mod Sent
pub mod Wake
mod Tests
