-- ===== src/Host.antt =====
-- carlfw/src/hostif.c: frames and commands from the host.
pub mod Download
pub mod Command
pub mod Registers
pub mod Exception
mod Tests
