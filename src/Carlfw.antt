-- ===== src/Carlfw.antt =====
-- tools/lib/carlfw.c and include/shared/fwdesc.h: the library of the host tools for firmware files.
-- `Carlfw/Desc` is one descriptor, `Carlfw/Descs` the list of them, `Carlfw/Checksum` the two
-- checksums, `Carlfw/File` reading and writing. Memory is not short, and files can be read and
-- written.
pub mod Desc
pub mod Descs
pub mod Counts
pub mod Resize
pub mod Invariant
pub mod Checksum
pub mod Checked
pub mod File
pub mod Parse
pub mod Roundtrip
pub mod Replaced
pub mod Matches
pub mod Miniboot
mod Tests
