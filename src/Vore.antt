-- ===== src/Vore.antt =====
-- src/include/libvoreutils.hpp: the tokeniser, the parsers of numbers and the times.
pub mod Uint
pub mod Tokenise
pub mod Timespec
pub mod Owner
pub mod Directory
mod Tests
