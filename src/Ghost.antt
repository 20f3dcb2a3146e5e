-- ===== src/Ghost.antt =====
-- payload/game/system: GhostFile.cc, GhostFile.hh, SaveManager.cc; payload/game/util/Registry.cc.
-- A ghost file is a list of bytes in a buffer. `none` is an access outside a buffer, which is also
-- what the call of a function on a range outside it is.
pub mod Header
pub mod Raw
pub mod Footer
pub mod Save
pub mod Steps
pub mod Bounds
pub mod Accepted
pub mod Unpack
pub mod Loaded
pub mod Dates
pub mod Wraps
pub mod Write
pub mod Written
mod Tests
