-- ===== src/Room.antt =====
-- payload/sp/cs: RoomClient.cc, RoomClient.hh and RoomManager.hh.
pub mod Types
pub mod Players
pub mod Requests
pub mod Client
mod Tests
