-- ===== src/Catalogue/Rooms.antt =====
-- backend/src/rooms/rooms.service.ts: the rooms of a hotel, a row for each type of room.
pub mod Model
pub mod Service
pub mod Changes
pub mod Kept
pub mod Created
pub mod Stale
