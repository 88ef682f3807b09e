-- ===== src/Catalogue.antt =====
-- backend/src/hotels and backend/src/rooms: what hotels and rooms have in common, then both.
pub mod Slug
pub mod Album
pub mod Fields
pub mod Hotels
pub mod Offers
pub mod Rooms
pub mod Search
pub mod Listed
pub mod Fixtures
mod Tests
