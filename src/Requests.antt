-- ===== src/Requests.antt =====
-- backend/src/services: what hotels offer beside the rooms, and what guests ask for.
pub mod Model
pub mod Offered
pub mod Service
pub mod Snapshots
pub mod Entitled
pub mod Viewed
mod Tests
