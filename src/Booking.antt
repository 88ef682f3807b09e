-- ===== src/Booking.antt =====
-- backend/src/bookings/bookings.service.ts: `BookingsService`.
pub mod Model
pub mod Quote
pub mod Assign
pub mod Create
pub mod Status
pub mod Reassign
pub mod Inventory
pub mod History
pub mod Fixtures
pub mod Placed
mod Tests
mod CallTests
