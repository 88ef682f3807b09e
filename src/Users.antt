-- ===== src/Users.antt =====
-- backend/src/users and the guards of its routes in backend/src/auth.
pub mod Model
pub mod Service
pub mod Routes
pub mod Admins
pub mod Kept
pub mod History
pub mod OwnId
mod Tests
