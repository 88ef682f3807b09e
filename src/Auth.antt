-- ===== src/Auth.antt =====
-- backend/src/auth/auth.service.ts: `AuthService`.
pub mod Users
pub mod Model
pub mod Rotate
pub mod Ends
pub mod Families
pub mod SingleUse
pub mod Races
pub mod History
pub mod Sessions
pub mod Closing
pub mod Accounts
mod Fixtures
mod Tests
pub mod Login
