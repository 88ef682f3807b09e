-- ===== src/Catalogue/Hotels.antt =====
-- backend/src/hotels: hotels and their albums.
pub mod Model
pub mod Service
pub mod Created
