-- ===== src/Api/Pages.antt =====
-- Listings of the API service in pages (internal/page).
pub mod Cursor
pub mod RoundTrip
