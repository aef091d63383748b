-- ===== src/Client.antt =====
-- The client library of src/qt/internal.
pub mod Socket
pub mod Uploader
pub mod Downloader
pub mod Listing
pub mod Validate
pub mod Accounts
pub mod Items
pub mod Jobs
