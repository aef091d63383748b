-- ===== src/ClientV1.antt =====
-- The first version of the client library: src/qt/client. `internal/local_client` works on the file
-- system itself, `internal/remote_client` sends requests to a provider.
pub mod Exceptions
pub mod Future
pub mod Uploads
pub mod Downloads
pub mod World
pub mod LocalItems
pub mod RemoteItems
