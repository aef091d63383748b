-- ===== src/Errors.antt =====
-- How an error of a provider reaches the client: thrown in the service, marshalled into a D-Bus
-- error reply, and turned into a `StorageError` on the other side.
pub mod Exceptions
pub mod Marshal
pub mod StorageError
pub mod Unmarshal
pub mod RoundTrip
