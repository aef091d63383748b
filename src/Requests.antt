-- ===== src/Requests.antt =====
-- How a provider process serves a request: credentials of the account, then the provider's method.
pub mod Account
pub mod Handler
pub mod Peers
