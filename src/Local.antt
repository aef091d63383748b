-- ===== src/Local.antt =====
-- The local provider, src/local-provider: a provider whose items are files and folders below a root.
pub mod Outcome
pub mod FileSystem
pub mod Lawful
pub mod Guards
pub mod Steps
pub mod Items
pub mod Operations
pub mod Rules
pub mod Below
pub mod Confined
pub mod Ends
pub mod Jobs
