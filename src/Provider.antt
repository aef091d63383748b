-- ===== src/Provider.antt =====
-- The provider side: the transfer jobs of src/provider/internal and of the local provider.
pub mod Answer
pub mod Completion
pub mod Upload
pub mod Interface
