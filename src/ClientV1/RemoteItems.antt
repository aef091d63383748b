-- ===== src/ClientV1/RemoteItems.antt =====
-- src/qt/client/internal/remote_client: ItemImpl.cpp, FolderImpl.cpp, FileImpl.cpp and RootImpl.cpp. A
-- call checks its objects and sends a request; a handler (Handler.h) processes the reply.
pub mod Validate
pub mod Requests
pub mod Handlers
pub mod Replies
unfoldable pub use Requests.*
unfoldable pub use Handlers.*
