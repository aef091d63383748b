-- ===== src/ClientV1/Uploads/Results.antt =====
-- Uploads from their start on: src/qt/client/internal/local_client/UploaderImpl.cpp.
use storage_framework.Base.Text.{Text}
