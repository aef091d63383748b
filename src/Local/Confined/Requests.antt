-- ===== src/Local/Confined/Requests.antt =====
-- What a request that the local provider serves changes: src/local-provider/LocalProvider.cpp.
use storage_framework.Base.Text.{Text}
use storage_framework.Local.Outcome.{Outcome}
use storage_framework.Local.FileSystem.{FileSystem}
use storage_framework.Local.Confined
use storage_framework.Local.Confined.{Confined}
