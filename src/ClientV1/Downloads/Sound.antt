-- ===== src/ClientV1/Downloads/Sound.antt =====
-- Downloads from their start on: src/qt/client/internal/local_client/DownloaderImpl.cpp.
use storage_framework.Base.{ℕ, true, ◌≡◌, arith}
use storage_framework.Base.Text.{Text}
use storage_framework.Base.Int.{ℤ, pos, ltb_ℤ}

not_negative : (b : ℤ) (n : ℕ) → b ≡ pos n → ltb_ℤ b (pos 0) ≡ true → ⊥
not_negative b n e k = ground arith
