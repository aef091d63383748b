-- ===== src/Provider/Upload/Deadlock.antt =====
-- `UploadJobImpl::finish` holds `completion_lock_` while it calls `LocalUploadJob::finish`.
use storage_framework.Base.{ℕ, ◌+◌, ◌<◌, ◌≡◌, ◌↔◌, none, List, length, arith}
use storage_framework.Base.Text.{Text}
use storage_framework.Base.Int.{ℤ, pos}
use storage_framework.Provider.Upload.{LocalUpload, Written, Disk, own_finish, finish_upload}
use storage_framework.Provider.Upload.Outcome.{IsUnderway}

module _ (to_string : ℤ → Text) (filename : Text → Text) {Item : Type 0} where
  -- If every write to the temporary file is complete, `finish` of an upload under way, whose size is not
  -- negative, never returns exactly when what is there to read is more than was announced: the report of that error waits for
  -- the lock that `finish` holds.
  pub finish_upload-none :
      (any : Item) (buf : List ℕ) (w : Written) (d : Disk Item) (u : LocalUpload) (n : ℕ)
      → IsUnderway n u
      → w.count ≡ pos (length buf)
      → (finish_upload to_string filename any buf w d u ≡ none) ↔ (n < length u.file + length buf)
  unfolding finish_upload own_finish
  finish_upload-none any buf w d u n i full = (λ h. ground arith, λ h. ground arith)
