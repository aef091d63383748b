-- ===== src/Provider/Interface.antt =====
-- src/provider/internal/ProviderInterface.cpp: the methods that open and end an upload or a download, with
-- the table of pending jobs. A reply that opens a job carries the descriptor of the client's socket,
-- which is duplicated and closed here.
pub mod Uploads
use storage_framework.Base.{Bool, true, false, ◌≡◌, Option, none, some, List, []}
use storage_framework.Base.Text.{Text, text}
use storage_framework.Base.Int.{ℤ}
use storage_framework.Errors.Exceptions.{StorageException}
use storage_framework.Provider.Answer.{Answer, value, exception}
use storage_framework.Provider.Completion.{Completion, take_write_socket, take_read_socket}
use storage_framework.Jobs.Pending.{
  ServiceWatcher, PendingJobs, Outcome, returned, thrown, add_upload, add_download, remove_upload,
  remove_download,
}

-- What the interface needs of a class of jobs: the part that the base class keeps.
pub record JobClass (J : Type 0) : Type 0 where
  pub base : J → Completion
  pub with_base : Completion → J → J
  pub base-with_base : (b : Completion) (j : J) → base (with_base b j) ≡ b

pub record OpenReply : Type 0 where
  pub id : Text
  pub file_descriptor : ℤ

module _ (qt : ServiceWatcher) (asserts : Bool) {D U : Type 0} (downloads : JobClass D)
    (uploads : JobClass U) where
  abbrev pub upload_id : U → Text
  upload_id j = (uploads.base j).id

  abbrev pub download_id : D → Text
  download_id j = (downloads.base j).id

  unfoldable pub enter_upload :
      PendingJobs D U qt.State → Text → ℤ → U → Option (Answer OpenReply × PendingJobs D U qt.State)
  enter_upload p client fd job = elim (add_upload qt asserts upload_id p client job) [
    | none ↦ none
    | some q ↦ some (value (record { id = upload_id job; file_descriptor = fd }), q)
  ]

  -- `CreateFile` and `Update`, once the provider has answered.
  unfoldable pub open_upload :
      PendingJobs D U qt.State
      → Text
      → Answer U
      → Option (Answer OpenReply × PendingJobs D U qt.State)
  unfolding enter_upload
  open_upload p client (exception e) = some (exception e, p)
  open_upload p client (value job) = elim (take_write_socket asserts (uploads.base job)) [
    | none ↦ none
    | some (fd, b) ↦ enter_upload p client fd (uploads.with_base b job)
  ]

  unfoldable pub enter_download :
      PendingJobs D U qt.State → Text → ℤ → D → Option (Answer OpenReply × PendingJobs D U qt.State)
  enter_download p client fd job = elim (add_download qt asserts download_id p client job) [
    | none ↦ none
    | some q ↦ some (value (record { id = download_id job; file_descriptor = fd }), q)
  ]

  -- `Download`, once the provider has answered.
  unfoldable pub open_download :
      PendingJobs D U qt.State
      → Text
      → Answer D
      → Option (Answer OpenReply × PendingJobs D U qt.State)
  unfolding enter_download
  open_download p client (exception e) = some (exception e, p)
  open_download p client (value job) = elim (take_read_socket asserts (downloads.base job)) [
    | none ↦ none
    | some (fd, b) ↦ enter_download p client fd (downloads.with_base b job)
  ]

module _ (qt : ServiceWatcher) {D U A : Type 0} where
  -- The job that was taken off the table ends its life with the call.
  unfoldable pub end_job :
      {J : Type 0}
      → (J → Option (Answer A × J))
      → PendingJobs D U qt.State × Outcome J
      → Option (Answer A × PendingJobs D U qt.State)
  end_job call (p, thrown e) = some (exception e, p)
  end_job call (p, returned job) = elim (call job) [ none ↦ none | some (a, j) ↦ some (a, p) ]

  -- `FinishUpload` and `CancelUpload`, by the job's `finish` or `cancel`.
  unfoldable pub end_upload :
      (U → Option (Answer A × U))
      → PendingJobs D U qt.State
      → Text
      → Text
      → Option (Answer A × PendingJobs D U qt.State)
  end_upload call p client id = end_job call (remove_upload qt p client id)

  -- `FinishDownload`.
  unfoldable pub end_download :
      (D → Option (Answer A × D))
      → PendingJobs D U qt.State
      → Text
      → Text
      → Option (Answer A × PendingJobs D U qt.State)
  end_download call p client id = end_job call (remove_download qt p client id)
