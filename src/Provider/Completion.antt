-- ===== src/Provider/Completion.antt =====
-- src/provider/internal/UploadJobImpl.cpp and DownloadJobImpl.cpp: the sockets of a job, and its
-- completion, which an error report can settle before the client asks for it.
use storage_framework.Base.{
  Bool, true, false, not, Option, none, some, List, [], ◌∷◌, ◌++◌, if◌then◌else◌, checked,
}
use storage_framework.Base.Text.{Text, text}
use storage_framework.Base.Int.{ℤ, pos, negsuc, ltb_ℤ}
use storage_framework.Errors.Exceptions.{StorageException, resource}
use storage_framework.Provider.Answer.{Answer, value, exception}

-- A descriptor is -1 where there is none. `closed` are the descriptors that the object has closed.
-- `failure` is what the completion promise holds, and `locked` is `completion_lock_`.
pub record Completion : Type 0 where
  pub id : Text
  pub read_socket : ℤ
  pub write_socket : ℤ
  pub closed : List ℤ
  pub completed : Bool
  pub failure : Option StorageException
  pub locked : Bool

-- What `socketpair` gives: two descriptors, or an error number with its text.
pub data SocketPair : Type 0 where
  sockets : ℤ → ℤ → SocketPair
  no_sockets : ℤ → Text → SocketPair

unfoldable pub construct : Text → SocketPair → Answer Completion
construct id (no_sockets errno message) =
    exception (resource (text "could not create socketpair: " ++ message) errno)
construct id (sockets r w) = value (record {
  id = id;
  read_socket = r;
  write_socket = w;
  closed = [];
  completed = false;
  failure = none;
  locked = false;
})

is_open : ℤ → Bool
is_open fd = not (ltb_ℤ fd (pos 0))

unfoldable pub close_read : Completion → Completion
unfolding is_open
close_read c =
    if is_open c.read_socket
    then (record c { read_socket = negsuc 0; closed = c.read_socket ∷ c.closed })
    else c

unfoldable pub close_write : Completion → Completion
unfolding is_open
close_write c =
    if is_open c.write_socket
    then (record c { write_socket = negsuc 0; closed = c.write_socket ∷ c.closed })
    else c

-- The destructors close what is still open.
unfoldable pub destroy : Completion → Completion
unfolding close_read close_write
destroy c = close_write (close_read c)

-- `take_write_socket` of an upload and `take_read_socket` of a download: the caller owns the
-- descriptor from then on. In a build with assertions a second call aborts, which is `none`.
unfoldable pub take_write_socket : Bool → Completion → Option (ℤ × Completion)
unfolding is_open
take_write_socket asserts c =
    checked asserts (is_open c.write_socket) (c.write_socket, record c { write_socket = negsuc 0 })

unfoldable pub take_read_socket : Bool → Completion → Option (ℤ × Completion)
unfolding is_open
take_read_socket asserts c =
    checked asserts (is_open c.read_socket) (c.read_socket, record c { read_socket = negsuc 0 })

-- Taking `completion_lock_`, a `std::mutex`. A thread that holds it already never returns: `none`.
abbrev pub with_lock {ℓ} : {A : Type ℓ} → Completion → Option A → Option A
with_lock c a = if c.locked then none else a

-- `UploadJobImpl::report_error`.
unfoldable pub report_upload_error : Completion → StorageException → Option Completion
unfolding close_read
report_upload_error c e =
    with_lock (close_read c) (some (record (close_read c) { completed = true; failure = some e }))

-- `DownloadJobImpl::report_error` and `report_complete`.
unfoldable pub report_download_error : Completion → StorageException → Option Completion
unfolding close_write
report_download_error c e =
    with_lock (close_write c) (some (record (close_write c) { completed = true; failure = some e }))

unfoldable pub report_complete : Completion → Option Completion
unfolding close_write
report_complete c =
    with_lock (close_write c) (some (record (close_write c) { completed = true; failure = none }))

unfoldable pub set_locked : {J : Type 0} → (J → Completion) → (Completion → J → J) → Bool → J → J
set_locked completion with_completion b j = with_completion (record (completion j) { locked = b }) j

-- What `finish` gives for a job that is completed already: the promise's future.
settled : {A : Type 0} → A → Option StorageException → Answer A
settled success none = value success
settled success (some e) = exception e

module _ {J A : Type 0} (completion : J → Completion) (with_completion : Completion → J → J) where
  unfoldable pub unlock : Option (Answer A × J) → Option (Answer A × J)
  unfolding set_locked
  unlock none = none
  unlock (some (a, j)) = some (a, set_locked completion with_completion false j)

  -- `finish` of both classes, over the job's own `finish`, which runs with the lock held. `success`
  -- is the promise's value after `report_complete`.
  unfoldable pub finish : (J → Option (Answer A × J)) → A → J → Option (Answer A × J)
  unfolding set_locked unlock settled
  finish own_finish success j = with_lock (completion j) (
      if (completion j).completed
      then some (settled success (completion j).failure, j)
      else unlock (own_finish (set_locked completion with_completion true j)))

  -- `cancel` of both classes.
  unfoldable pub cancel : (J → Option (Answer A × J)) → A → J → Option (Answer A × J)
  unfolding set_locked unlock
  cancel own_cancel success j = with_lock (completion j) (
      if (completion j).completed
      then some (value success, j)
      else unlock (own_cancel (set_locked completion with_completion true j)))
