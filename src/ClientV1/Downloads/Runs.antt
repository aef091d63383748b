-- ===== src/ClientV1/Downloads/Runs.antt =====
-- What happens to the worker of a download: src/qt/client/internal/local_client/DownloaderImpl.cpp. A slot
-- runs only until its thread's event loop is told to quit, and a socket's signal while it is connected.
use storage_framework.Base.{
  ℕ, ◌+◌, Bool, not, ◌&&◌, Option, none, some, List, [], ◌∷◌, leb, if◌then◌else◌, length,
}
use storage_framework.Base.Text.{Text}
use storage_framework.Base.Int.{ℤ}
use storage_framework.ClientV1.Downloads.{
  Channel, DownloadWorker, W, do_finish, do_cancel, on_bytes_written, on_error,
}

pub data Event : Type 0 where
  bytes_written : ℕ → Event
  disconnected socket_failed finish cancel : Event

-- A worker, and how many bytes the socket has signalled as written.
pub record Session (S : Type 0) : Type 0 where
  pub worker : DownloadWorker S
  pub signalled : ℕ

module _ (c : Channel) (to_string : ℤ → Text) where
  abbrev pub with_worker : ℕ → Option (W c to_string) → Option (Session c.State)
  with_worker n none = none
  with_worker n (some w) = some (record { worker = w; signalled = n })

  abbrev pub is_live : W c to_string → Bool
  is_live w = not w.quit && w.connected

  -- The socket signals bytes that it has taken before, each of them once.
  unfoldable pub step : Event → Session c.State → Option (Session c.State)
  step (bytes_written n) s =
      if is_live s.worker && leb (s.signalled + n) (length (c.taken s.worker.channel))
      then with_worker (s.signalled + n) (on_bytes_written c to_string n s.worker)
      else some s
  step disconnected s =
      if is_live s.worker then with_worker s.signalled (do_finish c to_string s.worker) else some s
  step socket_failed s =
      if is_live s.worker then with_worker s.signalled (on_error c to_string s.worker) else some s
  step finish s =
      if s.worker.quit then some s else with_worker s.signalled (do_finish c to_string s.worker)
  step cancel s =
      if s.worker.quit then some s else with_worker s.signalled (do_cancel c to_string s.worker)

  unfoldable pub run : List Event → Option (Session c.State) → Option (Session c.State)
  run [] m = m
  run (e ∷ es) none = none
  run (e ∷ es) (some s) = run es (step e s)
